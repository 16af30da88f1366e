-- ===== src/Perf/PsiIrq/PsiIrqTracking1.antt =====
-- Steps 1 of 3 of `_psi_irq_tracking_apply` of scripts/abk_stable_perf.py.
use abk_5_15_backport.Prelude.{true, List, [], ◌∷◌}
use abk_5_15_backport.Steps.{Step, step}

unfoldable pub psi_irq_tracking_steps_1 : List Step
psi_irq_tracking_steps_1 =
    step "include/linux/psi_types.h"
      ("enum psi_res {\n" ∷ "\tPSI_IO,\n" ∷ "\tPSI_MEM,\n" ∷ "\tPSI_CPU,\n"
        ∷ "\tNR_PSI_RESOURCES = 3,\n" ∷ "};" ∷ [])
      ("enum psi_res {\n" ∷ "\tPSI_IO,\n" ∷ "\tPSI_MEM,\n" ∷ "\tPSI_CPU,\n"
        ∷ "/* ABK stable_515_backport: IRQ pressure resource (android14-6.1). */\n"
        ∷ "#ifdef CONFIG_IRQ_TIME_ACCOUNTING\n" ∷ "\tPSI_IRQ,\n" ∷ "#endif\n"
        ∷ "\tNR_PSI_RESOURCES,\n" ∷ "};" ∷ [])
      true
    ∷ step "include/linux/psi_types.h"
        ("\tPSI_CPU_SOME,\n" ∷ "\tPSI_CPU_FULL,\n"
          ∷ "\t/* Only per-CPU, to weigh the CPU in the global average: */\n" ∷ "\tPSI_NONIDLE,\n"
          ∷ "\tNR_PSI_STATES = 7,\n" ∷ "};" ∷ [])
        ("\tPSI_CPU_SOME,\n" ∷ "\tPSI_CPU_FULL,\n" ∷ "#ifdef CONFIG_IRQ_TIME_ACCOUNTING\n"
          ∷ "\tPSI_IRQ_FULL,\n" ∷ "#endif\n"
          ∷ "\t/* Only per-CPU, to weigh the CPU in the global average: */\n" ∷ "\tPSI_NONIDLE,\n"
          ∷ "\tNR_PSI_STATES,\n" ∷ "};" ∷ [])
        true
    ∷ step "kernel/sched/stats.h"
        ("#ifdef CONFIG_PSI\n" ∷ "/*\n"
          ∷ " * PSI tracks state that persists across sleeps, such as iowaits and" ∷ [])
        ("#ifdef CONFIG_PSI\n" ∷ "\n"
          ∷ "/* ABK stable_515_backport: PSI IRQ pressure accounting (android14-6.1). */\n"
          ∷ "#ifdef CONFIG_IRQ_TIME_ACCOUNTING\n"
          ∷ "void psi_account_irqtime(struct rq *rq, struct task_struct *curr, struct task_struct *prev);\n"
          ∷ "#else\n"
          ∷ "static inline void psi_account_irqtime(struct rq *rq, struct task_struct *curr,\n"
          ∷ "\t\t\t\t       struct task_struct *prev) {}\n"
          ∷ "#endif /* CONFIG_IRQ_TIME_ACCOUNTING */\n" ∷ "\n" ∷ "/*\n"
          ∷ " * PSI tracks state that persists across sleeps, such as iowaits and" ∷ [])
        true
    ∷ step "kernel/sched/stats.h"
        ("static inline void psi_sched_switch(struct task_struct *prev,\n"
          ∷ "\t\t\t\t    struct task_struct *next,\n" ∷ "\t\t\t\t    bool sleep) {}\n"
          ∷ "#endif /* CONFIG_PSI */" ∷ [])
        ("static inline void psi_sched_switch(struct task_struct *prev,\n"
          ∷ "\t\t\t\t    struct task_struct *next,\n" ∷ "\t\t\t\t    bool sleep) {}\n"
          ∷ "#ifdef CONFIG_IRQ_TIME_ACCOUNTING\n"
          ∷ "static inline void psi_account_irqtime(struct rq *rq, struct task_struct *curr,\n"
          ∷ "\t\t\t\t       struct task_struct *prev) {}\n"
          ∷ "#endif /* CONFIG_IRQ_TIME_ACCOUNTING */\n" ∷ "#endif /* CONFIG_PSI */" ∷ [])
        true
    ∷ []

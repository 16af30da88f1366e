-- ===== src/Perf/Oncpu/PsiOncpuStateMask1.antt =====
-- Steps 1 of 3 of `_psi_oncpu_state_mask_apply` of scripts/abk_stable_perf.py.
use abk_5_15_backport.Prelude.{true, List, [], ◌∷◌}
use abk_5_15_backport.Steps.{Step, step}

unfoldable pub psi_oncpu_state_mask_steps_1 : List Step
psi_oncpu_state_mask_steps_1 =
    step "include/linux/psi_types.h"
      ("\tNR_RUNNING,\n" ∷ "\t/*\n" ∷ "\t * This can't have values other than 0 or 1 and could be\n"
        ∷ "\t * implemented as a bit flag. But for now we still have room\n"
        ∷ "\t * in the first cacheline of psi_group_cpu, and this way we\n"
        ∷ "\t * don't have to special case any state tracking for it.\n" ∷ "\t */\n"
        ∷ "\tNR_ONCPU,\n" ∷ "\t/*\n"
        ∷ "\t * For IO and CPU stalls the presence of running/oncpu tasks\n"
        ∷ "\t * in the domain means a partial rather than a full stall.\n" ∷ [])
      ("\tNR_RUNNING,\n" ∷ "\t/*\n"
        ∷ "\t * For IO and CPU stalls the presence of running/oncpu tasks\n"
        ∷ "\t * in the domain means a partial rather than a full stall.\n" ∷ [])
      true
    ∷ step "include/linux/psi_types.h"
        ("\tNR_MEMSTALL_RUNNING,\n" ∷ "\tNR_PSI_TASK_COUNTS = 5,\n" ∷ "};" ∷ [])
        ("\tNR_MEMSTALL_RUNNING,\n" ∷ "\tNR_PSI_TASK_COUNTS = 4,\n" ∷ "};" ∷ []) true
    ∷ step "include/linux/psi_types.h" ("#define TSK_ONCPU\t(1 << NR_ONCPU)\n" ∷ [])
        ("/* ABK stable_515_backport: only one task can be scheduled on a CPU, so\n"
          ∷ " * TSK_ONCPU is a flag in the state mask rather than a task count\n"
          ∷ " * (android14-6.1).\n" ∷ " */\n" ∷ "#define TSK_ONCPU\t(1 << NR_PSI_TASK_COUNTS)\n"
          ∷ [])
        true
    ∷ step "include/linux/psi_types.h"
        ("\t/* Only per-CPU, to weigh the CPU in the global average: */\n" ∷ "\tPSI_NONIDLE,\n"
          ∷ "\tNR_PSI_STATES,\n" ∷ "};" ∷ [])
        ("\t/* Only per-CPU, to weigh the CPU in the global average: */\n" ∷ "\tPSI_NONIDLE,\n"
          ∷ "\tNR_PSI_STATES,\n" ∷ "};\n" ∷ "\n"
          ∷ "/* ABK stable_515_backport: use one bit in the state mask to track\n"
          ∷ " * TSK_ONCPU (android14-6.1).\n" ∷ " */\n"
          ∷ "#define PSI_ONCPU\t(1 << NR_PSI_STATES)\n" ∷ [])
        true
    ∷ step "kernel/sched/psi.c"
        ("static bool test_state(unsigned int *tasks, enum psi_states state)\n" ∷ "{\n"
          ∷ "\tswitch (state) {\n" ∷ "\tcase PSI_IO_SOME:\n" ∷ [])
        ("static bool test_state(unsigned int *tasks, enum psi_states state, bool oncpu)\n" ∷ "{\n"
          ∷ "\tswitch (state) {\n" ∷ "\tcase PSI_IO_SOME:\n" ∷ [])
        true
    ∷ step "kernel/sched/psi.c"
        ("\tcase PSI_CPU_SOME:\n" ∷ "\t\treturn unlikely(tasks[NR_RUNNING] > tasks[NR_ONCPU]);\n"
          ∷ "\tcase PSI_CPU_FULL:\n"
          ∷ "\t\treturn unlikely(tasks[NR_RUNNING] && !tasks[NR_ONCPU]);\n" ∷ [])
        ("\tcase PSI_CPU_SOME:\n" ∷ "\t\treturn unlikely(tasks[NR_RUNNING] > oncpu);\n"
          ∷ "\tcase PSI_CPU_FULL:\n" ∷ "\t\treturn unlikely(tasks[NR_RUNNING] && !oncpu);\n" ∷ [])
        true
    ∷ step "kernel/sched/psi.c"
        ("\twrite_seqcount_begin(&groupc->seq);\n" ∷ "\n" ∷ "\trecord_times(groupc, now);\n" ∷ "\n"
          ∷ "\tfor (t = 0, m = clear; m; m &= ~(1 << t), t++) {\n" ∷ [])
        ("\twrite_seqcount_begin(&groupc->seq);\n" ∷ "\n" ∷ "\trecord_times(groupc, now);\n" ∷ "\n"
          ∷ "\t/*\n" ∷ "\t * ABK stable_515_backport: TSK_ONCPU has no task count -- only one\n"
          ∷ "\t * task can be scheduled on a CPU, so it is a flag carried in the\n"
          ∷ "\t * state mask (android14-6.1).  Set, clear or carry it, then keep it\n"
          ∷ "\t * out of the count update below.\n" ∷ "\t */\n"
          ∷ "\tif (unlikely(clear & TSK_ONCPU)) {\n" ∷ "\t\tstate_mask = 0;\n"
          ∷ "\t\tclear &= ~TSK_ONCPU;\n" ∷ "\t} else if (unlikely(set & TSK_ONCPU)) {\n"
          ∷ "\t\tstate_mask = PSI_ONCPU;\n" ∷ "\t\tset &= ~TSK_ONCPU;\n" ∷ "\t} else {\n"
          ∷ "\t\tstate_mask = groupc->state_mask & PSI_ONCPU;\n" ∷ "\t}\n" ∷ "\n"
          ∷ "\tfor (t = 0, m = clear; m; m &= ~(1 << t), t++) {\n" ∷ [])
        true
    ∷ []

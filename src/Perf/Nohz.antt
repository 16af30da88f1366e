-- ===== src/Perf/Nohz.antt =====
-- The idle balancing group of scripts/abk_stable_perf.py.
use abk_5_15_backport.Prelude.{true, List, [], ◌∷◌}
use abk_5_15_backport.Text.{codes, block}
use abk_5_15_backport.Steps.{Step, step}
use abk_5_15_backport.Groups.Guard.{StepSpec}

-- The steps of `_nohz_apply`.
unfoldable pub nohz_steps : List Step
nohz_steps =
    step "kernel/sched/sched.h"
      ("#define NOHZ_BALANCE_KICK_BIT\t0\n" ∷ "#define NOHZ_STATS_KICK_BIT\t1\n"
        ∷ "#define NOHZ_NEWILB_KICK_BIT\t2\n" ∷ "\n"
        ∷ "#define NOHZ_BALANCE_KICK\tBIT(NOHZ_BALANCE_KICK_BIT)\n"
        ∷ "#define NOHZ_STATS_KICK\t\tBIT(NOHZ_STATS_KICK_BIT)\n"
        ∷ "#define NOHZ_NEWILB_KICK\tBIT(NOHZ_NEWILB_KICK_BIT)\n" ∷ "\n"
        ∷ "#define NOHZ_KICK_MASK\t(NOHZ_BALANCE_KICK | NOHZ_STATS_KICK)\n" ∷ [])
      ("#define NOHZ_BALANCE_KICK_BIT\t0\n" ∷ "#define NOHZ_STATS_KICK_BIT\t1\n"
        ∷ "#define NOHZ_NEWILB_KICK_BIT\t2\n" ∷ "#define NOHZ_NEXT_KICK_BIT\t3\n" ∷ "\n"
        ∷ "/* Run rebalance_domains() */\n"
        ∷ "#define NOHZ_BALANCE_KICK\tBIT(NOHZ_BALANCE_KICK_BIT)\n" ∷ "/* Update blocked load */\n"
        ∷ "#define NOHZ_STATS_KICK\t\tBIT(NOHZ_STATS_KICK_BIT)\n"
        ∷ "/* Update blocked load when entering idle */\n"
        ∷ "#define NOHZ_NEWILB_KICK\tBIT(NOHZ_NEWILB_KICK_BIT)\n"
        ∷ "/* Update nohz.next_balance */\n" ∷ "#define NOHZ_NEXT_KICK\t\tBIT(NOHZ_NEXT_KICK_BIT)\n"
        ∷ "\n" ∷ "#define NOHZ_KICK_MASK\t(NOHZ_BALANCE_KICK | NOHZ_STATS_KICK | NOHZ_NEXT_KICK)\n"
        ∷ [])
      true
    ∷ step "kernel/sched/fair.c"
        ("\tif (rq->nr_running >= 2) {\n" ∷ "\t\tflags = NOHZ_KICK_MASK;\n" ∷ "\t\tgoto out;\n"
          ∷ "\t}" ∷ [])
        ("\tif (rq->nr_running >= 2) {\n" ∷ "\t\tflags = NOHZ_STATS_KICK | NOHZ_BALANCE_KICK;\n"
          ∷ "\t\tgoto out;\n" ∷ "\t}" ∷ [])
        true
    ∷ step "kernel/sched/fair.c"
        ("\t\tif (rq->cfs.h_nr_running >= 1 && check_cpu_capacity(rq, sd)) {\n"
          ∷ "\t\t\tflags = NOHZ_KICK_MASK;\n" ∷ "\t\t\tgoto unlock;\n" ∷ "\t\t}" ∷ [])
        ("\t\tif (rq->cfs.h_nr_running >= 1 && check_cpu_capacity(rq, sd)) {\n"
          ∷ "\t\t\tflags = NOHZ_STATS_KICK | NOHZ_BALANCE_KICK;\n" ∷ "\t\t\tgoto unlock;\n"
          ∷ "\t\t}" ∷ [])
        true
    ∷ step "kernel/sched/fair.c"
        ("\t\t\tif (sched_asym_prefer(i, cpu)) {\n" ∷ "\t\t\t\tflags = NOHZ_KICK_MASK;\n"
          ∷ "\t\t\t\tgoto unlock;\n" ∷ "\t\t\t}" ∷ [])
        ("\t\t\tif (sched_asym_prefer(i, cpu)) {\n"
          ∷ "\t\t\t\tflags = NOHZ_STATS_KICK | NOHZ_BALANCE_KICK;\n" ∷ "\t\t\t\tgoto unlock;\n"
          ∷ "\t\t\t}" ∷ [])
        true
    ∷ step "kernel/sched/fair.c"
        ("\t\tif (check_misfit_status(rq, sd)) {\n" ∷ "\t\t\tflags = NOHZ_KICK_MASK;\n"
          ∷ "\t\t\tgoto unlock;\n" ∷ "\t\t}" ∷ [])
        ("\t\tif (check_misfit_status(rq, sd)) {\n"
          ∷ "\t\t\tflags = NOHZ_STATS_KICK | NOHZ_BALANCE_KICK;\n" ∷ "\t\t\tgoto unlock;\n"
          ∷ "\t\t}" ∷ [])
        true
    ∷ step "kernel/sched/fair.c"
        ("\t\tif (nr_busy > 1) {\n" ∷ "\t\t\tflags = NOHZ_KICK_MASK;\n" ∷ "\t\t\tgoto unlock;\n"
          ∷ "\t\t}" ∷ [])
        ("\t\tif (nr_busy > 1) {\n" ∷ "\t\t\tflags = NOHZ_STATS_KICK | NOHZ_BALANCE_KICK;\n"
          ∷ "\t\t\tgoto unlock;\n" ∷ "\t\t}" ∷ [])
        true
    ∷ step "kernel/sched/fair.c" ("\tWRITE_ONCE(nohz.has_blocked, 0);\n" ∷ [])
        ("\tif (flags & NOHZ_STATS_KICK)\n" ∷ "\t\tWRITE_ONCE(nohz.has_blocked, 0);\n" ∷ []) true
    ∷ step "kernel/sched/fair.c"
        ("\t\tif (need_resched()) {\n" ∷ "\t\t\thas_blocked_load = true;\n" ∷ "\t\t\tgoto abort;\n"
          ∷ "\t\t}\n" ∷ "\n" ∷ "\t\trq = cpu_rq(balance_cpu);\n" ∷ "\n"
          ∷ "\t\thas_blocked_load |= update_nohz_stats(rq);" ∷ [])
        ("\t\tif (!idle_cpu(this_cpu) && need_resched()) {\n"
          ∷ "\t\t\tif (flags & NOHZ_STATS_KICK)\n" ∷ "\t\t\t\thas_blocked_load = true;\n"
          ∷ "\t\t\tgoto abort;\n" ∷ "\t\t}\n" ∷ "\n" ∷ "\t\trq = cpu_rq(balance_cpu);\n" ∷ "\n"
          ∷ "\t\tif (flags & NOHZ_STATS_KICK)\n"
          ∷ "\t\t\thas_blocked_load |= update_nohz_stats(rq);" ∷ [])
        true
    ∷ step "kernel/sched/fair.c"
        ("\tWRITE_ONCE(nohz.next_blocked,\n" ∷ "\t\tnow + msecs_to_jiffies(LOAD_AVG_PERIOD));\n"
          ∷ [])
        ("\tif (flags & NOHZ_STATS_KICK)\n" ∷ "\t\tWRITE_ONCE(nohz.next_blocked,\n"
          ∷ "\t\t\t   now + msecs_to_jiffies(LOAD_AVG_PERIOD));\n" ∷ [])
        true
    ∷ step "kernel/sched/core.c"
        ("\trq->idle_balance = idle_cpu(cpu);\n" ∷ "\tif (rq->idle_balance && !need_resched()) {\n"
          ∷ "\t\trq->nohz_idle_balance = flags;\n" ∷ "\t\traise_softirq_irqoff(SCHED_SOFTIRQ);\n"
          ∷ "\t}" ∷ [])
        ("\trq->idle_balance = idle_cpu(cpu);\n" ∷ "\tif (rq->idle_balance) {\n"
          ∷ "\t\trq->nohz_idle_balance = flags;\n" ∷ "\t\t__raise_softirq_irqoff(SCHED_SOFTIRQ);\n"
          ∷ "\t}" ∷ [])
        true
    ∷ []

unfoldable pub nohz : StepSpec
nohz = record {
  key = codes "sched_nohz_idle_balance_series";
  summary = block (
      "NOHZ idle balance: scoped kicks, no ksoftirqd wakeup, raw softir" ∷ "q raise (5.15.174)"
      ∷ []);
  commits =
      (codes "d071dba5ddd2 (5.15.174)")
      ∷ (codes "6aeeac48fc1b (5.15.174)")
      ∷ (codes "38a4826f1bdf (5.15.174)")
      ∷ (codes "25fc82f3a868 (5.15.174)")
      ∷ [];
  files =
      (codes "kernel/sched/sched.h")
      ∷ (codes "kernel/sched/fair.c")
      ∷ (codes "kernel/sched/core.c")
      ∷ [];
  steps = nohz_steps;
}

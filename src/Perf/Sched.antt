-- ===== src/Perf/Sched.antt =====
-- The real-time and fair scheduling groups of scripts/abk_stable_perf.py.
use abk_5_15_backport.Prelude.{true, false, List, [], ◌∷◌}
use abk_5_15_backport.Text.{codes, block}
use abk_5_15_backport.Steps.{Step, step}
use abk_5_15_backport.Groups.Guard.{StepSpec}

-- The steps of `_rt_optimizations_apply`.
unfoldable pub rt_optimizations_steps : List Step
rt_optimizations_steps =
    step "kernel/sched/rt.c"
      ("static int rto_next_cpu(struct root_domain *rd)\n" ∷ "{\n" ∷ "\tint next;\n"
        ∷ "\tint cpu;\n" ∷ [])
      ("static int rto_next_cpu(struct root_domain *rd)\n" ∷ "{\n"
        ∷ "\tint this_cpu = smp_processor_id();\n" ∷ "\tint next;\n" ∷ "\tint cpu;\n" ∷ [])
      true
    ∷ step "kernel/sched/rt.c"
        ("\t\trd->rto_cpu = cpu;\n" ∷ "\n" ∷ "\t\tif (cpu < nr_cpu_ids)\n" ∷ "\t\t\treturn cpu;"
          ∷ [])
        ("\t\trd->rto_cpu = cpu;\n" ∷ "\n" ∷ "\t\t/* Do not send IPI to self */\n"
          ∷ "\t\tif (cpu == this_cpu)\n" ∷ "\t\t\tcontinue;\n" ∷ "\n"
          ∷ "\t\tif (cpu < nr_cpu_ids)\n" ∷ "\t\t\treturn cpu;" ∷ [])
        true
    ∷ step "kernel/sched/features.h" (" */\n" ∷ "SCHED_FEAT(RT_PUSH_IPI, true)\n" ∷ "#endif" ∷ [])
        (" * This is best for PREEMPT_RT, but for non-RT it can cause issues\n"
          ∷ " * when preemption is disabled for long periods of time. Have\n"
          ∷ " * it only default enabled for PREEMPT_RT.\n" ∷ " */\n" ∷ "# ifdef CONFIG_PREEMPT_RT\n"
          ∷ "SCHED_FEAT(RT_PUSH_IPI, true)\n" ∷ "# else\n" ∷ "SCHED_FEAT(RT_PUSH_IPI, false)\n"
          ∷ "# endif\n" ∷ "#endif" ∷ [])
        false
    ∷ []

unfoldable pub rt_optimizations : StepSpec
rt_optimizations = record {
  key = codes "sched_rt_optimizations";
  summary = block (
      "rto_next_cpu skips the current CPU; RT_PUSH_IPI defaults off on " ∷ "non-RT (5.15.202/.212)"
      ∷ []);
  commits = (codes "3b3c672a66db (5.15.202)") ∷ (codes "d8312a56d9a1 (5.15.212)") ∷ [];
  files = (codes "kernel/sched/rt.c") ∷ (codes "kernel/sched/features.h") ∷ [];
  steps = rt_optimizations_steps;
}

-- The steps of `_dst_group_allowed_stats_apply`.
unfoldable pub dst_group_allowed_stats_steps : List Step
dst_group_allowed_stats_steps =
    step "kernel/sched/fair.c"
      ("\tfor_each_cpu(i, sched_group_span(group)) {\n" ∷ "\t\tstruct rq *rq = cpu_rq(i);\n"
        ∷ "\t\tunsigned int local;\n" ∷ [])
      ("\tfor_each_cpu_and(i, sched_group_span(group), p->cpus_ptr) {\n"
        ∷ "\t\tstruct rq *rq = cpu_rq(i);\n" ∷ "\t\tunsigned int local;\n" ∷ [])
      true
    ∷ []

unfoldable pub dst_group_allowed_stats : StepSpec
dst_group_allowed_stats = record {
  key = codes "sched_dst_group_allowed_stats";
  summary = block (
      "update_sg_wakeup_stats counts only CPUs allowed for p, fixing wa"
      ∷ "ke imbalance for affinity-restricted forks (5.15.212)" ∷ []);
  commits = (codes "d99f14f8b142 (5.15.212)") ∷ [];
  files = (codes "kernel/sched/fair.c") ∷ [];
  steps = dst_group_allowed_stats_steps;
}

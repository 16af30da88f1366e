-- ===== src/Perf/Psi.antt =====
-- The pressure stall flags group of scripts/abk_stable_perf.py.
use abk_5_15_backport.Prelude.{true, List, [], ◌∷◌}
use abk_5_15_backport.Text.{codes, block}
use abk_5_15_backport.Steps.{Step, step}
use abk_5_15_backport.Groups.Guard.{StepSpec}

-- The steps of `_psi_flags_apply`.
unfoldable pub psi_flags_steps : List Step
psi_flags_steps =
    step "include/linux/sched.h"
      ("\tunsigned\t\t\tsched_reset_on_fork:1;\n" ∷ "\tunsigned\t\t\tsched_contributes_to_load:1;\n"
        ∷ "\tunsigned\t\t\tsched_migrated:1;\n" ∷ "#ifdef CONFIG_PSI\n"
        ∷ "\tunsigned\t\t\tsched_psi_wake_requeue:1;\n" ∷ "#endif\n" ∷ "\n"
        ∷ "\t/* Force alignment to the next boundary: */" ∷ [])
      ("\tunsigned\t\t\tsched_reset_on_fork:1;\n" ∷ "\tunsigned\t\t\tsched_contributes_to_load:1;\n"
        ∷ "\tunsigned\t\t\tsched_migrated:1;\n" ∷ "\n"
        ∷ "\t/* Force alignment to the next boundary: */" ∷ [])
      true
    ∷ step "kernel/sched/core.c" ("\t\tpsi_enqueue(p, flags & ENQUEUE_WAKEUP);" ∷ [])
        ("\t\tpsi_enqueue(p, (flags & ENQUEUE_WAKEUP) && !(flags & ENQUEUE_MIGRATED));" ∷ []) true
    ∷ step "kernel/sched/stats.h"
        ("\tif (!wakeup || p->sched_psi_wake_requeue) {\n" ∷ "\t\tif (p->in_memstall)\n"
          ∷ "\t\t\tset |= TSK_MEMSTALL;\n" ∷ "\t\tif (p->sched_psi_wake_requeue)\n"
          ∷ "\t\t\tp->sched_psi_wake_requeue = 0;\n" ∷ "\t} else {" ∷ [])
        ("\tif (!wakeup) {\n" ∷ "\t\tif (p->in_memstall)\n" ∷ "\t\t\tset |= TSK_MEMSTALL;\n"
          ∷ "\t} else {" ∷ [])
        true
    ∷ step "kernel/sched/stats.h"
        ("static inline void psi_dequeue(struct task_struct *p, bool sleep)\n" ∷ "{\n"
          ∷ "\tint clear = TSK_RUNNING;\n" ∷ "\n" ∷ "\tif (static_branch_likely(&psi_disabled))\n"
          ∷ [])
        ("static inline void psi_dequeue(struct task_struct *p, bool sleep)\n" ∷ "{\n"
          ∷ "\tif (static_branch_likely(&psi_disabled))\n" ∷ [])
        true
    ∷ step "kernel/sched/stats.h"
        ("\tif (p->in_memstall)\n" ∷ "\t\tclear |= (TSK_MEMSTALL | TSK_MEMSTALL_RUNNING);\n" ∷ "\n"
          ∷ "\tpsi_task_change(p, clear, 0);\n" ∷ "}" ∷ [])
        ("\tpsi_task_change(p, p->psi_flags, 0);\n" ∷ "}" ∷ []) true
    ∷ step "kernel/sched/stats.h"
        ("\tif (unlikely(p->in_iowait || p->in_memstall)) {\n" ∷ "\t\tstruct rq_flags rf;\n"
          ∷ "\t\tstruct rq *rq;\n" ∷ "\t\tint clear = 0;\n" ∷ "\n" ∷ "\t\tif (p->in_iowait)\n"
          ∷ "\t\t\tclear |= TSK_IOWAIT;\n" ∷ "\t\tif (p->in_memstall)\n"
          ∷ "\t\t\tclear |= TSK_MEMSTALL;\n" ∷ "\n" ∷ "\t\trq = __task_rq_lock(p, &rf);\n"
          ∷ "\t\tpsi_task_change(p, clear, 0);\n" ∷ "\t\tp->sched_psi_wake_requeue = 1;\n"
          ∷ "\t\t__task_rq_unlock(rq, &rf);\n" ∷ "\t}" ∷ [])
        ("\tif (unlikely(p->psi_flags)) {\n" ∷ "\t\tstruct rq_flags rf;\n" ∷ "\t\tstruct rq *rq;\n"
          ∷ "\n" ∷ "\t\trq = __task_rq_lock(p, &rf);\n"
          ∷ "\t\tpsi_task_change(p, p->psi_flags, 0);\n" ∷ "\t\t__task_rq_unlock(rq, &rf);\n"
          ∷ "\t}" ∷ [])
        true
    ∷ []

unfoldable pub psi_flags : StepSpec
psi_flags = record {
  key = codes "sched_psi_flags_migration";
  summary =
      block ("PSI CPU migration switches task states via psi_flags delta (5.15" ∷ ".179)" ∷ []);
  commits = (codes "b3a5ff8c4b6e (5.15.179)") ∷ [];
  files =
      (codes "include/linux/sched.h")
      ∷ (codes "kernel/sched/core.c")
      ∷ (codes "kernel/sched/stats.h")
      ∷ [];
  steps = psi_flags_steps;
}

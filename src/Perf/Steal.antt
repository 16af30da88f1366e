-- ===== src/Perf/Steal.antt =====
-- The steal time group of scripts/abk_stable_perf.py.
use abk_5_15_backport.Prelude.{true, false, List, [], ◌∷◌}
use abk_5_15_backport.Text.{codes, block}
use abk_5_15_backport.Result.{Exec}
use abk_5_15_backport.Context.{Context}
use abk_5_15_backport.Steps.{Step, Status, step}
use abk_5_15_backport.Groups.{PatchGroup}
use abk_5_15_backport.Groups.Acting.{edit_all}
use abk_5_15_backport.Groups.Probes.{probed_apply}
use abk_5_15_backport.Groups.Probes.Acts.{ActsAs-probed_apply}
use abk_5_15_backport.Groups.Planned.{Planned, planned_as}

-- The steps of `_sched_steal_time_drop_apply`.
unfoldable pub sched_steal_time_drop_steps : List Step
sched_steal_time_drop_steps =
    step "kernel/sched/core.c"
      ("#ifdef CONFIG_PARAVIRT_TIME_ACCOUNTING\n"
        ∷ "\tif (static_key_false((&paravirt_steal_rq_enabled))) {\n"
        ∷ "\t\tsteal = paravirt_steal_clock(cpu_of(rq));\n"
        ∷ "\t\tsteal -= rq->prev_steal_time_rq;\n" ∷ "\n" ∷ "\t\tif (unlikely(steal > delta))\n"
        ∷ "\t\t\tsteal = delta;\n" ∷ "\n" ∷ "\t\trq->prev_steal_time_rq += steal;\n"
        ∷ "\t\tdelta -= steal;\n" ∷ "\t}\n" ∷ "#endif\n" ∷ [])
      ("#ifdef CONFIG_PARAVIRT_TIME_ACCOUNTING\n"
        ∷ "\tif (static_key_false((&paravirt_steal_rq_enabled))) {\n" ∷ "\t\tu64 prev_steal;\n"
        ∷ "\n" ∷ "\t\tsteal = prev_steal = paravirt_steal_clock(cpu_of(rq));\n"
        ∷ "\t\tsteal -= rq->prev_steal_time_rq;\n" ∷ "\n" ∷ "\t\tif (unlikely(steal > delta))\n"
        ∷ "\t\t\tsteal = delta;\n" ∷ "\n" ∷ "\t\trq->prev_steal_time_rq = prev_steal;\n"
        ∷ "\t\tdelta -= steal;\n" ∷ "\t}\n" ∷ "#endif\n" ∷ [])
      true
    ∷ []

abbrev pub sched_steal_time_drop_apply : Exec Context Status
sched_steal_time_drop_apply =
    probed_apply (codes "kernel/sched/core.c") (codes "rq->prev_steal_time_rq = prev_steal;")
      sched_steal_time_drop_steps

abbrev pub sched_steal_time_drop : PatchGroup
sched_steal_time_drop = record {
  key = codes "sched_steal_time_excess_drop";
  summary =
      block ("excess steal time is dropped instead of catching up later (5.15." ∷ "179)" ∷ []);
  commits = (codes "56135262c1f9 (5.15.179)") ∷ [];
  files = (codes "kernel/sched/core.c") ∷ [];
  apply_fn = sched_steal_time_drop_apply;
  hard = false;
}

abbrev pub planned_sched_steal_time_drop : Planned
planned_sched_steal_time_drop =
    planned_as sched_steal_time_drop (edit_all sched_steal_time_drop_steps) (
      ActsAs-probed_apply (codes "kernel/sched/core.c")
        (codes "rq->prev_steal_time_rq = prev_steal;") sched_steal_time_drop_steps)

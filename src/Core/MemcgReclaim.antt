-- ===== src/Core/MemcgReclaim.antt =====
-- The proactive reclaim group of scripts/abk_stable_core.py.
pub mod MemcgReclaim1
pub mod MemcgReclaim2
pub mod MemcgReclaim3
use abk_5_15_backport.Prelude.{true, false, List, [], ◌∷◌, ◌++◌}
use abk_5_15_backport.Text.{codes, block}
use abk_5_15_backport.Result.{Exec}
use abk_5_15_backport.Context.{Context}
use abk_5_15_backport.Steps.{Step, Status, step}
use abk_5_15_backport.Groups.{PatchGroup}
use abk_5_15_backport.Groups.Acting.{edit_all}
use abk_5_15_backport.Groups.Probes.{probed_apply}
use abk_5_15_backport.Groups.Probes.Acts.{ActsAs-probed_apply}
use abk_5_15_backport.Groups.Planned.{Planned, planned_as}
use abk_5_15_backport.Core.MemcgReclaim.MemcgReclaim1.{memcg_reclaim_steps_1}
use abk_5_15_backport.Core.MemcgReclaim.MemcgReclaim2.{memcg_reclaim_steps_2}
use abk_5_15_backport.Core.MemcgReclaim.MemcgReclaim3.{memcg_reclaim_steps_3}

-- The steps of `_memcg_reclaim_apply`.
unfoldable pub memcg_reclaim_steps : List Step
memcg_reclaim_steps = memcg_reclaim_steps_1 ++ (memcg_reclaim_steps_2 ++ memcg_reclaim_steps_3)

abbrev pub memcg_reclaim_apply : Exec Context Status
memcg_reclaim_apply =
    probed_apply (codes "mm/memcontrol.c")
      (block (
        "/* ABK stable_515_backport: per-memcg proactive reclaim (android"
        ∷ "14-6.1 memory.reclaim). */" ∷ []))
      memcg_reclaim_steps

abbrev pub memcg_reclaim : PatchGroup
memcg_reclaim = record {
  key = codes "memcg_memory_reclaim";
  summary = block (
      "per-memcg proactive reclaim via memory.reclaim, with reclaim opt"
      ∷ "ions replacing may_swap (android14-6.1 / 6.1.y), documented in t" ∷ "he cgroup v2 manual"
      ∷ []);
  commits =
      (block ("memory.reclaim series (android14-6.1; mainline proactive reclaim" ∷ ")" ∷ [])) ∷ [];
  files =
      (codes "include/linux/swap.h")
      ∷ (codes "mm/vmscan.c")
      ∷ (codes "mm/memcontrol.c")
      ∷ (codes "Documentation/admin-guide/cgroup-v2.rst")
      ∷ [];
  apply_fn = memcg_reclaim_apply;
  hard = false;
}

abbrev pub planned_memcg_reclaim : Planned
planned_memcg_reclaim = planned_as memcg_reclaim (edit_all memcg_reclaim_steps) (
    ActsAs-probed_apply (codes "mm/memcontrol.c")
      (block (
        "/* ABK stable_515_backport: per-memcg proactive reclaim (android"
        ∷ "14-6.1 memory.reclaim). */" ∷ []))
      memcg_reclaim_steps)

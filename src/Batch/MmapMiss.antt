-- ===== src/Batch/MmapMiss.antt =====
-- scripts/batch30_core_mmap_miss_races.py: the group over races of mmap_miss.
pub mod Blocks
use abk_5_15_backport.Prelude.{true, false, List, [], ◌∷◌, if◌then◌else◌, refl}
use abk_5_15_backport.Text.{codes, block, contains}
use abk_5_15_backport.Result.{Exec, pure}
use abk_5_15_backport.Context.{Context}
use abk_5_15_backport.Steps.{Step, Status, step, already_present}
use abk_5_15_backport.Groups.{PatchGroup}
use abk_5_15_backport.Groups.Guard.{apply_or_block}
use abk_5_15_backport.Groups.Acting.{edit_all}
use abk_5_15_backport.Groups.Probes.{is_absent, read_or_block, requiring}
use abk_5_15_backport.Groups.Probes.Acts.{
  acting_rules, ActsAs, ActsAs-pure, ActsAs-if, ActsAs-apply_or_block, ActsAs-read_or_block,
  ActsAs-requiring,
}
use abk_5_15_backport.Groups.Planned.{Planned, planned_as}
use abk_5_15_backport.Batch.MmapMiss.Blocks.{mmap_miss_async_old, mmap_miss_async_new}

-- `build_steps`
unfoldable pub readahead_mmap_miss_race_steps : List Step
readahead_mmap_miss_race_steps =
    step "mm/filemap.c" mmap_miss_async_old mmap_miss_async_new true ∷ []

abbrev pub readahead_mmap_miss_race_apply : Exec Context Status
readahead_mmap_miss_race_apply = apply_or_block readahead_mmap_miss_race_steps

abbrev pub readahead_mmap_miss_race : PatchGroup
readahead_mmap_miss_race = record {
  key = codes "readahead_mmap_miss_race";
  summary = block (
      "skip the mmap_miss decrement in do_async_mmap_readahead() while "
      ∷ "the page is locked, so concurrent faults on one page cannot driv"
      ∷ "e the per-file counter down repeatedly and keep mmap read-around"
      ∷ " enabled under memory pressure (e338d8353154, v6.18; no Cc: stab"
      ∷ "le, so it never reached 5.15.y)" ∷ []);
  commits = (codes "e338d8353154 (v6.18) -- concurrent-fault mmap_miss guard") ∷ [];
  files = (codes "mm/filemap.c") ∷ [];
  apply_fn = readahead_mmap_miss_race_apply;
  hard = false;
}

pub readahead_mmap_miss_race-ActsAs :
    ActsAs (edit_all readahead_mmap_miss_race_steps) readahead_mmap_miss_race_apply
readahead_mmap_miss_race-ActsAs = search (acting_rules, refl)

abbrev pub planned_readahead_mmap_miss_race : Planned
planned_readahead_mmap_miss_race =
    planned_as readahead_mmap_miss_race (edit_all readahead_mmap_miss_race_steps)
      readahead_mmap_miss_race-ActsAs

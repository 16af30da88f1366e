-- ===== src/Batch/RecompSkip.antt =====
-- scripts/batch47_core_zram_recomp_skip.py: the group that skips slots of the best priority.
pub mod Blocks
use abk_5_15_backport.Prelude.{true, false, List, [], ◌∷◌, if◌then◌else◌, refl}
use abk_5_15_backport.Text.{codes, block, contains}
use abk_5_15_backport.Result.{Exec, pure}
use abk_5_15_backport.Context.{Context}
use abk_5_15_backport.Steps.{Step, Status, step, already_present}
use abk_5_15_backport.Groups.{PatchGroup}
use abk_5_15_backport.Groups.Guard.{apply_or_block}
use abk_5_15_backport.Groups.Acting.{edit_all}
use abk_5_15_backport.Groups.Probes.{is_absent, read_or_block, requiring}
use abk_5_15_backport.Groups.Probes.Acts.{
  acting_rules, ActsAs, ActsAs-pure, ActsAs-if, ActsAs-apply_or_block, ActsAs-read_or_block,
  ActsAs-requiring,
}
use abk_5_15_backport.Groups.Planned.{Planned, planned_as}
use abk_5_15_backport.Batch.RecompSkip.Blocks.{
  recomp_skip_help_old, recomp_skip_help_new, recomp_skip_sync_old, recomp_skip_sync_new,
  recomp_skip_async_old, recomp_skip_async_new,
}

-- `build_steps`
unfoldable pub zram_recomp_best_prio_skip_steps : List Step
zram_recomp_best_prio_skip_steps =
    step "drivers/block/zram/zram_drv.c" recomp_skip_help_old recomp_skip_help_new true
    ∷ step "drivers/block/zram/zram_drv.c" recomp_skip_sync_old recomp_skip_sync_new true
    ∷ step "drivers/block/zram/zram_drv.c" recomp_skip_async_old recomp_skip_async_new true
    ∷ []

abbrev pub zram_recomp_best_prio_skip_apply : Exec Context Status
zram_recomp_best_prio_skip_apply =
    read_or_block is_absent (codes "drivers/block/zram/zram_drv.c") λ text.
      requiring text ((codes "static int zram_recompress(struct zram *zram, u32 index,") ∷ []) (
        requiring text ((codes "static ssize_t recompress_async_store(struct device *dev,") ∷ []) (
          requiring text ((codes "num_recomp_pages--;") ∷ [])
            (apply_or_block zram_recomp_best_prio_skip_steps)))

abbrev pub zram_recomp_best_prio_skip : PatchGroup
zram_recomp_best_prio_skip = record {
  key = codes "zram_recomp_best_prio_skip";
  summary = block (
      "a recompression sweep skips entries already at the best availabl"
      ∷ "e compressor priority, so a re-mark cannot spend the max_pages b"
      ∷ "udget on attempts that cannot improve anything" ∷ []);
  commits =
      (block (
        "Batch 47 design (plan.md): the companion's shorter mark clock re"
        ∷ "-marks already-recompressed pages, and the capped sweep never go" ∷ "t past them" ∷ []))
      ∷ [];
  files = (codes "drivers/block/zram/zram_drv.c") ∷ [];
  apply_fn = zram_recomp_best_prio_skip_apply;
  hard = false;
}

pub zram_recomp_best_prio_skip-ActsAs :
    ActsAs (edit_all zram_recomp_best_prio_skip_steps) zram_recomp_best_prio_skip_apply
zram_recomp_best_prio_skip-ActsAs = search (acting_rules, refl)

abbrev pub planned_zram_recomp_best_prio_skip : Planned
planned_zram_recomp_best_prio_skip =
    planned_as zram_recomp_best_prio_skip (edit_all zram_recomp_best_prio_skip_steps)
      zram_recomp_best_prio_skip-ActsAs

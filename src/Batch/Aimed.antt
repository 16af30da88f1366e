-- ===== src/Batch/Aimed.antt =====
-- The groups of the batch modules, scripts/batch*.py, and the files that they write.
use abk_5_15_backport.Prelude.{List, [], ◌∷◌, All}
use abk_5_15_backport.Text.{codes}
use abk_5_15_backport.Disk.{FilePath}
use abk_5_15_backport.Steps.{Step}
use abk_5_15_backport.Groups.{PatchGroup}
use abk_5_15_backport.Groups.Aims.{aiming_rules, Aims}
use abk_5_15_backport.Batch.ZramWriteback.{
  zram_wb_teardown, zram_wb_teardown_steps, zram_writeback_bounds, zram_writeback_bounds_steps,
  zram_wb_limit_align, zram_wb_limit_align_steps,
}
use abk_5_15_backport.Batch.MmapMiss.{readahead_mmap_miss_race, readahead_mmap_miss_race_steps}
use abk_5_15_backport.Batch.SlotPreserve.{zram_wb_slot_preserve, zram_wb_slot_preserve_steps}
use abk_5_15_backport.Batch.RecompSkip.{
  zram_recomp_best_prio_skip, zram_recomp_best_prio_skip_steps,
}
use abk_5_15_backport.Batch.WritebackPin.{
  kcompressd_writeback_pin, kcompressd_writeback_pin_apply, kcompressd_writeback_pin_steps,
}

abbrev pub batch_groups : List PatchGroup
batch_groups =
    zram_wb_teardown ∷ zram_writeback_bounds ∷ zram_wb_limit_align ∷ readahead_mmap_miss_race
    ∷ zram_wb_slot_preserve ∷ zram_recomp_best_prio_skip ∷ kcompressd_writeback_pin ∷ []

module _ (Target : FilePath → Type 0) (zram : Target (codes "drivers/block/zram/zram_drv.c"))
    (filemap : Target (codes "mm/filemap.c")) (page_io : Target (codes "mm/page_io.c")) where
  zram_wb_teardown_steps-All : All (λ (s : Step). Target s.rel) zram_wb_teardown_steps
  unfolding zram_wb_teardown_steps
  zram_wb_teardown_steps-All = (zram, (zram, (zram, tt)))

  zram_wb_teardown-Aims : Aims Target zram_wb_teardown.apply_fn
  zram_wb_teardown-Aims = search (aiming_rules, zram_wb_teardown_steps-All) depth 9

  zram_writeback_bounds_steps-All : All (λ (s : Step). Target s.rel) zram_writeback_bounds_steps
  unfolding zram_writeback_bounds_steps
  zram_writeback_bounds_steps-All = (zram, (zram, (zram, (zram, tt))))

  zram_writeback_bounds-Aims : Aims Target zram_writeback_bounds.apply_fn
  zram_writeback_bounds-Aims = search (aiming_rules, zram_writeback_bounds_steps-All) depth 9

  zram_wb_limit_align_steps-All : All (λ (s : Step). Target s.rel) zram_wb_limit_align_steps
  unfolding zram_wb_limit_align_steps
  zram_wb_limit_align_steps-All = (zram, tt)

  zram_wb_limit_align-Aims : Aims Target zram_wb_limit_align.apply_fn
  zram_wb_limit_align-Aims = search (aiming_rules, zram_wb_limit_align_steps-All) depth 9

  readahead_mmap_miss_race_steps-All :
      All (λ (s : Step). Target s.rel) readahead_mmap_miss_race_steps
  unfolding readahead_mmap_miss_race_steps
  readahead_mmap_miss_race_steps-All = (filemap, tt)

  readahead_mmap_miss_race-Aims : Aims Target readahead_mmap_miss_race.apply_fn
  readahead_mmap_miss_race-Aims = search (aiming_rules, readahead_mmap_miss_race_steps-All) depth 9

  zram_wb_slot_preserve_steps-All : All (λ (s : Step). Target s.rel) zram_wb_slot_preserve_steps
  unfolding zram_wb_slot_preserve_steps
  zram_wb_slot_preserve_steps-All = (zram, (zram, (zram, tt)))

  zram_wb_slot_preserve-Aims : Aims Target zram_wb_slot_preserve.apply_fn
  zram_wb_slot_preserve-Aims = search (aiming_rules, zram_wb_slot_preserve_steps-All) depth 9

  zram_recomp_best_prio_skip_steps-All :
      All (λ (s : Step). Target s.rel) zram_recomp_best_prio_skip_steps
  unfolding zram_recomp_best_prio_skip_steps
  zram_recomp_best_prio_skip_steps-All = (zram, (zram, (zram, tt)))

  zram_recomp_best_prio_skip-Aims : Aims Target zram_recomp_best_prio_skip.apply_fn
  zram_recomp_best_prio_skip-Aims =
      search (aiming_rules, zram_recomp_best_prio_skip_steps-All) depth 9

  kcompressd_writeback_pin_steps-All :
      All (λ (s : Step). Target s.rel) kcompressd_writeback_pin_steps
  unfolding kcompressd_writeback_pin_steps
  kcompressd_writeback_pin_steps-All = (page_io, (page_io, (page_io, tt)))

  kcompressd_writeback_pin-Aims : Aims Target kcompressd_writeback_pin.apply_fn
  unfolding kcompressd_writeback_pin_apply
  kcompressd_writeback_pin-Aims = search (aiming_rules, kcompressd_writeback_pin_steps-All) depth 9

  pub batch_groups-Aims : All (λ (g : PatchGroup). Aims Target g.apply_fn) batch_groups
  batch_groups-Aims = (
    zram_wb_teardown-Aims,
    (
      zram_writeback_bounds-Aims,
      (
        zram_wb_limit_align-Aims,
        (
          readahead_mmap_miss_race-Aims,
          (
            zram_wb_slot_preserve-Aims,
            (zram_recomp_best_prio_skip-Aims, (kcompressd_writeback_pin-Aims, tt)),
          ),
        ),
      ),
    ),
  )

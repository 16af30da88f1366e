-- ===== src/Batch/ZramWriteback.antt =====
-- scripts/batch14_core_zram_writeback.py: the writeback groups of zram.
pub mod Blocks
use abk_5_15_backport.Prelude.{true, false, List, [], ◌∷◌, if◌then◌else◌, refl}
use abk_5_15_backport.Text.{codes, block, contains}
use abk_5_15_backport.Result.{Exec, pure}
use abk_5_15_backport.Context.{Context}
use abk_5_15_backport.Steps.{Step, Status, step, already_present}
use abk_5_15_backport.Groups.{PatchGroup}
use abk_5_15_backport.Groups.Guard.{apply_or_block}
use abk_5_15_backport.Groups.Acting.{edit_all}
use abk_5_15_backport.Groups.Probes.{is_absent, read_or_block, requiring}
use abk_5_15_backport.Groups.Probes.Acts.{
  acting_rules, ActsAs, ActsAs-pure, ActsAs-if, ActsAs-apply_or_block, ActsAs-read_or_block,
  ActsAs-requiring,
}
use abk_5_15_backport.Groups.Planned.{Planned, planned_as}
use abk_5_15_backport.Batch.ZramWriteback.Blocks.{
  zram_writeback_a_meta_free, zram_writeback_a_meta_free_new, zram_writeback_a_vfree,
  zram_writeback_a_vfree_new, zram_writeback_a_remove, zram_writeback_a_remove_new,
  zram_writeback_b_decl, zram_writeback_b_decl_new, zram_writeback_b_parse,
  zram_writeback_b_parse_new, zram_writeback_b_postlock, zram_writeback_b_postlock_new,
  zram_writeback_b_loop_tail, zram_writeback_b_loop_tail_new, zram_writeback_c_limit_store,
  zram_writeback_c_limit_store_new,
}

-- `build_teardown_steps`
unfoldable pub zram_wb_teardown_steps : List Step
zram_wb_teardown_steps =
    step "drivers/block/zram/zram_drv.c" zram_writeback_a_meta_free zram_writeback_a_meta_free_new
      true
    ∷ step "drivers/block/zram/zram_drv.c" zram_writeback_a_vfree zram_writeback_a_vfree_new true
    ∷ step "drivers/block/zram/zram_drv.c" zram_writeback_a_remove zram_writeback_a_remove_new true
    ∷ []

abbrev pub zram_wb_teardown_apply : Exec Context Status
zram_wb_teardown_apply = read_or_block is_absent (codes "drivers/block/zram/zram_drv.c") λ text.
    requiring text
      ((codes "static void zram_meta_free(struct zram *zram, u64 disksize)")
        ∷ (codes "static void zram_reset_device(struct zram *zram)")
        ∷ [])
      (apply_or_block zram_wb_teardown_steps)

abbrev pub zram_wb_teardown : PatchGroup
zram_wb_teardown = record {
  key = codes "zram_wb_teardown";
  summary = block (
      "release a writeback backing device attached before disksize: ful"
      ∷ "l teardown of an uninitialised device (74363ec674cb, with the zs"
      ∷ "_destroy_pool(NULL) guard that makes it safe)" ∷ []);
  commits =
      (codes "74363ec674cb (v6.16, Cc: stable; Fixes: 013bf95a83ec)")
      ∷ (block (
          "series partner be48c412f6eb is a precondition (5.15.168+), not a"
          ∷ " step -- see the module docstring for why 5.15.167 is accepted w" ∷ "ithout it" ∷ []))
      ∷ [];
  files = (codes "drivers/block/zram/zram_drv.c") ∷ [];
  apply_fn = zram_wb_teardown_apply;
  hard = false;
}

pub zram_wb_teardown-ActsAs : ActsAs (edit_all zram_wb_teardown_steps) zram_wb_teardown_apply
zram_wb_teardown-ActsAs = search (acting_rules, refl)

abbrev pub planned_zram_wb_teardown : Planned
planned_zram_wb_teardown =
    planned_as zram_wb_teardown (edit_all zram_wb_teardown_steps) zram_wb_teardown-ActsAs

-- `build_writeback_bounds_steps`
unfoldable pub zram_writeback_bounds_steps : List Step
zram_writeback_bounds_steps =
    step "drivers/block/zram/zram_drv.c" zram_writeback_b_decl zram_writeback_b_decl_new true
    ∷ step "drivers/block/zram/zram_drv.c" zram_writeback_b_parse zram_writeback_b_parse_new true
    ∷ step "drivers/block/zram/zram_drv.c" zram_writeback_b_postlock zram_writeback_b_postlock_new
        true
    ∷ step "drivers/block/zram/zram_drv.c" zram_writeback_b_loop_tail zram_writeback_b_loop_tail_new
        true
    ∷ []

abbrev pub zram_writeback_bounds_apply : Exec Context Status
zram_writeback_bounds_apply =
    read_or_block is_absent (codes "drivers/block/zram/zram_drv.c")
      λ text. apply_or_block zram_writeback_bounds_steps

abbrev pub zram_writeback_bounds : PatchGroup
zram_writeback_bounds = record {
  key = codes "zram_writeback_bounds";
  summary = block (
      "derive the writeback scan bound (and the page_index range check)"
      ∷ " under init_lock so a racing reset cannot index past the table, "
      ∷ "plus cond_resched() in the sweep loop (894913e2d35c + 424d0e5828"
      ∷ "ad, re-anchored to the 5.15 init_lock shape)" ∷ []);
  commits =
      (codes "894913e2d35c (v7.3, Cc: stable; Fixes: a939888ec38b)")
      ∷ (codes "424d0e5828ad (v6.14)")
      ∷ [];
  files = (codes "drivers/block/zram/zram_drv.c") ∷ [];
  apply_fn = zram_writeback_bounds_apply;
  hard = false;
}

pub zram_writeback_bounds-ActsAs :
    ActsAs (edit_all zram_writeback_bounds_steps) zram_writeback_bounds_apply
zram_writeback_bounds-ActsAs = search (acting_rules, refl)

abbrev pub planned_zram_writeback_bounds : Planned
planned_zram_writeback_bounds =
    planned_as zram_writeback_bounds (edit_all zram_writeback_bounds_steps)
      zram_writeback_bounds-ActsAs

-- `build_limit_align_steps`
unfoldable pub zram_wb_limit_align_steps : List Step
zram_wb_limit_align_steps =
    step "drivers/block/zram/zram_drv.c" zram_writeback_c_limit_store
      zram_writeback_c_limit_store_new true
    ∷ []

abbrev pub zram_wb_limit_align_apply : Exec Context Status
zram_wb_limit_align_apply = read_or_block is_absent (codes "drivers/block/zram/zram_drv.c") λ text.
    requiring text ((codes "static ssize_t writeback_limit_store") ∷ [])
      (apply_or_block zram_wb_limit_align_steps)

abbrev pub zram_wb_limit_align : PatchGroup
zram_wb_limit_align = record {
  key = codes "zram_wb_limit_align";
  summary = block (
      "round the writeback budget down to a whole page so a PAGE_SIZE >"
      ∷ " 4KiB build cannot underflow bd_wb_limit and silently disable th"
      ∷ "e flash-wear cap (mainline writeback_limit_store() guard)" ∷ []);
  commits =
      (block ("mainline writeback_limit_store(); lineage bb416d18b850 -> 1d69a3" ∷ "f8ae77" ∷ []))
      ∷ [];
  files = (codes "drivers/block/zram/zram_drv.c") ∷ [];
  apply_fn = zram_wb_limit_align_apply;
  hard = false;
}

pub zram_wb_limit_align-ActsAs :
    ActsAs (edit_all zram_wb_limit_align_steps) zram_wb_limit_align_apply
zram_wb_limit_align-ActsAs = search (acting_rules, refl)

abbrev pub planned_zram_wb_limit_align : Planned
planned_zram_wb_limit_align =
    planned_as zram_wb_limit_align (edit_all zram_wb_limit_align_steps) zram_wb_limit_align-ActsAs

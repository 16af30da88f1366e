-- ===== src/Batch/WritebackPin.antt =====
-- scripts/batch71_core_kcompressd_wb_pin.py: the group that pins a page under writeback.
pub mod Blocks
use abk_5_15_backport.Prelude.{true, false, List, [], ◌∷◌, if◌then◌else◌, refl}
use abk_5_15_backport.Text.{codes, block, contains}
use abk_5_15_backport.Result.{Exec, pure}
use abk_5_15_backport.Context.{Context}
use abk_5_15_backport.Steps.{Step, Status, step, already_present}
use abk_5_15_backport.Groups.{PatchGroup}
use abk_5_15_backport.Groups.Guard.{apply_or_block}
use abk_5_15_backport.Groups.Acting.{edit_all}
use abk_5_15_backport.Groups.Probes.{is_absent, read_or_block, requiring}
use abk_5_15_backport.Groups.Probes.Acts.{
  acting_rules, ActsAs, ActsAs-pure, ActsAs-if, ActsAs-apply_or_block, ActsAs-read_or_block,
  ActsAs-requiring,
}
use abk_5_15_backport.Groups.Planned.{Planned, planned_as}
use abk_5_15_backport.Batch.WritebackPin.Blocks.{
  writeback_pin_wb_set_old, writeback_pin_wb_set_new, writeback_pin_wb_end_old,
  writeback_pin_wb_end_new, writeback_pin_wb_drop_old, writeback_pin_wb_drop_new,
}

-- `build_steps`
unfoldable pub kcompressd_writeback_pin_steps : List Step
kcompressd_writeback_pin_steps =
    step "mm/page_io.c" writeback_pin_wb_set_old writeback_pin_wb_set_new true
    ∷ step "mm/page_io.c" writeback_pin_wb_end_old writeback_pin_wb_end_new true
    ∷ step "mm/page_io.c" writeback_pin_wb_drop_old writeback_pin_wb_drop_new true
    ∷ []

unfoldable pub kcompressd_writeback_pin_apply : Exec Context Status
unfolding contains
kcompressd_writeback_pin_apply = read_or_block is_absent (codes "mm/page_io.c") λ text.
    if contains (codes "sailboat_kcompressd_wb_pin") text
    then pure already_present
    else (requiring text ((codes "abk_kcompressd_do_swapout") ∷ [])
        (apply_or_block kcompressd_writeback_pin_steps))

abbrev pub kcompressd_writeback_pin : PatchGroup
kcompressd_writeback_pin = record {
  key = codes "kcompressd_writeback_pin";
  summary = block (
      "abk_kcompressd_do_swapout()'s deferred swap-out keeps the page u"
      ∷ "nder PG_writeback across the FIFO (set at enqueue, ended once th"
      ∷ "e drain holds the lock), so try_to_free_swap() cannot free and r"
      ∷ "euse the swap slot mid-queue -- closing the silent swap data cor"
      ∷ "ruption that crashed apps (ART SIGSEGV) and corrupted /data unde" ∷ "r thrash" ∷ []);
  commits =
      (block (
        "device A/B verify_swap: kcompressd on = 10/614400 corrupt pages,"
        ∷ " off = 0/614400 (SM8550 vermeer 5.15.220)" ∷ []))
      ∷ [];
  files = (codes "mm/page_io.c") ∷ [];
  apply_fn = kcompressd_writeback_pin_apply;
  hard = false;
}

pub kcompressd_writeback_pin-ActsAs :
    ActsAs (edit_all kcompressd_writeback_pin_steps) kcompressd_writeback_pin_apply
unfolding kcompressd_writeback_pin_apply
kcompressd_writeback_pin-ActsAs = search (acting_rules, refl)

abbrev pub planned_kcompressd_writeback_pin : Planned
planned_kcompressd_writeback_pin =
    planned_as kcompressd_writeback_pin (edit_all kcompressd_writeback_pin_steps)
      kcompressd_writeback_pin-ActsAs

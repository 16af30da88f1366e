-- ===== src/Batch/SlotPreserve.antt =====
-- scripts/batch32_core_zram_wb_slot_preserve.py: the group that keeps a slot.
pub mod Blocks
use abk_5_15_backport.Prelude.{true, false, List, [], ◌∷◌, if◌then◌else◌, refl}
use abk_5_15_backport.Text.{codes, block, contains}
use abk_5_15_backport.Result.{Exec, pure}
use abk_5_15_backport.Context.{Context}
use abk_5_15_backport.Steps.{Step, Status, step, already_present}
use abk_5_15_backport.Groups.{PatchGroup}
use abk_5_15_backport.Groups.Guard.{apply_or_block}
use abk_5_15_backport.Groups.Acting.{edit_all}
use abk_5_15_backport.Groups.Probes.{is_absent, read_or_block, requiring}
use abk_5_15_backport.Groups.Probes.Acts.{
  acting_rules, ActsAs, ActsAs-pure, ActsAs-if, ActsAs-apply_or_block, ActsAs-read_or_block,
  ActsAs-requiring,
}
use abk_5_15_backport.Groups.Planned.{Planned, planned_as}
use abk_5_15_backport.Batch.SlotPreserve.Blocks.{
  slot_preserve_complete_decl_old, slot_preserve_complete_decl_new,
  slot_preserve_complete_release_old, slot_preserve_complete_release_new,
  slot_preserve_free_page_huge_old, slot_preserve_free_page_huge_new,
}

-- `build_steps`
unfoldable pub zram_wb_slot_preserve_steps : List Step
zram_wb_slot_preserve_steps =
    step "drivers/block/zram/zram_drv.c" slot_preserve_complete_decl_old
      slot_preserve_complete_decl_new true
    ∷ step "drivers/block/zram/zram_drv.c" slot_preserve_complete_release_old
        slot_preserve_complete_release_new true
    ∷ step "drivers/block/zram/zram_drv.c" slot_preserve_free_page_huge_old
        slot_preserve_free_page_huge_new true
    ∷ []

abbrev pub zram_wb_slot_preserve_apply : Exec Context Status
zram_wb_slot_preserve_apply =
    read_or_block is_absent (codes "drivers/block/zram/zram_drv.c") λ text.
      requiring text
        ((block (
            "static int zram_writeback_complete(struct zram *zram, struct zra" ∷ "m_wb_req *req)"
            ∷ []))
          ∷ [])
        (apply_or_block zram_wb_slot_preserve_steps)

abbrev pub zram_wb_slot_preserve : PatchGroup
zram_wb_slot_preserve = record {
  key = codes "zram_wb_slot_preserve";
  summary = block (
      "release a written-back slot without zram_free_page(): keep the m"
      ∷ "etadata the read and recompression paths need (obj_size, priorit"
      ∷ "y, ZRAM_HUGE, ZRAM_INCOMPRESSIBLE, ac_time) and stop decrementin"
      ∷ "g ->huge_pages twice, while leaving pages_stored unchanged" ∷ []);
  commits =
      (block (
        "b0377ee80429 (mm-hotfixes-stable, Fixes: d38fab605c667) -- do no"
        ∷ "t slot_free() written-back slots" ∷ []))
      ∷ (block
          ("37b72d525502 (ACK android16-6.12) -- the same fix against the AC" ∷ "K slot APIs" ∷ []))
      ∷ [];
  files = (codes "drivers/block/zram/zram_drv.c") ∷ [];
  apply_fn = zram_wb_slot_preserve_apply;
  hard = false;
}

pub zram_wb_slot_preserve-ActsAs :
    ActsAs (edit_all zram_wb_slot_preserve_steps) zram_wb_slot_preserve_apply
zram_wb_slot_preserve-ActsAs = search (acting_rules, refl)

abbrev pub planned_zram_wb_slot_preserve : Planned
planned_zram_wb_slot_preserve =
    planned_as zram_wb_slot_preserve (edit_all zram_wb_slot_preserve_steps)
      zram_wb_slot_preserve-ActsAs

-- ===== src/Core/TypeSelection.antt =====
-- The groups over the selection of a type and the waking of flushers, of scripts/abk_stable_core.py.
pub mod MglruReworkTypeSelection1
pub mod MglruReworkTypeSelection2
use abk_5_15_backport.Prelude.{true, false, List, [], ◌∷◌, ◌++◌}
use abk_5_15_backport.Text.{codes, block}
use abk_5_15_backport.Result.{Exec}
use abk_5_15_backport.Context.{Context}
use abk_5_15_backport.Steps.{Step, Status, step}
use abk_5_15_backport.Groups.{PatchGroup}
use abk_5_15_backport.Groups.Acting.{edit_all}
use abk_5_15_backport.Groups.Probes.{probed_apply}
use abk_5_15_backport.Groups.Probes.Acts.{ActsAs-probed_apply}
use abk_5_15_backport.Groups.Planned.{Planned, planned_as}
use abk_5_15_backport.Core.TypeSelection.MglruReworkTypeSelection1.{
  mglru_rework_type_selection_steps_1,
}
use abk_5_15_backport.Core.TypeSelection.MglruReworkTypeSelection2.{
  mglru_rework_type_selection_steps_2,
}

-- The steps of `_mglru_rework_type_selection_apply`.
unfoldable pub mglru_rework_type_selection_steps : List Step
mglru_rework_type_selection_steps =
    mglru_rework_type_selection_steps_1 ++ mglru_rework_type_selection_steps_2

abbrev pub mglru_rework_type_selection_apply : Exec Context Status
mglru_rework_type_selection_apply =
    probed_apply (codes "mm/vmscan.c")
      (block ("static int get_type_to_scan(struct lruvec *lruvec, int swappines" ∷ "s)" ∷ []))
      mglru_rework_type_selection_steps

abbrev pub mglru_rework_type_selection : PatchGroup
mglru_rework_type_selection = record {
  key = codes "mglru_rework_type_selection";
  summary = block (
      "MGLRU v4: type selection sums all tiers per type, tightens the t"
      ∷ "ier margin to 2:3, and reads full-protection history (v6.14 37a2"
      ∷ "60870f2c; needs mglru_rework_aging_feedback)" ∷ []);
  commits = (codes "37a260870f2c (v6.14)") ∷ [];
  files = (codes "mm/vmscan.c") ∷ [];
  apply_fn = mglru_rework_type_selection_apply;
  hard = false;
}

abbrev pub planned_mglru_rework_type_selection : Planned
planned_mglru_rework_type_selection =
    planned_as mglru_rework_type_selection (edit_all mglru_rework_type_selection_steps) (
      ActsAs-probed_apply (codes "mm/vmscan.c")
        (block ("static int get_type_to_scan(struct lruvec *lruvec, int swappines" ∷ "s)" ∷ []))
        mglru_rework_type_selection_steps)

-- The steps of `_mglru_wake_flushers_apply`.
unfoldable pub mglru_wake_flushers_steps : List Step
mglru_wake_flushers_steps =
    step "mm/vmscan.c"
      ("static bool sort_page(struct lruvec *lruvec, struct page *page, struct scan_control *sc,\n"
        ∷ "\t\t       int tier_idx)\n" ∷ "{\n" ∷ "\tbool success;\n" ∷ [])
      ("static bool sort_page(struct lruvec *lruvec, struct page *page, struct scan_control *sc,\n"
        ∷ "\t\t       int tier_idx)\n" ∷ "{\n" ∷ "\tbool success;\n" ∷ "\tbool dirty, writeback;\n"
        ∷ [])
      true
    ∷ step "mm/vmscan.c"
        ("\t/* waiting for writeback */\n" ∷ "\tif (PageLocked(page) || PageWriteback(page) ||\n"
          ∷ "\t    (type == LRU_GEN_FILE && PageDirty(page))) {\n" ∷ [])
        ("\tdirty = PageDirty(page);\n" ∷ "\twriteback = PageWriteback(page);\n"
          ∷ "\tif (type == LRU_GEN_FILE && dirty) {\n" ∷ "\t\tsc->nr.file_taken += delta;\n"
          ∷ "\t\tif (!writeback)\n" ∷ "\t\t\tsc->nr.unqueued_dirty += delta;\n" ∷ "\t}\n" ∷ "\n"
          ∷ "\t/* waiting for writeback */\n" ∷ "\tif (PageLocked(page) || writeback ||\n"
          ∷ "\t    (type == LRU_GEN_FILE && dirty)) {\n" ∷ [])
        true
    ∷ step "mm/vmscan.c"
        ("\t__count_memcg_events(memcg, item, isolated);\n"
          ∷ "\t__count_memcg_events(memcg, PGREFILL, sorted);\n"
          ∷ "\t__count_vm_events(PGSCAN_ANON + type, isolated);\n" ∷ [])
        ("\t__count_memcg_events(memcg, item, isolated);\n"
          ∷ "\t__count_memcg_events(memcg, PGREFILL, sorted);\n"
          ∷ "\t__count_vm_events(PGSCAN_ANON + type, isolated);\n" ∷ "\tif (type == LRU_GEN_FILE)\n"
          ∷ "\t\tsc->nr.file_taken += isolated;\n" ∷ [])
        true
    ∷ step "mm/vmscan.c"
        ("retry:\n" ∷ "\treclaimed = shrink_page_list(&list, pgdat, sc, &stat, false);\n"
          ∷ "\tsc->nr_reclaimed += reclaimed;\n" ∷ [])
        ("retry:\n" ∷ "\treclaimed = shrink_page_list(&list, pgdat, sc, &stat, false);\n"
          ∷ "\tsc->nr.unqueued_dirty += stat.nr_unqueued_dirty;\n"
          ∷ "\tsc->nr_reclaimed += reclaimed;\n" ∷ [])
        true
    ∷ step "mm/vmscan.c"
        ("\t\tcond_resched();\n" ∷ "\t}\n" ∷ "\n"
          ∷ "\t/* see the comment in lru_gen_age_node() */\n" ∷ [])
        ("\t\tcond_resched();\n" ∷ "\t}\n" ∷ "\n" ∷ "\t/*\n"
          ∷ "\t * If too many file cache in the coldest generation can't be evicted\n"
          ∷ "\t * due to being dirty, wake up the flusher.\n" ∷ "\t */\n"
          ∷ "\tif (sc->nr.unqueued_dirty && sc->nr.unqueued_dirty == sc->nr.file_taken)\n"
          ∷ "\t\twakeup_flusher_threads(WB_REASON_VMSCAN);\n" ∷ "\n"
          ∷ "\t/* see the comment in lru_gen_age_node() */\n" ∷ [])
        true
    ∷ []

abbrev pub mglru_wake_flushers_apply : Exec Context Status
mglru_wake_flushers_apply =
    probed_apply (codes "mm/vmscan.c")
      (block (" * If too many file cache in the coldest generation can't be evi" ∷ "cted" ∷ []))
      mglru_wake_flushers_steps

abbrev pub mglru_wake_flushers : PatchGroup
mglru_wake_flushers = record {
  key = codes "mglru_wake_flushers";
  summary = block (
      "MGLRU: wake flushers when every file page taken in a reclaim cyc"
      ∷ "le is unqueued dirty, keeping dirty-tail cgroups from memcg OOM " ∷ "(v6.13 1bc542c6a0d1)"
      ∷ []);
  commits = (codes "1bc542c6a0d1 (v6.13)") ∷ [];
  files = (codes "mm/vmscan.c") ∷ [];
  apply_fn = mglru_wake_flushers_apply;
  hard = false;
}

abbrev pub planned_mglru_wake_flushers : Planned
planned_mglru_wake_flushers = planned_as mglru_wake_flushers (edit_all mglru_wake_flushers_steps) (
    ActsAs-probed_apply (codes "mm/vmscan.c")
      (block (" * If too many file cache in the coldest generation can't be evi" ∷ "cted" ∷ []))
      mglru_wake_flushers_steps)

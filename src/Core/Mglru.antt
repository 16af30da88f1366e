-- ===== src/Core/Mglru.antt =====
-- Multi-generational LRU groups of scripts/abk_stable_core.py.
use abk_5_15_backport.Prelude.{true, List, [], ◌∷◌}
use abk_5_15_backport.Text.{codes, block}
use abk_5_15_backport.Steps.{Step, step}
use abk_5_15_backport.Groups.Guard.{StepSpec}

-- The steps of `_mglru_clean_workingset_apply`.
unfoldable pub mglru_clean_workingset_steps : List Step
mglru_clean_workingset_steps =
    step "mm/workingset.c" ("\tbool workingset;\n" ∷ "\tint memcgid;\n" ∷ [])
      ("\tbool workingset;\n" ∷ "\tint memcgid;\n" ∷ "\n"
        ∷ "\tVM_BUG_ON_PAGE(!PageLocked(page), page);\n" ∷ [])
      true
    ∷ []

unfoldable pub mglru_clean_workingset : StepSpec
mglru_clean_workingset = record {
  key = codes "mglru_clean_workingset";
  summary = block (
      "MGLRU v4: workingset_refault() lock assertion covers the MGLRU p"
      ∷ "ath too (v6.14 9cbfd1c3c83b; the test_recent restructure has no "
      ∷ "6.1-shape counterpart)" ∷ []);
  commits = (codes "9cbfd1c3c83b (v6.14)") ∷ [];
  files = (codes "mm/workingset.c") ∷ [];
  steps = mglru_clean_workingset_steps;
}

-- The steps of `_mglru_optimize_deactivation_apply`.
unfoldable pub mglru_optimize_deactivation_steps : List Step
mglru_optimize_deactivation_steps =
    step "mm/swap.c"
      ("#else\n" ∷ "static void page_inc_refs(struct page *page)\n" ∷ "{\n" ∷ "}\n"
        ∷ "#endif /* CONFIG_LRU_GEN */\n" ∷ [])
      ("#else\n" ∷ "static void page_inc_refs(struct page *page)\n" ∷ "{\n" ∷ "}\n"
        ∷ "#endif /* CONFIG_LRU_GEN */\n" ∷ "\n" ∷ "#ifdef CONFIG_LRU_GEN\n"
        ∷ "/* ABK stable_515_backport: v6.14 cc8ec7be78ff, pagevec shape */\n"
        ∷ "static bool lru_gen_clear_refs(struct page *page)\n" ∷ "{\n" ∷ "\tint gen;\n"
        ∷ "\tint type;\n" ∷ "\tstruct lruvec *lruvec;\n" ∷ "\n" ∷ "\tgen = page_lru_gen(page);\n"
        ∷ "\tif (gen < 0)\n" ∷ "\t\treturn true;\n" ∷ "\n" ∷ "\ttype = page_is_file_lru(page);\n"
        ∷ "\t/*\n" ∷ "\t * LRU_REFS_FLAGS is a mm/vmscan.c file-local define on this tree\n"
        ∷ "\t * (BIT(PG_referenced) | BIT(PG_workingset)); spell it out here\n"
        ∷ "\t * because mm/swap.c cannot see it.\n" ∷ "\t */\n"
        ∷ "\tset_mask_bits(&page->flags, LRU_REFS_MASK | BIT(PG_referenced) |\n"
        ∷ "\t\t\t      BIT(PG_workingset), 0);\n" ∷ "\n"
        ∷ "\tlruvec = mem_cgroup_page_lruvec(page);\n"
        ∷ "\t/* whether can do without shuffling under the LRU lock */\n"
        ∷ "\treturn gen == lru_gen_from_seq(READ_ONCE(lruvec->lrugen.min_seq[type]));\n" ∷ "}\n"
        ∷ "#else\n" ∷ "static bool lru_gen_clear_refs(struct page *page)\n" ∷ "{\n"
        ∷ "\treturn false;\n" ∷ "}\n" ∷ "#endif /* CONFIG_LRU_GEN */\n" ∷ [])
      true
    ∷ step "mm/swap.c"
        ("static void lru_deactivate_file_fn(struct page *page, struct lruvec *lruvec)\n" ∷ "{\n"
          ∷ "\tbool active = PageActive(page);\n" ∷ [])
        ("static void lru_deactivate_file_fn(struct page *page, struct lruvec *lruvec)\n" ∷ "{\n"
          ∷ "\tbool active = PageActive(page) || lru_gen_enabled();\n" ∷ [])
        true
    ∷ step "mm/swap.c"
        ("\t\tdel_page_from_lru_list(page, lruvec);\n" ∷ "\t\tClearPageActive(page);\n"
          ∷ "\t\tClearPageReferenced(page);\n" ∷ "\t\t/*\n"
          ∷ "\t\t * Lazyfree pages are clean anonymous pages.  They have\n" ∷ [])
        ("\t\tdel_page_from_lru_list(page, lruvec);\n" ∷ "\t\tClearPageActive(page);\n"
          ∷ "\t\tif (lru_gen_enabled())\n" ∷ "\t\t\tlru_gen_clear_refs(page);\n" ∷ "\t\telse\n"
          ∷ "\t\t\tClearPageReferenced(page);\n" ∷ "\t\t/*\n"
          ∷ "\t\t * Lazyfree pages are clean anonymous pages.  They have\n" ∷ [])
        true
    ∷ step "mm/swap.c"
        ("\tif (PageUnevictable(page))\n" ∷ "\t\treturn;\n" ∷ "\n"
          ∷ "\tif (likely(get_page_unless_zero(page))) {\n" ∷ "\t\tstruct pagevec *pvec;\n" ∷ [])
        ("\tif (PageUnevictable(page))\n" ∷ "\t\treturn;\n" ∷ "\n"
          ∷ "\tif (lru_gen_enabled() && lru_gen_clear_refs(page))\n" ∷ "\t\treturn;\n" ∷ "\n"
          ∷ "\tif (likely(get_page_unless_zero(page))) {\n" ∷ "\t\tstruct pagevec *pvec;\n" ∷ [])
        true
    ∷ step "mm/swap.c"
        ("void deactivate_page(struct page *page)\n" ∷ "{\n"
          ∷ "\tif (PageLRU(page) && !PageUnevictable(page) &&\n"
          ∷ "\t    (PageActive(page) || lru_gen_enabled())) {\n" ∷ "\t\tstruct pagevec *pvec;\n"
          ∷ "\n" ∷ "\t\tlocal_lock(&lru_pvecs.lock);\n"
          ∷ "\t\tpvec = this_cpu_ptr(&lru_pvecs.lru_deactivate);\n" ∷ [])
        ("void deactivate_page(struct page *page)\n" ∷ "{\n" ∷ "\tstruct pagevec *pvec;\n" ∷ "\n"
          ∷ "\tif (PageLRU(page) && !PageUnevictable(page)) {\n"
          ∷ "\t\tif (lru_gen_enabled() ? lru_gen_clear_refs(page)\n"
          ∷ "\t\t\t\t\t      : !PageActive(page))\n" ∷ "\t\t\treturn;\n" ∷ "\n"
          ∷ "\t\tlocal_lock(&lru_pvecs.lock);\n"
          ∷ "\t\tpvec = this_cpu_ptr(&lru_pvecs.lru_deactivate);\n" ∷ [])
        true
    ∷ []

unfoldable pub mglru_optimize_deactivation : StepSpec
mglru_optimize_deactivation = record {
  key = codes "mglru_optimize_deactivation";
  summary = block (
      "MGLRU v4: deactivation clears LRU_REFS in place and skips the LR"
      ∷ "U shuffle when the page is in the oldest generation (v6.14 cc8ec"
      ∷ "7be78ff, re-authored onto pagevec drain)" ∷ []);
  commits = (codes "cc8ec7be78ff (v6.14)") ∷ [];
  files = (codes "mm/swap.c") ∷ [];
  steps = mglru_optimize_deactivation_steps;
}

-- The steps of `_mglru_rework_refault_detection_apply`.
unfoldable pub mglru_rework_refault_detection_steps : List Step
mglru_rework_refault_detection_steps =
    step "mm/workingset.c"
      ("\tint memcg_id;\n" ∷ "\tbool workingset;\n" ∷ "\tunsigned long token;\n"
        ∷ "\tunsigned long min_seq;\n" ∷ [])
      ("\tint memcg_id;\n" ∷ "\tbool workingset;\n" ∷ "\tunsigned long token;\n"
        ∷ "\tunsigned long seq;\n" ∷ "\tunsigned long diff;\n" ∷ [])
      true
    ∷ step "mm/workingset.c"
        ("\tmod_lruvec_state(lruvec, WORKINGSET_REFAULT_BASE + type, delta);\n" ∷ "\n"
          ∷ "\tmin_seq = READ_ONCE(lrugen->min_seq[type]);\n"
          ∷ "\tif ((token >> LRU_REFS_WIDTH) != (min_seq & (EVICTION_MASK >> LRU_REFS_WIDTH)))\n"
          ∷ "\t\tgoto unlock;\n" ∷ "\n" ∷ "\thist = lru_hist_from_seq(min_seq);\n" ∷ [])
        ("\tmod_lruvec_state(lruvec, WORKINGSET_REFAULT_BASE + type, delta);\n" ∷ "\n"
          ∷ "\t/* ABK stable_515_backport: v6.14 b1a71694fb00, abs_diff() is 6.9+ */\n"
          ∷ "\tseq = READ_ONCE(lrugen->max_seq) & (EVICTION_MASK >> LRU_REFS_WIDTH);\n"
          ∷ "\tdiff = seq > (token >> LRU_REFS_WIDTH) ?\n"
          ∷ "\t       seq - (token >> LRU_REFS_WIDTH) : (token >> LRU_REFS_WIDTH) - seq;\n"
          ∷ "\tif (diff >= MAX_NR_GENS)\n" ∷ "\t\tgoto unlock;\n" ∷ "\n"
          ∷ "\thist = lru_hist_from_seq(READ_ONCE(lrugen->min_seq[type]));\n" ∷ [])
        true
    ∷ []

unfoldable pub mglru_rework_refault_detection : StepSpec
mglru_rework_refault_detection = record {
  key = codes "mglru_rework_refault_detection";
  summary = block (
      "MGLRU v4: refault recency accepts any eviction within the last M"
      ∷ "AX_NR_GENS generations instead of an exact min_seq match (v6.14 "
      ∷ "b1a71694fb00; the TPC-C -57% workingset_refault_file result)" ∷ []);
  commits = (codes "b1a71694fb00 (v6.14)") ∷ [];
  files = (codes "mm/workingset.c") ∷ [];
  steps = mglru_rework_refault_detection_steps;
}

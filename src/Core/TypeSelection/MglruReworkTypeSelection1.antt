-- ===== src/Core/TypeSelection/MglruReworkTypeSelection1.antt =====
-- Steps 1 of 2 of `_mglru_rework_type_selection_apply` of scripts/abk_stable_core.py.
use abk_5_15_backport.Prelude.{true, List, [], ◌∷◌}
use abk_5_15_backport.Steps.{Step, step}

unfoldable pub mglru_rework_type_selection_steps_1 : List Step
mglru_rework_type_selection_steps_1 =
    step "mm/vmscan.c"
      ("static void read_ctrl_pos(struct lruvec *lruvec, int type, int tier, int gain,\n"
        ∷ "\t\t\t  struct ctrl_pos *pos)\n" ∷ "{\n"
        ∷ "\tstruct lru_gen_struct *lrugen = &lruvec->lrugen;\n"
        ∷ "\tint hist = lru_hist_from_seq(lrugen->min_seq[type]);\n" ∷ "\n"
        ∷ "\tpos->refaulted = lrugen->avg_refaulted[type][tier] +\n"
        ∷ "\t\t\t atomic_long_read(&lrugen->refaulted[hist][type][tier]);\n"
        ∷ "\tpos->total = lrugen->avg_total[type][tier] +\n"
        ∷ "\t\t     atomic_long_read(&lrugen->evicted[hist][type][tier]);\n" ∷ "\tif (tier)\n"
        ∷ "\t\tpos->total += lrugen->protected[hist][type][tier - 1];\n" ∷ "\tpos->gain = gain;\n"
        ∷ "}\n" ∷ [])
      ("static void read_ctrl_pos(struct lruvec *lruvec, int type, int tier, int gain,\n"
        ∷ "\t\t\t  struct ctrl_pos *pos)\n" ∷ "{\n" ∷ "\tint i;\n"
        ∷ "\tstruct lru_gen_struct *lrugen = &lruvec->lrugen;\n"
        ∷ "\tint hist = lru_hist_from_seq(lrugen->min_seq[type]);\n" ∷ "\n"
        ∷ "\tpos->gain = gain;\n" ∷ "\tpos->refaulted = pos->total = 0;\n" ∷ "\n"
        ∷ "\tfor (i = tier % MAX_NR_TIERS; i <= min_t(typeof(tier), tier, MAX_NR_TIERS - 1); i++) {\n"
        ∷ "\t\tpos->refaulted += lrugen->avg_refaulted[type][i] +\n"
        ∷ "\t\t\t\t  atomic_long_read(&lrugen->refaulted[hist][type][i]);\n"
        ∷ "\t\tpos->total += lrugen->avg_total[type][i] +\n"
        ∷ "\t\t\t      lrugen->protected[hist][type][i] +\n"
        ∷ "\t\t\t      atomic_long_read(&lrugen->evicted[hist][type][i]);\n" ∷ "\t}\n" ∷ "}\n" ∷ [])
      true
    ∷ step "mm/vmscan.c"
        ("\t/*\n" ∷ "\t * To leave a margin for fluctuations, use a larger gain factor (1:2).\n"
          ∷ "\t * This value is chosen because any other tier would have at least twice\n"
          ∷ "\t * as many refaults as the first tier.\n" ∷ "\t */\n"
          ∷ "\tread_ctrl_pos(lruvec, type, 0, 1, &sp);\n"
          ∷ "\tfor (tier = 1; tier < MAX_NR_TIERS; tier++) {\n"
          ∷ "\t\tread_ctrl_pos(lruvec, type, tier, 2, &pv);\n"
          ∷ "\t\tif (!positive_ctrl_err(&sp, &pv))\n" ∷ "\t\t\tbreak;\n" ∷ "\t}\n" ∷ [])
        ("\t/*\n" ∷ "\t * To leave a margin for fluctuations, use a larger gain factor (2:3).\n"
          ∷ "\t * This value is chosen because any other tier would have at least twice\n"
          ∷ "\t * as many refaults as the first tier.\n" ∷ "\t */\n"
          ∷ "\tread_ctrl_pos(lruvec, type, 0, 2, &sp);\n"
          ∷ "\tfor (tier = 1; tier < MAX_NR_TIERS; tier++) {\n"
          ∷ "\t\tread_ctrl_pos(lruvec, type, tier, 3, &pv);\n"
          ∷ "\t\tif (!positive_ctrl_err(&sp, &pv))\n" ∷ "\t\t\tbreak;\n" ∷ "\t}\n" ∷ [])
        true
    ∷ step "mm/vmscan.c"
        ("static int get_type_to_scan(struct lruvec *lruvec, int swappiness, int *tier_idx)\n"
          ∷ "{\n" ∷ "\tint type, tier;\n" ∷ "\tstruct ctrl_pos sp, pv;\n"
          ∷ "\tint gain[ANON_AND_FILE] = { swappiness, 200 - swappiness };\n" ∷ "\n" ∷ "\t/*\n"
          ∷ "\t * Compare the first tier of anon with that of file to determine which\n"
          ∷ "\t * type to scan. Also need to compare other tiers of the selected type\n"
          ∷ "\t * with the first tier of the other type to determine the last tier (of\n"
          ∷ "\t * the selected type) to evict.\n" ∷ "\t */\n"
          ∷ "\tread_ctrl_pos(lruvec, LRU_GEN_ANON, 0, gain[LRU_GEN_ANON], &sp);\n"
          ∷ "\tread_ctrl_pos(lruvec, LRU_GEN_FILE, 0, gain[LRU_GEN_FILE], &pv);\n"
          ∷ "\ttype = positive_ctrl_err(&sp, &pv);\n" ∷ "\n"
          ∷ "\tread_ctrl_pos(lruvec, !type, 0, gain[!type], &sp);\n"
          ∷ "\tfor (tier = 1; tier < MAX_NR_TIERS; tier++) {\n"
          ∷ "\t\tread_ctrl_pos(lruvec, type, tier, gain[type], &pv);\n"
          ∷ "\t\tif (!positive_ctrl_err(&sp, &pv))\n" ∷ "\t\t\tbreak;\n" ∷ "\t}\n" ∷ "\n"
          ∷ "\t*tier_idx = tier - 1;\n" ∷ "\n" ∷ "\treturn type;\n" ∷ "}\n" ∷ [])
        ("static int get_type_to_scan(struct lruvec *lruvec, int swappiness)\n" ∷ "{\n"
          ∷ "\tstruct ctrl_pos sp, pv;\n" ∷ "\n" ∷ "\tif (swappiness <= MIN_SWAPPINESS + 1)\n"
          ∷ "\t\treturn LRU_GEN_FILE;\n" ∷ "\n" ∷ "\tif (swappiness >= MAX_SWAPPINESS)\n"
          ∷ "\t\treturn LRU_GEN_ANON;\n" ∷ "\n" ∷ "\t/*\n"
          ∷ "\t * Compare the sum of all tiers of anon with that of file to determine\n"
          ∷ "\t * which type to scan.\n" ∷ "\t */\n"
          ∷ "\tread_ctrl_pos(lruvec, LRU_GEN_ANON, MAX_NR_TIERS, swappiness, &sp);\n"
          ∷ "\tread_ctrl_pos(lruvec, LRU_GEN_FILE, MAX_NR_TIERS, MAX_SWAPPINESS - swappiness, &pv);\n"
          ∷ "\n" ∷ "\treturn positive_ctrl_err(&sp, &pv);\n" ∷ "}\n" ∷ [])
        true
    ∷ []

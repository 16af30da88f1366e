-- ===== src/Core/TypeSelection/MglruReworkTypeSelection2.antt =====
-- Steps 2 of 2 of `_mglru_rework_type_selection_apply` of scripts/abk_stable_core.py.
use abk_5_15_backport.Prelude.{true, List, [], ◌∷◌}
use abk_5_15_backport.Steps.{Step, step}

unfoldable pub mglru_rework_type_selection_steps_2 : List Step
mglru_rework_type_selection_steps_2 =
    step "mm/vmscan.c"
      ("\tint i;\n" ∷ "\tint type;\n" ∷ "\tint scanned;\n" ∷ "\tint tier = -1;\n"
        ∷ "\tDEFINE_MIN_SEQ(lruvec);\n" ∷ "\n" ∷ "\t/*\n"
        ∷ "\t * Try to make the obvious choice first. When anon and file are both\n"
        ∷ "\t * available from the same generation, interpret swappiness 1 as file\n"
        ∷ "\t * first and 200 as anon first.\n" ∷ "\t */\n" ∷ "\tif (!swappiness)\n"
        ∷ "\t\ttype = LRU_GEN_FILE;\n"
        ∷ "\telse if (min_seq[LRU_GEN_ANON] < min_seq[LRU_GEN_FILE])\n"
        ∷ "\t\ttype = LRU_GEN_ANON;\n" ∷ "\telse if (swappiness == 1)\n"
        ∷ "\t\ttype = LRU_GEN_FILE;\n" ∷ "\telse if (swappiness == 200)\n"
        ∷ "\t\ttype = LRU_GEN_ANON;\n" ∷ "\telse\n"
        ∷ "\t\ttype = get_type_to_scan(lruvec, swappiness, &tier);\n" ∷ "\n"
        ∷ "\tfor (i = !swappiness; i < ANON_AND_FILE; i++) {\n" ∷ "\t\tif (tier < 0)\n"
        ∷ "\t\t\ttier = get_tier_idx(lruvec, type);\n" ∷ "\n"
        ∷ "\t\tscanned = scan_pages(lruvec, sc, type, tier, list);\n" ∷ "\t\tif (scanned)\n"
        ∷ "\t\t\tbreak;\n" ∷ "\n" ∷ "\t\ttype = !type;\n" ∷ "\t\ttier = -1;\n" ∷ "\t}\n" ∷ "\n"
        ∷ "\t*type_scanned = type;\n" ∷ "\n" ∷ "\treturn scanned;\n" ∷ "}\n" ∷ [])
      ("\tint i;\n" ∷ "\tint type = get_type_to_scan(lruvec, swappiness);\n" ∷ "\n"
        ∷ "\tfor_each_evictable_type(i, swappiness) {\n" ∷ "\t\tint scanned;\n"
        ∷ "\t\tint tier = get_tier_idx(lruvec, type);\n" ∷ "\n" ∷ "\t\t*type_scanned = type;\n"
        ∷ "\n" ∷ "\t\tscanned = scan_pages(lruvec, sc, type, tier, list);\n" ∷ "\t\tif (scanned)\n"
        ∷ "\t\t\treturn scanned;\n" ∷ "\n" ∷ "\t\ttype = !type;\n" ∷ "\t}\n" ∷ "\n"
        ∷ "\treturn 0;\n" ∷ "}\n" ∷ [])
      true
    ∷ []

-- ===== src/Batch/RecompSkip/Blocks.antt =====
-- The text blocks of scripts/batch47_core_zram_recomp_skip.py.
use abk_5_15_backport.Prelude.{String, List, [], ◌∷◌}

abbrev pub recomp_skip_help_old : List String
recomp_skip_help_old = " * @offset: byte offset within physical block\n" ∷ " */\n" ∷ []

abbrev pub recomp_skip_help_new : List String
recomp_skip_help_new =
    " * @offset: byte offset within physical block\n" ∷ " */\n" ∷ "\n"
    ∷ "#ifdef CONFIG_ZRAM_MULTI_COMP\n" ∷ "/*\n"
    ∷ " * sailboat_zram_recomp_skip: would a recompression pass gain anything on\n"
    ∷ " * this slot?  True when no compressor above the slot's current priority can\n"
    ∷ " * take it -- the same condition the priority loop inside\n"
    ∷ " * zram_recompress() rejects on.  Asked in front of the attempt so the\n"
    ∷ " * caller does not pay for a slot lock, a decompress and a ZRAM_IDLE clear to\n"
    ∷ " * reach that rejection, and so the max_pages budget (Batch 24) is not spent\n"
    ∷ " * on entries that cannot improve.\n" ∷ " *\n"
    ∷ " * This matters because a re-mark re-hands every page whose age was never\n"
    ∷ " * refreshed, and zram_recompress() never refreshes it: it reads through\n"
    ∷ " * zram_read_from_zspool() rather than zram_accessed().  A page already at the\n"
    ∷ " * top priority is thus eligible on every mark, forever, and without this the\n"
    ∷ " * capped sweep spends its whole budget on those before reaching new cold\n" ∷ " * pages.\n"
    ∷ " */\n" ∷ "static bool abk_zram_recompress_pointless(struct zram *zram,\n"
    ∷ "\t\t\t\t\t unsigned long index, u32 prio, u32 prio_max)\n" ∷ "{\n"
    ∷ "\tu32 abk_cur = zram_get_priority(zram, index);\n" ∷ "\n"
    ∷ "\tfor (; prio < prio_max; prio++)\n" ∷ "\t\tif (prio > abk_cur && zram->comps[prio])\n"
    ∷ "\t\t\treturn false;\n" ∷ "\treturn true;\n" ∷ "}\n" ∷ "#endif\n" ∷ []

abbrev pub recomp_skip_sync_old : List String
recomp_skip_sync_old =
    "\t\tif (zram_test_flag(zram, index, ZRAM_WB) ||\n"
    ∷ "\t\t    zram_test_flag(zram, index, ZRAM_UNDER_WB) ||\n"
    ∷ "\t\t    zram_test_flag(zram, index, ZRAM_SAME) ||\n"
    ∷ "\t\t    zram_test_flag(zram, index, ZRAM_INCOMPRESSIBLE))\n" ∷ "\t\t\tgoto next;\n" ∷ "\n"
    ∷ "\t\tnum_recomp_pages--;\n"
    ∷ "\t\terr = zram_recompress(zram, index, page, threshold, prio, prio_max);\n" ∷ []

abbrev pub recomp_skip_sync_new : List String
recomp_skip_sync_new =
    "\t\tif (zram_test_flag(zram, index, ZRAM_WB) ||\n"
    ∷ "\t\t    zram_test_flag(zram, index, ZRAM_UNDER_WB) ||\n"
    ∷ "\t\t    zram_test_flag(zram, index, ZRAM_SAME) ||\n"
    ∷ "\t\t    zram_test_flag(zram, index, ZRAM_INCOMPRESSIBLE))\n" ∷ "\t\t\tgoto next;\n" ∷ "\n"
    ∷ "\t\t/* ABK stable_515_backport: Batch 47.  Bail out before the attempt\n"
    ∷ "\t\t * -- and before the cap decrement -- when nothing above this slot's\n"
    ∷ "\t\t * priority could compress it further.  A re-mark hands these back on\n"
    ∷ "\t\t * every mark, so this is what keeps the sweep reaching new pages.\n" ∷ "\t\t */\n"
    ∷ "\t\tif (abk_zram_recompress_pointless(zram, index, prio, prio_max))\n" ∷ "\t\t\tgoto next;\n"
    ∷ "\n" ∷ "\t\tnum_recomp_pages--;\n"
    ∷ "\t\terr = zram_recompress(zram, index, page, threshold, prio, prio_max);\n" ∷ []

abbrev pub recomp_skip_async_old : List String
recomp_skip_async_old =
    "\t\tif (zram_test_flag(zram, index, ZRAM_WB) ||\n"
    ∷ "\t\t\tzram_test_flag(zram, index, ZRAM_UNDER_WB) ||\n"
    ∷ "\t\t\tzram_test_flag(zram, index, ZRAM_SAME) ||\n"
    ∷ "\t\t\tzram_test_flag(zram, index, ZRAM_INCOMPRESSIBLE))\n" ∷ "\t\t\tgoto abk_async_next;\n"
    ∷ "\n" ∷ "\t\tcandidate = true;\n" ∷ []

abbrev pub recomp_skip_async_new : List String
recomp_skip_async_new =
    "\t\tif (zram_test_flag(zram, index, ZRAM_WB) ||\n"
    ∷ "\t\t\tzram_test_flag(zram, index, ZRAM_UNDER_WB) ||\n"
    ∷ "\t\t\tzram_test_flag(zram, index, ZRAM_SAME) ||\n"
    ∷ "\t\t\tzram_test_flag(zram, index, ZRAM_INCOMPRESSIBLE))\n" ∷ "\t\t\tgoto abk_async_next;\n"
    ∷ "\n" ∷ "\t\t/* ABK stable_515_backport: Batch 47.  Same bail-out as the synchronous\n"
    ∷ "\t\t * node, ahead of `candidate = true` so no job is queued and the\n"
    ∷ "\t\t * max_pages budget counts only entries that can still improve.\n" ∷ "\t\t */\n"
    ∷ "\t\tif (abk_zram_recompress_pointless(zram, index, prio, prio_max))\n"
    ∷ "\t\t\tgoto abk_async_next;\n" ∷ "\n" ∷ "\t\tcandidate = true;\n" ∷ []

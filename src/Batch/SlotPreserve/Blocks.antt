-- ===== src/Batch/SlotPreserve/Blocks.antt =====
-- The text blocks of scripts/batch32_core_zram_wb_slot_preserve.py.
use abk_5_15_backport.Prelude.{String, List, [], ◌∷◌}

abbrev pub slot_preserve_complete_decl_old : List String
slot_preserve_complete_decl_old =
    "static int zram_writeback_complete(struct zram *zram, struct zram_wb_req *req)\n" ∷ "{\n"
    ∷ "\tu32 index = req->index;\n" ∷ "\tu32 size = 0, prio = 0;\n" ∷ "\tbool huge = false;\n"
    ∷ "\tint err;\n" ∷ []

abbrev pub slot_preserve_complete_decl_new : List String
slot_preserve_complete_decl_new =
    "static int zram_writeback_complete(struct zram *zram, struct zram_wb_req *req)\n" ∷ "{\n"
    ∷ "\tu32 index = req->index;\n" ∷ "\tint err;\n" ∷ []

abbrev pub slot_preserve_complete_release_old : List String
slot_preserve_complete_release_old =
    "\tif (zram->wb_compressed) {\n" ∷ "\t\t/*\n"
    ∷ "\t\t * ABK stable_515_backport: d38fab605c66.  The backing device holds\n"
    ∷ "\t\t * the raw object, so the slot has to keep the metadata the read\n"
    ∷ "\t\t * path needs to decompress it: zram_free_page() clears all of it.\n" ∷ "\t\t */\n"
    ∷ "\t\tsize = zram_get_obj_size(zram, index);\n"
    ∷ "\t\tprio = zram_get_priority(zram, index);\n"
    ∷ "\t\thuge = zram_test_flag(zram, index, ZRAM_HUGE);\n" ∷ "\t}\n" ∷ "\n"
    ∷ "\tatomic64_inc(&zram->stats.bd_writes);\n" ∷ "\tzram_slot_lock(zram, index);\n" ∷ "\t/*\n"
    ∷ "\t * The slot lock was released for the bio, so the slot can have changed\n"
    ∷ "\t * under us: slot_free(), or slot_free() plus zram_write_page().  Both\n"
    ∷ "\t * clear ZRAM_IDLE (zram_free_page() clears it), and idle_store() never\n"
    ∷ "\t * sets ZRAM_IDLE on a ZRAM_UNDER_WB slot, so ZRAM_IDLE is a sound \"this\n"
    ∷ "\t * is still the slot we read\" test.\n" ∷ "\t */\n"
    ∷ "\tif (!zram_allocated(zram, index) ||\n"
    ∷ "\t    !zram_test_flag(zram, index, ZRAM_IDLE)) {\n"
    ∷ "\t\tzram_clear_flag(zram, index, ZRAM_UNDER_WB);\n"
    ∷ "\t\tzram_clear_flag(zram, index, ZRAM_IDLE);\n"
    ∷ "\t\tfree_block_bdev(zram, req->blk_idx);\n" ∷ "\t\tgoto out;\n" ∷ "\t}\n" ∷ "\n"
    ∷ "\tzram_free_page(zram, index);\n" ∷ "\tzram_clear_flag(zram, index, ZRAM_UNDER_WB);\n"
    ∷ "\tzram_set_flag(zram, index, ZRAM_WB);\n"
    ∷ "\tzram_set_element(zram, index, req->blk_idx);\n" ∷ "\n" ∷ "\tif (zram->wb_compressed) {\n"
    ∷ "\t\tif (huge)\n" ∷ "\t\t\tzram_set_flag(zram, index, ZRAM_HUGE);\n"
    ∷ "\t\tzram_set_obj_size(zram, index, size);\n" ∷ "\t\tzram_set_priority(zram, index, prio);\n"
    ∷ "\t}\n" ∷ "\n" ∷ "\tatomic64_inc(&zram->stats.pages_stored);\n" ∷ []

abbrev pub slot_preserve_complete_release_new : List String
slot_preserve_complete_release_new =
    "\tatomic64_inc(&zram->stats.bd_writes);\n" ∷ "\tzram_slot_lock(zram, index);\n" ∷ "\t/*\n"
    ∷ "\t * The slot lock was released for the bio, so the slot can have changed\n"
    ∷ "\t * under us: slot_free(), or slot_free() plus zram_write_page().  Both\n"
    ∷ "\t * clear ZRAM_IDLE (zram_free_page() clears it), and idle_store() never\n"
    ∷ "\t * sets ZRAM_IDLE on a ZRAM_UNDER_WB slot, so ZRAM_IDLE is a sound \"this\n"
    ∷ "\t * is still the slot we read\" test.\n" ∷ "\t */\n"
    ∷ "\tif (!zram_allocated(zram, index) ||\n"
    ∷ "\t    !zram_test_flag(zram, index, ZRAM_IDLE)) {\n"
    ∷ "\t\tzram_clear_flag(zram, index, ZRAM_UNDER_WB);\n"
    ∷ "\t\tzram_clear_flag(zram, index, ZRAM_IDLE);\n"
    ∷ "\t\tfree_block_bdev(zram, req->blk_idx);\n" ∷ "\t\tgoto out;\n" ∷ "\t}\n" ∷ "\n" ∷ "\t/*\n"
    ∷ "\t * ABK stable_515_backport: b0377ee80429.  Release the slot without\n"
    ∷ "\t * zram_free_page(): that helper resets every flag and attribute, so the\n"
    ∷ "\t * slot would lose metadata the paths need -- obj_size and priority for\n"
    ∷ "\t * the compressed read, ZRAM_HUGE for the raw one, and (upstream's other\n"
    ∷ "\t * reason for this commit) ZRAM_INCOMPRESSIBLE plus ac_time.  It also\n"
    ∷ "\t * decrements ->huge_pages, and re-setting ZRAM_HUGE afterwards does not\n"
    ∷ "\t * give that decrement back: the slot's final release would decrement\n"
    ∷ "\t * the counter a second time (underflow).\n" ∷ "\t *\n"
    ∷ "\t * Release only what completion owes.  pages_stored is deliberately left\n"
    ∷ "\t * alone in both directions: zram_free_page()'s out: label used to\n"
    ∷ "\t * decrement it and the increment that closed this path compensated, so\n"
    ∷ "\t * dropping both keeps a written-back page counted as stored.\n" ∷ "\t */\n"
    ∷ "\tzram_clear_flag(zram, index, ZRAM_IDLE);\n"
    ∷ "\tif (zram_test_flag(zram, index, ZRAM_HUGE))\n"
    ∷ "\t\tatomic64_dec(&zram->stats.huge_pages);\n"
    ∷ "\tatomic64_sub(zram_get_obj_size(zram, index),\n"
    ∷ "\t\t     &zram->stats.compr_data_size);\n"
    ∷ "\tzs_free(zram->mem_pool, zram_get_handle(zram, index));\n"
    ∷ "\tzram_clear_flag(zram, index, ZRAM_UNDER_WB);\n"
    ∷ "\tzram_set_flag(zram, index, ZRAM_WB);\n"
    ∷ "\tzram_set_element(zram, index, req->blk_idx);\n" ∷ []

abbrev pub slot_preserve_free_page_huge_old : List String
slot_preserve_free_page_huge_old =
    "\tif (zram_test_flag(zram, index, ZRAM_HUGE)) {\n"
    ∷ "\t\tzram_clear_flag(zram, index, ZRAM_HUGE);\n"
    ∷ "\t\tatomic64_dec(&zram->stats.huge_pages);\n" ∷ "\t}\n" ∷ []

abbrev pub slot_preserve_free_page_huge_new : List String
slot_preserve_free_page_huge_new =
    "\tif (zram_test_flag(zram, index, ZRAM_HUGE)) {\n"
    ∷ "\t\tzram_clear_flag(zram, index, ZRAM_HUGE);\n" ∷ "\t\t/*\n"
    ∷ "\t\t * ABK stable_515_backport: b0377ee80429.  A written-back slot keeps\n"
    ∷ "\t\t * ZRAM_HUGE for the deferred decompression path, and its huge page\n"
    ∷ "\t\t * was already accounted when the writeback completed -- decrement\n"
    ∷ "\t\t * only for a slot that was never written back.\n" ∷ "\t\t */\n"
    ∷ "\t\tif (!zram_test_flag(zram, index, ZRAM_WB))\n"
    ∷ "\t\t\tatomic64_dec(&zram->stats.huge_pages);\n" ∷ "\t}\n" ∷ []

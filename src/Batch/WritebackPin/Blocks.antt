-- ===== src/Batch/WritebackPin/Blocks.antt =====
-- The text blocks of scripts/batch71_core_kcompressd_wb_pin.py.
use abk_5_15_backport.Prelude.{String, List, [], ◌∷◌}

abbrev pub writeback_pin_wb_set_old : List String
writeback_pin_wb_set_old =
    "\t\t * same defect on 6.12, whose pageout() has the identical\n"
    ∷ "\t\t * PAGE_SUCCESS branch. */\n" ∷ "\t\tunlock_page(page);\n" ∷ "\t\treturn 0;\n" ∷ "\t}\n"
    ∷ []

abbrev pub writeback_pin_wb_set_new : List String
writeback_pin_wb_set_new =
    "\t\t * same defect on 6.12, whose pageout() has the identical\n"
    ∷ "\t\t * PAGE_SUCCESS branch. */\n" ∷ "\t\t/*\n"
    ∷ "\t\t * sailboat_kcompressd_wb_pin: mark the page under writeback\n"
    ∷ "\t\t * before releasing it, so its swap slot stays pinned for the\n"
    ∷ "\t\t * whole FIFO residency.  Without this the queued page is\n"
    ∷ "\t\t * unlocked and not-writeback, so try_to_free_swap() (which\n"
    ∷ "\t\t * bails only on PageWriteback) frees the slot, it is reused\n"
    ∷ "\t\t * for another page, and the deferred write lands in the wrong\n"
    ∷ "\t\t * slot -- silent swap data corruption (anon pages crash apps,\n"
    ∷ "\t\t * file pages = /data loss).  end_page_writeback() is paired in\n"
    ∷ "\t\t * abk_kcompressd_do_swapout() once the drain holds the lock.\n" ∷ "\t\t */\n"
    ∷ "\t\tset_page_writeback(page);\n" ∷ "\t\tunlock_page(page);\n" ∷ "\t\treturn 0;\n" ∷ "\t}\n"
    ∷ []

abbrev pub writeback_pin_wb_end_old : List String
writeback_pin_wb_end_old =
    "\t * freed underneath us no matter who else locked it.\n" ∷ "\t */\n" ∷ "\tlock_page(page);\n"
    ∷ "\n" ∷ "\n" ∷ "\tif (frontswap_store(page) == 0) {\n" ∷ []

abbrev pub writeback_pin_wb_end_new : List String
writeback_pin_wb_end_new =
    "\t * freed underneath us no matter who else locked it.\n" ∷ "\t */\n" ∷ "\tlock_page(page);\n"
    ∷ "\t/*\n" ∷ "\t * sailboat_kcompressd_wb_pin: the page arrived unlocked and under\n"
    ∷ "\t * writeback (set at enqueue to pin the swap slot across the queue).\n"
    ∷ "\t * Now that the drain holds the lock, end that writeback so the write\n"
    ∷ "\t * body below runs from the same locked / not-writeback state the\n"
    ∷ "\t * synchronous path expects; the body re-sets and ends writeback\n"
    ∷ "\t * itself (bdev_write_page for zram).  The lock covers this gap:\n"
    ∷ "\t * try_to_free_swap() needs the page lock, which we hold.\n" ∷ "\t */\n"
    ∷ "\tend_page_writeback(page);\n" ∷ "\n" ∷ "\n" ∷ "\tif (frontswap_store(page) == 0) {\n" ∷ []

abbrev pub writeback_pin_wb_drop_old : List String
writeback_pin_wb_drop_old = "\t\tput_page(page);\n" ∷ "\t\treturn;\n" ∷ "\t}\n" ∷ []

abbrev pub writeback_pin_wb_drop_new : List String
writeback_pin_wb_drop_new =
    "\t\t/*\n" ∷ "\t\t * sailboat_kcompressd_wb_pin: this page was pinned under\n"
    ∷ "\t\t * PG_writeback at enqueue, and this drop path returns before the\n"
    ∷ "\t\t * drain's end_page_writeback() below.  End it here too, or the page\n"
    ∷ "\t\t * is left under writeback forever -- unreclaimable, and freeing it\n"
    ∷ "\t\t * with the bit set trips bad_page().  No page lock is needed\n"
    ∷ "\t\t * (end_page_writeback() runs from bio completion), and the page is\n"
    ∷ "\t\t * still under writeback here because nothing has ended it yet.\n" ∷ "\t\t */\n"
    ∷ "\t\tend_page_writeback(page);\n" ∷ "\t\tput_page(page);\n" ∷ "\t\treturn;\n" ∷ "\t}\n" ∷ []

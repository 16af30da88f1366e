-- ===== src/Batch/MmapMiss/Blocks.antt =====
-- The text blocks of scripts/batch30_core_mmap_miss_races.py.
use abk_5_15_backport.Prelude.{String, List, [], ◌∷◌}

abbrev pub mmap_miss_async_old : List String
mmap_miss_async_old =
    "\t/* If we don't want any read-ahead, don't bother */\n"
    ∷ "\tif (vmf->vma->vm_flags & VM_RAND_READ || !ra->ra_pages)\n" ∷ "\t\treturn fpin;\n"
    ∷ "\tmmap_miss = READ_ONCE(ra->mmap_miss);\n" ∷ "\tif (mmap_miss)\n"
    ∷ "\t\tWRITE_ONCE(ra->mmap_miss, --mmap_miss);\n" ∷ "\tif (PageReadahead(page)) {\n" ∷ []

abbrev pub mmap_miss_async_new : List String
mmap_miss_async_new =
    "\t/* If we don't want any read-ahead, don't bother */\n"
    ∷ "\tif (vmf->vma->vm_flags & VM_RAND_READ || !ra->ra_pages)\n" ∷ "\t\treturn fpin;\n"
    ∷ "\t/*\n" ∷ "\t * If the page is locked, we're likely racing against another fault.\n"
    ∷ "\t * Don't touch the mmap_miss counter to avoid decreasing it multiple\n"
    ∷ "\t * times for a single page and break the balance with mmap_miss\n"
    ∷ "\t * increase in do_sync_mmap_readahead().\n" ∷ "\t */\n"
    ∷ "\tif (likely(!PageLocked(page))) {\n" ∷ "\t\tmmap_miss = READ_ONCE(ra->mmap_miss);\n"
    ∷ "\t\tif (mmap_miss)\n" ∷ "\t\t\tWRITE_ONCE(ra->mmap_miss, --mmap_miss);\n" ∷ "\t}\n"
    ∷ "\tif (PageReadahead(page)) {\n" ∷ []

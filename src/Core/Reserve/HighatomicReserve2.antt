-- ===== src/Core/Reserve/HighatomicReserve2.antt =====
-- Steps 2 of 3 of `_highatomic_reserve_apply` of scripts/abk_stable_core.py.
use abk_5_15_backport.Prelude.{true, List, [], ◌∷◌}
use abk_5_15_backport.Steps.{Step, step}

unfoldable pub highatomic_reserve_steps_2 : List Step
highatomic_reserve_steps_2 =
    step "mm/page_alloc.c"
      ("\t\tif (alloc_harder && !free_area_empty(area, MIGRATE_HIGHATOMIC))\n"
        ∷ "\t\t\treturn true;\n" ∷ "\t}" ∷ [])
      ("\t\tif ((alloc_flags & (ALLOC_HIGHATOMIC|ALLOC_OOM)) &&\n"
        ∷ "\t\t    !free_area_empty(area, MIGRATE_HIGHATOMIC)) {\n" ∷ "\t\t\treturn true;\n"
        ∷ "\t\t}\n" ∷ "\t}" ∷ [])
      true
    ∷ step "mm/page_alloc.c"
        ("\t\t\tif (unlikely(order && (alloc_flags & ALLOC_HARDER)))\n"
          ∷ "\t\t\t\treserve_highatomic_pageblock(page, zone, order);" ∷ [])
        ("\t\t\tif (unlikely(alloc_flags & ALLOC_HIGHATOMIC))\n"
          ∷ "\t\t\t\treserve_highatomic_pageblock(page, zone, order);" ∷ [])
        true
    ∷ step "mm/page_alloc.c"
        ("\t\tif (order > 0 && alloc_flags & ALLOC_HARDER) {\n"
          ∷ "\t\t\tpage = __rmqueue_smallest(zone, order, MIGRATE_HIGHATOMIC);\n"
          ∷ "\t\t\tif (page)\n"
          ∷ "\t\t\t\ttrace_mm_page_alloc_zone_locked(page, order, migratetype);\n" ∷ "\t\t}" ∷ [])
        ("\t\tif (alloc_flags & ALLOC_HIGHATOMIC) {\n"
          ∷ "\t\t\tpage = __rmqueue_smallest(zone, order, MIGRATE_HIGHATOMIC);\n"
          ∷ "\t\t\tif (page)\n"
          ∷ "\t\t\t\ttrace_mm_page_alloc_zone_locked(page, order, migratetype);\n" ∷ "\t\t}" ∷ [])
        true
    ∷ step "mm/page_alloc.c"
        ("\t\t\tif (!page)\n" ∷ "\t\t\t\tpage = __rmqueue(zone, order, migratetype,\n"
          ∷ "\t\t\t\t\t\talloc_flags);\n" ∷ "\t\t}" ∷ [])
        ("\t\t\tif (!page) {\n" ∷ "\t\t\t\tpage = __rmqueue(zone, order, migratetype,\n"
          ∷ "\t\t\t\t\t\talloc_flags);\n" ∷ "\n" ∷ "\t\t\t\t/*\n"
          ∷ "\t\t\t\t * If the allocation fails, allow OOM handling and\n"
          ∷ "\t\t\t\t * order-0 (atomic) allocs access to HIGHATOMIC\n"
          ∷ "\t\t\t\t * reserves as failing now is worse than failing a\n"
          ∷ "\t\t\t\t * high-order atomic allocation in the future.\n" ∷ "\t\t\t\t */\n"
          ∷ "\t\t\t\tif (!page && (alloc_flags & (ALLOC_OOM|ALLOC_NON_BLOCK)))\n"
          ∷ "\t\t\t\t\tpage = __rmqueue_smallest(zone, order, MIGRATE_HIGHATOMIC);\n" ∷ "\t\t\t}\n"
          ∷ "\t\t}" ∷ [])
        true
    ∷ step "mm/page_alloc.c"
        ("gfp_to_alloc_flags(gfp_t gfp_mask)\n" ∷ "{\n"
          ∷ "\tunsigned int alloc_flags = ALLOC_WMARK_MIN | ALLOC_CPUSET;" ∷ [])
        ("gfp_to_alloc_flags(gfp_t gfp_mask, unsigned int order)\n" ∷ "{\n"
          ∷ "\tunsigned int alloc_flags = ALLOC_WMARK_MIN | ALLOC_CPUSET;" ∷ [])
        true
    ∷ step "mm/page_alloc.c" ("\talloc_flags = gfp_to_alloc_flags(gfp_mask);" ∷ [])
        ("\talloc_flags = gfp_to_alloc_flags(gfp_mask, order);" ∷ []) true
    ∷ step "mm/page_alloc.c"
        ("\t * policy or is asking for __GFP_HIGH memory.  GFP_ATOMIC requests will\n"
          ∷ "\t * set both ALLOC_HARDER (__GFP_ATOMIC) and ALLOC_MIN_RESERVE(__GFP_HIGH).\n"
          ∷ "\t */\n" ∷ "\talloc_flags |= (__force int)\n"
          ∷ "\t\t(gfp_mask & (__GFP_HIGH | __GFP_KSWAPD_RECLAIM));\n" ∷ "\n"
          ∷ "\tif (gfp_mask & __GFP_ATOMIC) {\n" ∷ "\t\t/*\n"
          ∷ "\t\t * Not worth trying to allocate harder for __GFP_NOMEMALLOC even\n"
          ∷ "\t\t * if it can't schedule.\n" ∷ "\t\t */\n"
          ∷ "\t\tif (!(gfp_mask & __GFP_NOMEMALLOC))\n" ∷ "\t\t\talloc_flags |= ALLOC_HARDER;\n"
          ∷ "\t\t/*\n" ∷ "\t\t * Ignore cpuset mems for GFP_ATOMIC rather than fail, see the\n"
          ∷ "\t\t * comment for __cpuset_node_allowed().\n" ∷ "\t\t */\n"
          ∷ "\t\talloc_flags &= ~ALLOC_CPUSET;" ∷ [])
        ("\t * policy or is asking for __GFP_HIGH memory.  GFP_ATOMIC requests will\n"
          ∷ "\t * set both ALLOC_NON_BLOCK and ALLOC_MIN_RESERVE(__GFP_HIGH).\n" ∷ "\t */\n"
          ∷ "\talloc_flags |= (__force int)\n"
          ∷ "\t\t(gfp_mask & (__GFP_HIGH | __GFP_KSWAPD_RECLAIM));\n" ∷ "\n"
          ∷ "\tif (!(gfp_mask & __GFP_DIRECT_RECLAIM)) {\n" ∷ "\t\t/*\n"
          ∷ "\t\t * Not worth trying to allocate harder for __GFP_NOMEMALLOC even\n"
          ∷ "\t\t * if it can't schedule.\n" ∷ "\t\t */\n"
          ∷ "\t\tif (!(gfp_mask & __GFP_NOMEMALLOC)) {\n"
          ∷ "\t\t\talloc_flags |= ALLOC_NON_BLOCK;\n" ∷ "\n"
          ∷ "\t\t\tif (order > 0 && (alloc_flags & ALLOC_MIN_RESERVE))\n"
          ∷ "\t\t\t\talloc_flags |= ALLOC_HIGHATOMIC;\n" ∷ "\t\t}\n" ∷ "\n" ∷ "\t\t/*\n"
          ∷ "\t\t * Ignore cpuset mems for non-blocking __GFP_HIGH (probably\n"
          ∷ "\t\t * GFP_ATOMIC) rather than fail, see the comment for\n"
          ∷ "\t\t * __cpuset_node_allowed().\n" ∷ "\t\t */\n"
          ∷ "\t\tif (alloc_flags & ALLOC_MIN_RESERVE)\n" ∷ "\t\t\talloc_flags &= ~ALLOC_CPUSET;"
          ∷ [])
        true
    ∷ []

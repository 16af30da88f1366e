-- ===== src/Core/Reserve/HighatomicReserve1.antt =====
-- Steps 1 of 3 of `_highatomic_reserve_apply` of scripts/abk_stable_core.py.
use abk_5_15_backport.Prelude.{true, List, [], ◌∷◌}
use abk_5_15_backport.Steps.{Step, step}

unfoldable pub highatomic_reserve_steps_1 : List Step
highatomic_reserve_steps_1 =
    step "mm/internal.h"
      ("#define ALLOC_HARDER\t\t 0x10 /* try to alloc harder */\n"
        ∷ "#define ALLOC_MIN_RESERVE\t 0x20 /* __GFP_HIGH set. Allow access to 50%\n"
        ∷ "\t\t\t\t       * of the min watermark.\n" ∷ "\t\t\t\t       */" ∷ [])
      ("#define ALLOC_NON_BLOCK\t\t 0x10 /* Caller cannot block. Allow access\n"
        ∷ "\t\t\t\t       * to 25% of the min watermark or\n"
        ∷ "\t\t\t\t       * 62.5% if __GFP_HIGH is set.\n" ∷ "\t\t\t\t       */\n"
        ∷ "#define ALLOC_MIN_RESERVE\t 0x20 /* __GFP_HIGH set. Allow access to 50%\n"
        ∷ "\t\t\t\t       * of the min watermark.\n" ∷ "\t\t\t\t       */" ∷ [])
      true
    ∷ step "mm/internal.h"
        ("#define ALLOC_KSWAPD\t\t0x800 /* allow waking of kswapd, __GFP_KSWAPD_RECLAIM set */"
          ∷ [])
        ("#define ALLOC_HIGHATOMIC\t0x200 /* Allows access to MIGRATE_HIGHATOMIC */\n"
          ∷ "#define ALLOC_KSWAPD\t\t0x800 /* allow waking of kswapd, __GFP_KSWAPD_RECLAIM set */\n"
          ∷ "\n" ∷ "/* Flags that allow allocations below the min watermark. */\n"
          ∷ "#define ALLOC_RESERVES (ALLOC_NON_BLOCK|ALLOC_MIN_RESERVE|ALLOC_HIGHATOMIC|ALLOC_OOM)"
          ∷ [])
        true
    ∷ step "mm/page_alloc.c"
        ("\tconst bool alloc_harder = (alloc_flags & (ALLOC_HARDER|ALLOC_OOM));\n"
          ∷ "\tlong unusable_free = (1 << order) - 1;\n" ∷ "\n" ∷ "\t/*\n"
          ∷ "\t * If the caller does not have rights to ALLOC_HARDER then subtract\n"
          ∷ "\t * the high-atomic reserves. This will over-estimate the size of the\n"
          ∷ "\t * atomic reserve but it avoids a search.\n" ∷ "\t */\n"
          ∷ "\tif (likely(!alloc_harder))\n" ∷ "\t\tunusable_free += z->nr_reserved_highatomic;"
          ∷ [])
        ("\tlong unusable_free = (1 << order) - 1;\n" ∷ "\n" ∷ "\t/*\n"
          ∷ "\t * If the caller does not have rights to reserves below the min\n"
          ∷ "\t * watermark then subtract the high-atomic reserves. This will\n"
          ∷ "\t * over-estimate the size of the atomic reserve but it avoids a search.\n"
          ∷ "\t */\n" ∷ "\tif (likely(!(alloc_flags & ALLOC_RESERVES)))\n"
          ∷ "\t\tunusable_free += z->nr_reserved_highatomic;" ∷ [])
        true
    ∷ step "mm/page_alloc.c"
        ("\tlong min = mark;\n" ∷ "\tint o;\n"
          ∷ "\tconst bool alloc_harder = (alloc_flags & (ALLOC_HARDER|ALLOC_OOM));\n" ∷ "\n"
          ∷ "\t/* free_pages may go negative - that's OK */\n"
          ∷ "\tfree_pages -= __zone_watermark_unusable_free(z, order, alloc_flags);\n" ∷ "\n"
          ∷ "\tif (alloc_flags & ALLOC_MIN_RESERVE)\n" ∷ "\t\tmin -= min / 2;\n" ∷ "\n"
          ∷ "\tif (unlikely(alloc_harder)) {\n" ∷ "\t\t/*\n"
          ∷ "\t\t * OOM victims can try even harder than normal ALLOC_HARDER\n"
          ∷ "\t\t * users on the grounds that it's definitely going to be in\n"
          ∷ "\t\t * the exit path shortly and free memory. Any allocation it\n"
          ∷ "\t\t * makes during the free path will be small and short-lived.\n" ∷ "\t\t */\n"
          ∷ "\t\tif (alloc_flags & ALLOC_OOM)\n" ∷ "\t\t\tmin -= min / 2;\n" ∷ "\t\telse\n"
          ∷ "\t\t\tmin -= min / 4;\n" ∷ "\t}" ∷ [])
        ("\tlong min = mark;\n" ∷ "\tint o;\n" ∷ "\n"
          ∷ "\t/* free_pages may go negative - that's OK */\n"
          ∷ "\tfree_pages -= __zone_watermark_unusable_free(z, order, alloc_flags);\n" ∷ "\n"
          ∷ "\tif (unlikely(alloc_flags & ALLOC_RESERVES)) {\n" ∷ "\t\t/*\n"
          ∷ "\t\t * __GFP_HIGH allows access to 50% of the min reserve as well\n"
          ∷ "\t\t * as OOM.\n" ∷ "\t\t */\n" ∷ "\t\tif (alloc_flags & ALLOC_MIN_RESERVE) {\n"
          ∷ "\t\t\tmin -= min / 2;\n" ∷ "\n" ∷ "\t\t\t/*\n"
          ∷ "\t\t\t * Non-blocking allocations (e.g. GFP_ATOMIC) can\n"
          ∷ "\t\t\t * access more reserves than just __GFP_HIGH. Other\n"
          ∷ "\t\t\t * non-blocking allocations requests such as GFP_NOWAIT\n"
          ∷ "\t\t\t * or (GFP_KERNEL & ~__GFP_DIRECT_RECLAIM) do not get\n"
          ∷ "\t\t\t * access to the min reserve.\n" ∷ "\t\t\t */\n"
          ∷ "\t\t\tif (alloc_flags & ALLOC_NON_BLOCK)\n" ∷ "\t\t\t\tmin -= min / 4;\n" ∷ "\t\t}\n"
          ∷ "\n" ∷ "\t\t/*\n" ∷ "\t\t * OOM victims can try even harder than the normal reserve\n"
          ∷ "\t\t * users on the grounds that it's definitely going to be in\n"
          ∷ "\t\t * the exit path shortly and free memory. Any allocation it\n"
          ∷ "\t\t * makes during the free path will be small and short-lived.\n" ∷ "\t\t */\n"
          ∷ "\t\tif (alloc_flags & ALLOC_OOM)\n" ∷ "\t\t\tmin -= min / 2;\n" ∷ "\t}" ∷ [])
        true
    ∷ []

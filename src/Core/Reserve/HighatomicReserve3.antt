-- ===== src/Core/Reserve/HighatomicReserve3.antt =====
-- Steps 3 of 3 of `_highatomic_reserve_apply` of scripts/abk_stable_core.py.
use abk_5_15_backport.Prelude.{true, List, [], ◌∷◌}
use abk_5_15_backport.Steps.{Step, step}

unfoldable pub highatomic_reserve_steps_3 : List Step
highatomic_reserve_steps_3 =
    step "mm/page_alloc.c"
      ("\t\t/*\n" ∷ "\t\t * Help non-failing allocations by giving them access to memory\n"
        ∷ "\t\t * reserves but do not use ALLOC_NO_WATERMARKS because this\n"
        ∷ "\t\t * could deplete whole memory reserves which would just make\n"
        ∷ "\t\t * the situation worse\n" ∷ "\t\t */\n"
        ∷ "\t\tpage = __alloc_pages_cpuset_fallback(gfp_mask, order, ALLOC_HARDER, ac);" ∷ [])
      ("\t\t/*\n" ∷ "\t\t * Help non-failing allocations by giving some access to memory\n"
        ∷ "\t\t * reserves normally used for high priority non-blocking\n"
        ∷ "\t\t * allocations but do not use ALLOC_NO_WATERMARKS because this\n"
        ∷ "\t\t * could deplete whole memory reserves which would just make\n"
        ∷ "\t\t * the situation worse.\n" ∷ "\t\t */\n"
        ∷ "\t\tpage = __alloc_pages_cpuset_fallback(gfp_mask, order, ALLOC_MIN_RESERVE, ac);" ∷ [])
      true
    ∷ []

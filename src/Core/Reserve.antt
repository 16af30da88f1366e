-- ===== src/Core/Reserve.antt =====
-- The groups over the reserves of the page allocator, of scripts/abk_stable_core.py.
pub mod HighatomicReserve1
pub mod HighatomicReserve2
pub mod HighatomicReserve3
use abk_5_15_backport.Prelude.{true, false, List, [], ◌∷◌, ◌++◌}
use abk_5_15_backport.Text.{codes, block}
use abk_5_15_backport.Result.{Exec}
use abk_5_15_backport.Context.{Context}
use abk_5_15_backport.Steps.{Step, Status, step}
use abk_5_15_backport.Groups.{PatchGroup}
use abk_5_15_backport.Groups.Acting.{edit_all}
use abk_5_15_backport.Groups.Probes.{superseded_apply}
use abk_5_15_backport.Groups.Probes.Acts.{ActsAs-superseded_apply}
use abk_5_15_backport.Groups.Planned.{Planned, planned_as}
use abk_5_15_backport.Core.Reserve.HighatomicReserve1.{highatomic_reserve_steps_1}
use abk_5_15_backport.Core.Reserve.HighatomicReserve2.{highatomic_reserve_steps_2}
use abk_5_15_backport.Core.Reserve.HighatomicReserve3.{highatomic_reserve_steps_3}

-- The steps of `_min_reserve_apply`.
unfoldable pub min_reserve_steps : List Step
min_reserve_steps =
    step "mm/internal.h" ("#define ALLOC_HIGH\t\t 0x20 /* __GFP_HIGH set */" ∷ [])
      ("#define ALLOC_MIN_RESERVE\t 0x20 /* __GFP_HIGH set. Allow access to 50%\n"
        ∷ "\t\t\t\t       * of the min watermark.\n" ∷ "\t\t\t\t       */" ∷ [])
      true
    ∷ step "mm/page_alloc.c" ("if (alloc_flags & ALLOC_HIGH)\n" ∷ "\t\tmin -= min / 2;" ∷ [])
        ("if (alloc_flags & ALLOC_MIN_RESERVE)\n" ∷ "\t\tmin -= min / 2;" ∷ []) true
    ∷ step "mm/page_alloc.c" ("\t * __GFP_HIGH is assumed to be the same as ALLOC_HIGH\n" ∷ [])
        ("\t * __GFP_HIGH is assumed to be the same as ALLOC_MIN_RESERVE\n" ∷ []) true
    ∷ step "mm/page_alloc.c" ("BUILD_BUG_ON(__GFP_HIGH != (__force gfp_t) ALLOC_HIGH);" ∷ [])
        ("BUILD_BUG_ON(__GFP_HIGH != (__force gfp_t) ALLOC_MIN_RESERVE);" ∷ []) true
    ∷ step "mm/page_alloc.c"
        ("\t * set both ALLOC_HARDER (__GFP_ATOMIC) and ALLOC_HIGH (__GFP_HIGH)." ∷ [])
        ("\t * set both ALLOC_HARDER (__GFP_ATOMIC) and ALLOC_MIN_RESERVE(__GFP_HIGH)." ∷ []) false
    ∷ step "mm/page_alloc.c"
        ("\t} else if (unlikely(rt_task(current)) && in_task())\n"
          ∷ "\t\talloc_flags |= ALLOC_HARDER;" ∷ [])
        ("\t} else if (unlikely(rt_task(current)) && in_task())\n"
          ∷ "\t\talloc_flags |= ALLOC_MIN_RESERVE;" ∷ [])
        true
    ∷ []

abbrev pub min_reserve_apply : Exec Context Status
min_reserve_apply =
    superseded_apply (codes "mm/internal.h") ((codes "ALLOC_RESERVES") ∷ []) min_reserve_steps

abbrev pub min_reserve : PatchGroup
min_reserve = record {
  key = codes "pagealloc_min_reserve_semantics";
  summary =
      block (
        "ALLOC_HIGH -> ALLOC_MIN_RESERVE with RT tasks treated as __GFP_H" ∷ "IGH (5.15.171)" ∷ []);
  commits = (codes "92e52ff398b5 (5.15.171)") ∷ (codes "9da195a2d35b (5.15.171)") ∷ [];
  files = (codes "mm/internal.h") ∷ (codes "mm/page_alloc.c") ∷ [];
  apply_fn = min_reserve_apply;
  hard = false;
}

abbrev pub planned_min_reserve : Planned
planned_min_reserve = planned_as min_reserve (edit_all min_reserve_steps) (
    ActsAs-superseded_apply (codes "mm/internal.h") ((codes "ALLOC_RESERVES") ∷ [])
      min_reserve_steps)

-- The steps of `_highatomic_reserve_apply`.
unfoldable pub highatomic_reserve_steps : List Step
highatomic_reserve_steps =
    highatomic_reserve_steps_1 ++ (highatomic_reserve_steps_2 ++ highatomic_reserve_steps_3)

abbrev pub highatomic_reserve_apply : Exec Context Status
highatomic_reserve_apply =
    superseded_apply (codes "mm/page_alloc.c")
      ((codes "enum rmqueue_mode rmqm = RMQUEUE_NORMAL")
        ∷ (codes "If the allocation fails, allow OOM handling")
        ∷ [])
      highatomic_reserve_steps

abbrev pub highatomic_reserve : PatchGroup
highatomic_reserve = record {
  key = codes "pagealloc_highatomic_reserve_semantics";
  summary = block (
      "high-atomic reserve semantics: ALLOC_NON_BLOCK/ALLOC_HIGHATOMIC/"
      ∷ "ALLOC_RESERVES with explicit watermark access rules (5.15.188-.2" ∷ "18)" ∷ []);
  commits =
      (codes "ca8527f25736 (5.15.188, base already in AOSP)")
      ∷ (codes "c1b8856c5a7d (5.15.189)")
      ∷ (codes "17dedfd6de69 (5.15.190)")
      ∷ (codes "85f58ee33c6c (5.15.191)")
      ∷ (codes "4c4e238d3ada (5.15.199)")
      ∷ (codes "735457683e23 (5.15.218)")
      ∷ [];
  files = (codes "mm/internal.h") ∷ (codes "mm/page_alloc.c") ∷ [];
  apply_fn = highatomic_reserve_apply;
  hard = false;
}

abbrev pub planned_highatomic_reserve : Planned
planned_highatomic_reserve = planned_as highatomic_reserve (edit_all highatomic_reserve_steps) (
    ActsAs-superseded_apply (codes "mm/page_alloc.c")
      ((codes "enum rmqueue_mode rmqm = RMQUEUE_NORMAL")
        ∷ (codes "If the allocation fails, allow OOM handling")
        ∷ [])
      highatomic_reserve_steps)

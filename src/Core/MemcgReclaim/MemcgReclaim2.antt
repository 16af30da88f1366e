-- ===== src/Core/MemcgReclaim/MemcgReclaim2.antt =====
-- Steps 2 of 3 of `_memcg_reclaim_apply` of scripts/abk_stable_core.py.
use abk_5_15_backport.Prelude.{true, List, [], ◌∷◌}
use abk_5_15_backport.Steps.{Step, step}

unfoldable pub memcg_reclaim_steps_2 : List Step
memcg_reclaim_steps_2 =
    step "mm/memcontrol.c"
      ("\tbool passed_oom = false;\n" ∷ "\tbool may_swap = true;\n" ∷ "\tbool drained = false;"
        ∷ [])
      ("\tbool passed_oom = false;\n" ∷ "\tunsigned int reclaim_options = MEMCG_RECLAIM_MAY_SWAP;\n"
        ∷ "\tbool drained = false;" ∷ [])
      true
    ∷ step "mm/memcontrol.c"
        ("\t} else {\n" ∷ "\t\tmem_over_limit = mem_cgroup_from_counter(counter, memsw);\n"
          ∷ "\t\tmay_swap = false;\n" ∷ "\t}" ∷ [])
        ("\t} else {\n" ∷ "\t\tmem_over_limit = mem_cgroup_from_counter(counter, memsw);\n"
          ∷ "\t\treclaim_options &= ~MEMCG_RECLAIM_MAY_SWAP;\n" ∷ "\t}" ∷ [])
        true
    ∷ step "mm/memcontrol.c"
        ("\t\tpsi_memstall_enter(&pflags);\n"
          ∷ "\t\tnr_reclaimed += try_to_free_mem_cgroup_pages(memcg, nr_pages,\n"
          ∷ "\t\t\t\t\t\t\t     gfp_mask, true);\n" ∷ "\t\tpsi_memstall_leave(&pflags);" ∷ [])
        ("\t\tpsi_memstall_enter(&pflags);\n"
          ∷ "\t\tnr_reclaimed += try_to_free_mem_cgroup_pages(memcg, nr_pages,\n"
          ∷ "\t\t\t\t\t\t\t     gfp_mask,\n" ∷ "\t\t\t\t\t\t\t     MEMCG_RECLAIM_MAY_SWAP);\n"
          ∷ "\t\tpsi_memstall_leave(&pflags);" ∷ [])
        true
    ∷ step "mm/memcontrol.c"
        ("\tpsi_memstall_enter(&pflags);\n"
          ∷ "\tnr_reclaimed = try_to_free_mem_cgroup_pages(mem_over_limit, nr_pages,\n"
          ∷ "\t\t\t\t\t\t    gfp_mask, may_swap);\n" ∷ "\tpsi_memstall_leave(&pflags);" ∷ [])
        ("\tpsi_memstall_enter(&pflags);\n"
          ∷ "\tnr_reclaimed = try_to_free_mem_cgroup_pages(mem_over_limit, nr_pages,\n"
          ∷ "\t\t\t\t\t\t    gfp_mask, reclaim_options);\n" ∷ "\tpsi_memstall_leave(&pflags);" ∷ [])
        true
    ∷ step "mm/memcontrol.c"
        ("\t\tif (!try_to_free_mem_cgroup_pages(memcg, 1,\n" ∷ "\t\t\t\t\tGFP_KERNEL, !memsw)) {\n"
          ∷ "\t\t\tret = -EBUSY;\n" ∷ "\t\t\tbreak;" ∷ [])
        ("\t\tif (!try_to_free_mem_cgroup_pages(memcg, 1, GFP_KERNEL,\n"
          ∷ "\t\t\t\t\tmemsw ? 0 : MEMCG_RECLAIM_MAY_SWAP)) {\n" ∷ "\t\t\tret = -EBUSY;\n"
          ∷ "\t\t\tbreak;" ∷ [])
        true
    ∷ step "mm/memcontrol.c"
        ("\t\tprogress = try_to_free_mem_cgroup_pages(memcg, 1,\n"
          ∷ "\t\t\t\t\t\t\tGFP_KERNEL, true);\n" ∷ [])
        ("\t\tprogress = try_to_free_mem_cgroup_pages(memcg, 1, GFP_KERNEL,\n"
          ∷ "\t\t\t\t\t\t\tMEMCG_RECLAIM_MAY_SWAP);\n" ∷ [])
        true
    ∷ step "mm/memcontrol.c"
        ("\t\treclaimed = try_to_free_mem_cgroup_pages(memcg, nr_pages - high,\n"
          ∷ "\t\t\t\t\t\t\t GFP_KERNEL, true);\n" ∷ [])
        ("\t\treclaimed = try_to_free_mem_cgroup_pages(memcg, nr_pages - high,\n"
          ∷ "\t\t\t\t\tGFP_KERNEL, MEMCG_RECLAIM_MAY_SWAP);\n" ∷ [])
        true
    ∷ step "mm/memcontrol.c"
        ("\t\t\tif (!try_to_free_mem_cgroup_pages(memcg, nr_pages - max,\n"
          ∷ "\t\t\t\t\t\t\t  GFP_KERNEL, true))\n" ∷ [])
        ("\t\t\tif (!try_to_free_mem_cgroup_pages(memcg, nr_pages - max,\n"
          ∷ "\t\t\t\t\tGFP_KERNEL, MEMCG_RECLAIM_MAY_SWAP))\n" ∷ [])
        true
    ∷ []

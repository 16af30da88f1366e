-- ===== src/Core/MemcgReclaim/MemcgReclaim1.antt =====
-- Steps 1 of 3 of `_memcg_reclaim_apply` of scripts/abk_stable_core.py.
use abk_5_15_backport.Prelude.{true, false, List, [], ◌∷◌}
use abk_5_15_backport.Steps.{Step, step}

unfoldable pub memcg_reclaim_steps_1 : List Step
memcg_reclaim_steps_1 =
    step "include/linux/swap.h"
      ("extern unsigned long try_to_free_pages(struct zonelist *zonelist, int order,\n"
        ∷ "\t\t\t\t\tgfp_t gfp_mask, nodemask_t *mask);\n"
        ∷ "extern unsigned long try_to_free_mem_cgroup_pages(struct mem_cgroup *memcg,\n"
        ∷ "\t\t\t\t\t\t  unsigned long nr_pages,\n" ∷ "\t\t\t\t\t\t  gfp_t gfp_mask,\n"
        ∷ "\t\t\t\t\t\t  bool may_swap);" ∷ [])
      ("extern unsigned long try_to_free_pages(struct zonelist *zonelist, int order,\n"
        ∷ "\t\t\t\t\tgfp_t gfp_mask, nodemask_t *mask);\n" ∷ "\n"
        ∷ "/* ABK stable_515_backport: per-memcg proactive reclaim options (android14-6.1). */\n"
        ∷ "#define MEMCG_RECLAIM_MAY_SWAP (1 << 1)\n" ∷ "#define MEMCG_RECLAIM_PROACTIVE (1 << 2)\n"
        ∷ "extern unsigned long try_to_free_mem_cgroup_pages(struct mem_cgroup *memcg,\n"
        ∷ "\t\t\t\t\t\t  unsigned long nr_pages,\n" ∷ "\t\t\t\t\t\t  gfp_t gfp_mask,\n"
        ∷ "\t\t\t\t\t\t  unsigned int reclaim_options);" ∷ [])
      true
    ∷ step "mm/vmscan.c"
        ("\t/* Can pages be swapped as part of reclaim? */\n" ∷ "\tunsigned int may_swap:1;\n" ∷ [])
        ("\t/* Can pages be swapped as part of reclaim? */\n" ∷ "\tunsigned int may_swap:1;\n"
          ∷ "\n" ∷ "\t/* ABK stable_515_backport: set for proactive memory.reclaim requests. */\n"
          ∷ "\tunsigned int proactive:1;\n" ∷ [])
        true
    ∷ step "mm/vmscan.c"
        ("unsigned long try_to_free_mem_cgroup_pages(struct mem_cgroup *memcg,\n"
          ∷ "\t\t\t\t\t   unsigned long nr_pages,\n" ∷ "\t\t\t\t\t   gfp_t gfp_mask,\n"
          ∷ "\t\t\t\t\t   bool may_swap)\n" ∷ "{\n" ∷ "\tunsigned long nr_reclaimed;\n"
          ∷ "\tunsigned int noreclaim_flag;\n" ∷ "\tstruct scan_control sc = {\n"
          ∷ "\t\t.nr_to_reclaim = max(nr_pages, SWAP_CLUSTER_MAX),\n"
          ∷ "\t\t.gfp_mask = (current_gfp_context(gfp_mask) & GFP_RECLAIM_MASK) |\n"
          ∷ "\t\t\t\t(GFP_HIGHUSER_MOVABLE & ~GFP_RECLAIM_MASK),\n"
          ∷ "\t\t.reclaim_idx = MAX_NR_ZONES - 1,\n" ∷ "\t\t.target_mem_cgroup = memcg,\n"
          ∷ "\t\t.priority = DEF_PRIORITY,\n" ∷ "\t\t.may_writepage = !laptop_mode,\n"
          ∷ "\t\t.may_unmap = 1,\n" ∷ "\t\t.may_swap = may_swap,\n" ∷ "\t};" ∷ [])
        ("unsigned long try_to_free_mem_cgroup_pages(struct mem_cgroup *memcg,\n"
          ∷ "\t\t\t\t\t   unsigned long nr_pages,\n" ∷ "\t\t\t\t\t   gfp_t gfp_mask,\n"
          ∷ "\t\t\t\t\t   unsigned int reclaim_options)\n" ∷ "{\n"
          ∷ "\tunsigned long nr_reclaimed;\n" ∷ "\tunsigned int noreclaim_flag;\n"
          ∷ "\tstruct scan_control sc = {\n"
          ∷ "\t\t.nr_to_reclaim = max(nr_pages, SWAP_CLUSTER_MAX),\n"
          ∷ "\t\t.gfp_mask = (current_gfp_context(gfp_mask) & GFP_RECLAIM_MASK) |\n"
          ∷ "\t\t\t\t(GFP_HIGHUSER_MOVABLE & ~GFP_RECLAIM_MASK),\n"
          ∷ "\t\t.reclaim_idx = MAX_NR_ZONES - 1,\n" ∷ "\t\t.target_mem_cgroup = memcg,\n"
          ∷ "\t\t.priority = DEF_PRIORITY,\n" ∷ "\t\t.may_writepage = !laptop_mode,\n"
          ∷ "\t\t.may_unmap = 1,\n"
          ∷ "\t\t.may_swap = !!(reclaim_options & MEMCG_RECLAIM_MAY_SWAP),\n"
          ∷ "\t\t.proactive = !!(reclaim_options & MEMCG_RECLAIM_PROACTIVE),\n" ∷ "\t};" ∷ [])
        true
    ∷ step "mm/vmscan.c"
        ("\t\t/* Record the group's reclaim efficiency */\n"
          ∷ "\t\tvmpressure(sc->gfp_mask, memcg, false,\n" ∷ "\t\t\t   sc->nr_scanned - scanned,\n"
          ∷ "\t\t\t   sc->nr_reclaimed - reclaimed);" ∷ [])
        ("\t\t/* Record the group's reclaim efficiency */\n" ∷ "\t\tif (!sc->proactive)\n"
          ∷ "\t\t\tvmpressure(sc->gfp_mask, memcg, false,\n"
          ∷ "\t\t\t\t   sc->nr_scanned - scanned,\n" ∷ "\t\t\t\t   sc->nr_reclaimed - reclaimed);"
          ∷ [])
        false
    ∷ step "mm/vmscan.c"
        ("\t/* Record the subtree's reclaim efficiency */\n"
          ∷ "\tvmpressure(sc->gfp_mask, sc->target_mem_cgroup, true,\n"
          ∷ "\t\t   sc->nr_scanned - nr_scanned,\n" ∷ "\t\t   sc->nr_reclaimed - nr_reclaimed);"
          ∷ [])
        ("\t/* Record the subtree's reclaim efficiency */\n" ∷ "\tif (!sc->proactive)\n"
          ∷ "\t\tvmpressure(sc->gfp_mask, sc->target_mem_cgroup, true,\n"
          ∷ "\t\t\t   sc->nr_scanned - nr_scanned,\n" ∷ "\t\t\t   sc->nr_reclaimed - nr_reclaimed);"
          ∷ [])
        false
    ∷ step "mm/vmscan.c"
        ("\tdo {\n" ∷ "\t\tvmpressure_prio(sc->gfp_mask, sc->target_mem_cgroup,\n"
          ∷ "\t\t\t\tsc->priority);\n" ∷ "\t\tsc->nr_scanned = 0;" ∷ [])
        ("\tdo {\n" ∷ "\t\tif (!sc->proactive)\n"
          ∷ "\t\t\tvmpressure_prio(sc->gfp_mask, sc->target_mem_cgroup,\n"
          ∷ "\t\t\t\t\tsc->priority);\n" ∷ "\t\tsc->nr_scanned = 0;" ∷ [])
        false
    ∷ []

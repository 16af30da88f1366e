-- ===== src/Core/PageAlloc.antt =====
-- Page allocator groups of scripts/abk_stable_core.py.
use abk_5_15_backport.Prelude.{true, List, [], ◌∷◌}
use abk_5_15_backport.Text.{codes, block}
use abk_5_15_backport.Steps.{Step, step}
use abk_5_15_backport.Groups.Guard.{StepSpec}

-- The steps of `_thisnode_thp_apply`.
unfoldable pub thisnode_thp_steps : List Step
thisnode_thp_steps =
    step "mm/page_alloc.c"
      ("\t\t\t    compact_result == COMPACT_DEFERRED)\n" ∷ "\t\t\t\tgoto nopage;\n" ∷ "\n"
        ∷ "\t\t\t/*\n" ∷ "\t\t\t * Looks like reclaim/compaction is worth trying, but\n" ∷ [])
      ("\t\t\t    compact_result == COMPACT_DEFERRED)\n" ∷ "\t\t\t\tgoto nopage;\n" ∷ "\n"
        ∷ "\t\t\t/*\n" ∷ "\t\t\t * THP page faults may attempt local node only first,\n"
        ∷ "\t\t\t * but are then allowed to only compact, not reclaim,\n"
        ∷ "\t\t\t * see alloc_pages_mpol().\n" ∷ "\t\t\t *\n"
        ∷ "\t\t\t * Compaction can fail for other reasons than those\n"
        ∷ "\t\t\t * checked above and we don't want such THP allocations\n"
        ∷ "\t\t\t * to put reclaim pressure on a single node in a\n"
        ∷ "\t\t\t * situation where other nodes might have plenty of\n"
        ∷ "\t\t\t * available memory.\n" ∷ "\t\t\t */\n" ∷ "\t\t\tif (gfp_mask & __GFP_THISNODE)\n"
        ∷ "\t\t\t\tgoto nopage;\n" ∷ "\n" ∷ "\t\t\t/*\n"
        ∷ "\t\t\t * Looks like reclaim/compaction is worth trying, but\n" ∷ [])
      true
    ∷ []

unfoldable pub thisnode_thp : StepSpec
thisnode_thp = record {
  key = codes "pagealloc_thisnode_thp_noreclaim";
  summary =
      block
        ("THP __GFP_THISNODE allocations compact only, never direct-reclai" ∷ "m (5.15.202)" ∷ []);
  commits = (codes "0eac511c7657 (5.15.202)") ∷ [];
  files = (codes "mm/page_alloc.c") ∷ [];
  steps = thisnode_thp_steps;
}

-- The steps of `_cpuset_bailout_apply`.
unfoldable pub cpuset_bailout_steps : List Step
cpuset_bailout_steps =
    step "include/linux/cpuset.h"
      ("extern struct static_key_false cpusets_pre_enable_key;\n"
        ∷ "extern struct static_key_false cpusets_enabled_key;\n"
        ∷ "static inline bool cpusets_enabled(void)" ∷ [])
      ("extern struct static_key_false cpusets_pre_enable_key;\n"
        ∷ "extern struct static_key_false cpusets_enabled_key;\n"
        ∷ "extern struct static_key_false cpusets_insane_config_key;\n" ∷ "\n"
        ∷ "static inline bool cpusets_enabled(void)" ∷ [])
      true
    ∷ step "include/linux/cpuset.h"
        ("\tstatic_branch_dec_cpuslocked(&cpusets_pre_enable_key);\n" ∷ "}\n" ∷ "\n"
          ∷ "extern int cpuset_init(void);" ∷ [])
        ("\tstatic_branch_dec_cpuslocked(&cpusets_pre_enable_key);\n" ∷ "}\n" ∷ "\n" ∷ "/*\n"
          ∷ " * This will get enabled whenever a cpuset configuration is considered\n"
          ∷ " * unsupportable in general. E.g. movable only node which cannot satisfy\n"
          ∷ " * any non movable allocations (see update_nodemask). Page allocator\n"
          ∷ " * needs to make additional checks for those configurations and this\n"
          ∷ " * check is meant to guard those checks without any overhead for sane\n"
          ∷ " * configurations.\n" ∷ " */\n" ∷ "static inline bool cpusets_insane_config(void)\n"
          ∷ "{\n" ∷ "\treturn static_branch_unlikely(&cpusets_insane_config_key);\n" ∷ "}\n" ∷ "\n"
          ∷ "extern int cpuset_init(void);" ∷ [])
        true
    ∷ step "include/linux/cpuset.h"
        ("static inline bool cpusets_enabled(void) { return false; }\n" ∷ "\n"
          ∷ "static inline int cpuset_init(void) { return 0; }" ∷ [])
        ("static inline bool cpusets_enabled(void) { return false; }\n" ∷ "\n"
          ∷ "static inline bool cpusets_insane_config(void) { return false; }\n" ∷ "\n"
          ∷ "static inline int cpuset_init(void) { return 0; }" ∷ [])
        true
    ∷ step "include/linux/mmzone.h"
        ("#define for_each_zone_zonelist(zone, z, zlist, highidx) \\\n"
          ∷ "\tfor_each_zone_zonelist_nodemask(zone, z, zlist, highidx, NULL)\n" ∷ "\n"
          ∷ "#ifdef CONFIG_SPARSEMEM" ∷ [])
        ("#define for_each_zone_zonelist(zone, z, zlist, highidx) \\\n"
          ∷ "\tfor_each_zone_zonelist_nodemask(zone, z, zlist, highidx, NULL)\n" ∷ "\n"
          ∷ "/* Whether the 'nodes' are all movable nodes */\n"
          ∷ "static inline bool movable_only_nodes(nodemask_t *nodes)\n" ∷ "{\n"
          ∷ "\tstruct zonelist *zonelist;\n" ∷ "\tstruct zoneref *z;\n" ∷ "\tint nid;\n" ∷ "\n"
          ∷ "\tif (nodes_empty(*nodes))\n" ∷ "\t\treturn false;\n" ∷ "\n" ∷ "\t/*\n"
          ∷ "\t * We can chose arbitrary node from the nodemask to get a\n"
          ∷ "\t * zonelist as they are interlinked. We just need to find\n"
          ∷ "\t * at least one zone that can satisfy kernel allocations.\n" ∷ "\t */\n"
          ∷ "\tnid = first_node(*nodes);\n"
          ∷ "\tzonelist = &NODE_DATA(nid)->node_zonelists[ZONELIST_FALLBACK];\n"
          ∷ "\tz = first_zones_zonelist(zonelist, ZONE_NORMAL,\tnodes);\n"
          ∷ "\treturn (!z->zone) ? true : false;\n" ∷ "}\n" ∷ "\n" ∷ "\n"
          ∷ "#ifdef CONFIG_SPARSEMEM" ∷ [])
        true
    ∷ step "kernel/cgroup/cpuset.c"
        ("DEFINE_STATIC_KEY_FALSE(cpusets_pre_enable_key);\n"
          ∷ "DEFINE_STATIC_KEY_FALSE(cpusets_enabled_key);\n" ∷ "\n"
          ∷ "/* See \"Frequency meter\" comments, below. */" ∷ [])
        ("DEFINE_STATIC_KEY_FALSE(cpusets_pre_enable_key);\n"
          ∷ "DEFINE_STATIC_KEY_FALSE(cpusets_enabled_key);\n" ∷ "\n" ∷ "/*\n"
          ∷ " * There could be abnormal cpuset configurations for cpu or memory\n"
          ∷ " * node binding, add this key to provide a quick low-cost judgement\n"
          ∷ " * of the situation.\n" ∷ " */\n"
          ∷ "DEFINE_STATIC_KEY_FALSE(cpusets_insane_config_key);\n" ∷ "\n"
          ∷ "/* See \"Frequency meter\" comments, below. */" ∷ [])
        true
    ∷ step "kernel/cgroup/cpuset.c"
        ("static DECLARE_WAIT_QUEUE_HEAD(cpuset_attach_wq);\n" ∷ "\n" ∷ "/*\n"
          ∷ " * Cgroup v2 behavior is used on the \"cpus\" and \"mems\" control files when" ∷ [])
        ("static DECLARE_WAIT_QUEUE_HEAD(cpuset_attach_wq);\n" ∷ "\n"
          ∷ "static inline void check_insane_mems_config(nodemask_t *nodes)\n" ∷ "{\n"
          ∷ "\tif (!cpusets_insane_config() &&\n" ∷ "\t\tmovable_only_nodes(nodes)) {\n"
          ∷ "\t\tstatic_branch_enable_cpuslocked(&cpusets_insane_config_key);\n"
          ∷ "\t\tpr_info(\"Unsupported (movable nodes only) cpuset configuration detected (nmask=%*pbl)!\\n\"\n"
          ∷ "\t\t\t\"Cpuset allocations might fail even with a lot of memory available.\\n\",\n"
          ∷ "\t\t\tnodemask_pr_args(nodes));\n" ∷ "\t}\n" ∷ "}\n" ∷ "\n" ∷ "/*\n"
          ∷ " * Cgroup v2 behavior is used on the \"cpus\" and \"mems\" control files when" ∷ [])
        true
    ∷ step "kernel/cgroup/cpuset.c"
        ("\tif (retval < 0)\n" ∷ "\t\tgoto done;\n" ∷ "\n" ∷ "\tspin_lock_irq(&callback_lock);\n"
          ∷ "\tcs->mems_allowed = trialcs->mems_allowed;" ∷ [])
        ("\tif (retval < 0)\n" ∷ "\t\tgoto done;\n" ∷ "\n"
          ∷ "\tcheck_insane_mems_config(&trialcs->mems_allowed);\n" ∷ "\n"
          ∷ "\tspin_lock_irq(&callback_lock);\n" ∷ "\tcs->mems_allowed = trialcs->mems_allowed;"
          ∷ [])
        true
    ∷ step "kernel/cgroup/cpuset.c"
        ("\tmems_updated = !nodes_equal(new_mems, cs->effective_mems);\n" ∷ "\n"
          ∷ "\tif (is_in_v2_mode())" ∷ [])
        ("\tmems_updated = !nodes_equal(new_mems, cs->effective_mems);\n" ∷ "\n"
          ∷ "\tif (mems_updated)\n" ∷ "\t\tcheck_insane_mems_config(&new_mems);\n" ∷ "\n"
          ∷ "\tif (is_in_v2_mode())" ∷ [])
        true
    ∷ step "mm/page_alloc.c"
        ("\tif (!ac->preferred_zoneref->zone)\n" ∷ "\t\tgoto nopage;\n" ∷ "\n"
          ∷ "\tif (alloc_flags & ALLOC_KSWAPD)\n" ∷ "\t\twake_all_kswapds(order, gfp_mask, ac);"
          ∷ [])
        ("\tif (!ac->preferred_zoneref->zone)\n" ∷ "\t\tgoto nopage;\n" ∷ "\n" ∷ "\t/*\n"
          ∷ "\t * Check for insane configurations where the cpuset doesn't contain\n"
          ∷ "\t * any suitable zone to satisfy the request - e.g. non-movable\n"
          ∷ "\t * GFP_HIGHUSER allocations from MOVABLE nodes only.\n" ∷ "\t */\n"
          ∷ "\tif (cpusets_insane_config() && (gfp_mask & __GFP_HARDWALL)) {\n"
          ∷ "\t\tstruct zoneref *z = first_zones_zonelist(ac->zonelist,\n"
          ∷ "\t\t\t\t\tac->highest_zoneidx,\n" ∷ "\t\t\t\t\t&cpuset_current_mems_allowed);\n"
          ∷ "\t\tif (!z->zone)\n" ∷ "\t\t\tgoto nopage;\n" ∷ "\t}\n" ∷ "\n"
          ∷ "\tif (alloc_flags & ALLOC_KSWAPD)\n" ∷ "\t\twake_all_kswapds(order, gfp_mask, ac);"
          ∷ [])
        true
    ∷ []

unfoldable pub cpuset_bailout : StepSpec
cpuset_bailout = record {
  key = codes "pagealloc_cpuset_bailout";
  summary = block ("bail out early when cpuset forbids every suitable zone (5.15.191" ∷ ")" ∷ []);
  commits = (codes "c635a42d9b74 (5.15.191)") ∷ [];
  files =
      (codes "include/linux/cpuset.h")
      ∷ (codes "include/linux/mmzone.h")
      ∷ (codes "kernel/cgroup/cpuset.c")
      ∷ (codes "mm/page_alloc.c")
      ∷ [];
  steps = cpuset_bailout_steps;
}

-- The steps of `_pagelist_lockfree_apply`.
unfoldable pub pagelist_lockfree_steps : List Step
pagelist_lockfree_steps =
    step "mm/page_alloc.c"
      ("\tint old_percpu_pagelist_high_fraction;\n" ∷ "\tint ret;\n" ∷ "\n"
        ∷ "\tmutex_lock(&pcp_batch_high_lock);\n"
        ∷ "\told_percpu_pagelist_high_fraction = percpu_pagelist_high_fraction;\n" ∷ "\n"
        ∷ "\tret = proc_dointvec_minmax(table, write, buffer, length, ppos);\n"
        ∷ "\tif (!write || ret < 0)\n" ∷ "\t\tgoto out;\n" ∷ "\n"
        ∷ "\t/* Sanity checking to avoid pcp imbalance */\n" ∷ [])
      ("\tint old_percpu_pagelist_high_fraction;\n" ∷ "\tint ret;\n" ∷ "\n" ∷ "\t/*\n"
        ∷ "\t * Avoid using pcp_batch_high_lock for reads as the value is read\n"
        ∷ "\t * atomically and a race with offlining is harmless.\n" ∷ "\t */\n" ∷ "\n"
        ∷ "\tif (!write)\n"
        ∷ "\t\treturn proc_dointvec_minmax(table, write, buffer, length, ppos);\n" ∷ "\n"
        ∷ "\tmutex_lock(&pcp_batch_high_lock);\n"
        ∷ "\told_percpu_pagelist_high_fraction = percpu_pagelist_high_fraction;\n" ∷ "\n"
        ∷ "\tret = proc_dointvec_minmax(table, write, buffer, length, ppos);\n" ∷ "\tif (ret < 0)\n"
        ∷ "\t\tgoto out;\n" ∷ "\n" ∷ "\t/* Sanity checking to avoid pcp imbalance */\n" ∷ [])
      true
    ∷ []

unfoldable pub pagelist_lockfree : StepSpec
pagelist_lockfree = record {
  key = codes "pagealloc_high_fraction_lockfree";
  summary =
      block
        ("percpu_pagelist_high_fraction reads without pcp_batch_high_lock " ∷ "(5.15.200)" ∷ []);
  commits = (codes "eda99622e6f3 (5.15.200)") ∷ [];
  files = (codes "mm/page_alloc.c") ∷ [];
  steps = pagelist_lockfree_steps;
}

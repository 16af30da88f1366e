-- ===== src/Core/MemcgReclaim/MemcgReclaim3.antt =====
-- Steps 3 of 3 of `_memcg_reclaim_apply` of scripts/abk_stable_core.py.
use abk_5_15_backport.Prelude.{true, List, [], ◌∷◌}
use abk_5_15_backport.Steps.{Step, step}

unfoldable pub memcg_reclaim_steps_3 : List Step
memcg_reclaim_steps_3 =
    step "mm/memcontrol.c" ("static struct cftype memory_files[] = {" ∷ [])
      ("/* ABK stable_515_backport: per-memcg proactive reclaim (android14-6.1 memory.reclaim). */\n"
        ∷ "static ssize_t memory_reclaim(struct kernfs_open_file *of, char *buf,\n"
        ∷ "\t\t\t      size_t nbytes, loff_t off)\n" ∷ "{\n"
        ∷ "\tstruct mem_cgroup *memcg = mem_cgroup_from_css(of_css(of));\n"
        ∷ "\tunsigned int nr_retries = MAX_RECLAIM_RETRIES;\n"
        ∷ "\tunsigned long nr_to_reclaim, nr_reclaimed = 0;\n" ∷ "\tunsigned int reclaim_options;\n"
        ∷ "\tint err;\n" ∷ "\n" ∷ "\tbuf = strstrip(buf);\n"
        ∷ "\terr = page_counter_memparse(buf, \"\", &nr_to_reclaim);\n" ∷ "\tif (err)\n"
        ∷ "\t\treturn err;\n" ∷ "\n"
        ∷ "\treclaim_options\t= MEMCG_RECLAIM_MAY_SWAP | MEMCG_RECLAIM_PROACTIVE;\n"
        ∷ "\twhile (nr_reclaimed < nr_to_reclaim) {\n" ∷ "\t\tunsigned long reclaimed;\n" ∷ "\n"
        ∷ "\t\tif (signal_pending(current))\n" ∷ "\t\t\treturn -EINTR;\n" ∷ "\n" ∷ "\t\t/*\n"
        ∷ "\t\t * This is the final attempt, drain percpu lru caches in the\n"
        ∷ "\t\t * hope of introducing more evictable pages for\n"
        ∷ "\t\t * try_to_free_mem_cgroup_pages().\n" ∷ "\t\t */\n" ∷ "\t\tif (!nr_retries)\n"
        ∷ "\t\t\tlru_add_drain_all();\n" ∷ "\n"
        ∷ "\t\treclaimed = try_to_free_mem_cgroup_pages(memcg,\n"
        ∷ "\t\t\t\t\t\tnr_to_reclaim - nr_reclaimed,\n"
        ∷ "\t\t\t\t\t\tGFP_KERNEL, reclaim_options);\n" ∷ "\n"
        ∷ "\t\tif (!reclaimed && !nr_retries--)\n" ∷ "\t\t\treturn -EAGAIN;\n" ∷ "\n"
        ∷ "\t\tnr_reclaimed += reclaimed;\n" ∷ "\t}\n" ∷ "\n" ∷ "\treturn nbytes;\n" ∷ "}\n" ∷ "\n"
        ∷ "static struct cftype memory_files[] = {" ∷ [])
      true
    ∷ step "mm/memcontrol.c"
        ("\t{\n" ∷ "\t\t.name = \"oom.group\",\n"
          ∷ "\t\t.flags = CFTYPE_NOT_ON_ROOT | CFTYPE_NS_DELEGATABLE,\n"
          ∷ "\t\t.seq_show = memory_oom_group_show,\n" ∷ "\t\t.write = memory_oom_group_write,\n"
          ∷ "\t},\n" ∷ "\t{ }\t/* terminate */" ∷ [])
        ("\t{\n" ∷ "\t\t.name = \"oom.group\",\n"
          ∷ "\t\t.flags = CFTYPE_NOT_ON_ROOT | CFTYPE_NS_DELEGATABLE,\n"
          ∷ "\t\t.seq_show = memory_oom_group_show,\n" ∷ "\t\t.write = memory_oom_group_write,\n"
          ∷ "\t},\n" ∷ "\t{\n" ∷ "\t\t.name = \"reclaim\",\n"
          ∷ "\t\t.flags = CFTYPE_NS_DELEGATABLE,\n" ∷ "\t\t.write = memory_reclaim,\n" ∷ "\t},\n"
          ∷ "\t{ }\t/* terminate */" ∷ [])
        true
    ∷ step "Documentation/admin-guide/cgroup-v2.rst"
        ("\tutility is limited to providing the final safety net.\n" ∷ "\n" ∷ "  memory.oom.group\n"
          ∷ [])
        ("\tutility is limited to providing the final safety net.\n" ∷ "\n" ∷ "  memory.reclaim\n"
          ∷ "\tA write-only nested-keyed file which exists for all cgroups.\n" ∷ "\n"
          ∷ "\tThis is a simple interface to trigger memory reclaim in the\n" ∷ "\ttarget cgroup.\n"
          ∷ "\n" ∷ "\tThis file accepts a single key, the number of bytes to reclaim.\n"
          ∷ "\tNo nested keys are currently supported.\n" ∷ "\n" ∷ "\tExample::\n" ∷ "\n"
          ∷ "\t  echo \"1G\" > memory.reclaim\n" ∷ "\n"
          ∷ "\tThe interface can be later extended with nested keys to\n"
          ∷ "\tconfigure the reclaim behavior. For example, specify the\n"
          ∷ "\ttype of memory to reclaim from (anon, file, ..).\n" ∷ "\n"
          ∷ "\tPlease note that the kernel can over or under reclaim from\n"
          ∷ "\tthe target cgroup. If less bytes are reclaimed than the\n"
          ∷ "\tspecified amount, -EAGAIN is returned.\n" ∷ "\n" ∷ "  memory.oom.group\n" ∷ [])
        true
    ∷ []

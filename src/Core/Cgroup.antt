-- ===== src/Core/Cgroup.antt =====
-- Control group groups of scripts/abk_stable_core.py.
use abk_5_15_backport.Prelude.{true, List, [], ◌∷◌}
use abk_5_15_backport.Text.{codes, block}
use abk_5_15_backport.Steps.{Step, step}
use abk_5_15_backport.Groups.Guard.{StepSpec}

-- The steps of `_cgroup_rcu_apply`.
unfoldable pub cgroup_rcu_steps : List Step
cgroup_rcu_steps =
    step "include/linux/cgroup-defs.h"
      ("\n" ∷ "\t/* A list running through the active hierarchies */\n"
        ∷ "\tstruct list_head root_list;\n" ∷ "\n" ∷ "\t/* Hierarchy-specific flags */" ∷ [])
      ("\n" ∷ "\t/* A list running through the active hierarchies */\n"
        ∷ "\tstruct list_head root_list;\n" ∷ "\tstruct rcu_head rcu;\n" ∷ "\n"
        ∷ "\t/* Hierarchy-specific flags */" ∷ [])
      true
    ∷ step "kernel/cgroup/cgroup-internal.h"
        ("#define for_each_root(root)\t\t\t\t\t\t\\\n"
          ∷ "\tlist_for_each_entry((root), &cgroup_roots, root_list)" ∷ [])
        ("#define for_each_root(root)\t\t\t\t\t\t\\\n"
          ∷ "\tlist_for_each_entry_rcu((root), &cgroup_roots, root_list,\t\\\n"
          ∷ "\t\t\t\tlockdep_is_held(&cgroup_mutex))" ∷ [])
        true
    ∷ step "kernel/cgroup/cgroup.c"
        ("void cgroup_free_root(struct cgroup_root *root)\n" ∷ "{\n" ∷ "\tkfree(root);\n" ∷ "}"
          ∷ [])
        ("void cgroup_free_root(struct cgroup_root *root)\n" ∷ "{\n" ∷ "\tkfree_rcu(root, rcu);\n"
          ∷ "}" ∷ [])
        true
    ∷ step "kernel/cgroup/cgroup.c"
        ("\tif (!list_empty(&root->root_list)) {\n" ∷ "\t\tlist_del(&root->root_list);\n"
          ∷ "\t\tcgroup_root_count--;\n" ∷ "\t}" ∷ [])
        ("\tif (!list_empty(&root->root_list)) {\n" ∷ "\t\tlist_del_rcu(&root->root_list);\n"
          ∷ "\t\tcgroup_root_count--;\n" ∷ "\t}" ∷ [])
        true
    ∷ step "kernel/cgroup/cgroup.c"
        ("\t}\n" ∷ "\trcu_read_unlock();\n" ∷ "\n" ∷ "\tBUG_ON(!res);\n" ∷ "\treturn res;\n" ∷ "}"
          ∷ [])
        ("\t}\n" ∷ "\trcu_read_unlock();\n" ∷ "\n" ∷ "\treturn res;\n" ∷ "}" ∷ []) true
    ∷ step "kernel/cgroup/cgroup.c"
        ("\tstruct cgroup *res = NULL;\n" ∷ "\n" ∷ "\tlockdep_assert_held(&cgroup_mutex);\n"
          ∷ "\tlockdep_assert_held(&css_set_lock);" ∷ [])
        ("\tstruct cgroup *res = NULL;\n" ∷ "\n" ∷ "\tlockdep_assert_held(&css_set_lock);" ∷ [])
        true
    ∷ step "kernel/cgroup/cgroup.c"
        ("/*\n" ∷ " * Return the cgroup for \"task\" from the given hierarchy. Must be\n"
          ∷ " * called with cgroup_mutex and css_set_lock held.\n" ∷ " */" ∷ [])
        ("/*\n" ∷ " * Return the cgroup for \"task\" from the given hierarchy. Must be\n"
          ∷ " * called with css_set_lock held to prevent task's groups from being modified.\n"
          ∷ " * Must be called with either cgroup_mutex or rcu read lock to prevent the\n"
          ∷ " * cgroup root from being destroyed.\n" ∷ " */" ∷ [])
        true
    ∷ step "kernel/cgroup/cgroup.c"
        ("\tINIT_LIST_HEAD(&root->root_list);\n" ∷ "\tatomic_set(&root->nr_cgrps, 1);" ∷ [])
        ("\tINIT_LIST_HEAD_RCU(&root->root_list);\n" ∷ "\tatomic_set(&root->nr_cgrps, 1);" ∷ [])
        true
    ∷ step "kernel/cgroup/cgroup.c"
        ("\tlist_add(&root->root_list, &cgroup_roots);\n" ∷ "\tcgroup_root_count++;" ∷ [])
        ("\tlist_add_rcu(&root->root_list, &cgroup_roots);\n" ∷ "\tcgroup_root_count++;" ∷ []) true
    ∷ []

unfoldable pub cgroup_rcu : StepSpec
cgroup_rcu = record {
  key = codes "cgroup_root_list_rcu";
  summary = block ("cgroup root_list traversal and teardown become RCU-safe (5.15.16" ∷ "8)" ∷ []);
  commits = (codes "de77545c72c4 (5.15.168)") ∷ [];
  files =
      (codes "include/linux/cgroup-defs.h")
      ∷ (codes "kernel/cgroup/cgroup-internal.h")
      ∷ (codes "kernel/cgroup/cgroup.c")
      ∷ [];
  steps = cgroup_rcu_steps;
}

-- The steps of `_cgroup_wq_split_apply`.
unfoldable pub cgroup_wq_split_steps : List Step
cgroup_wq_split_steps =
    step "kernel/cgroup/cgroup.c"
      (" * of concurrent destructions.  Use a separate workqueue so that cgroup\n"
        ∷ " * destruction work items don't end up filling up max_active of system_wq\n"
        ∷ " * which may lead to deadlock.\n" ∷ " */\n"
        ∷ "static struct workqueue_struct *cgroup_destroy_wq;" ∷ [])
      (" * of concurrent destructions.  Use a separate workqueue so that cgroup\n"
        ∷ " * destruction work items don't end up filling up max_active of system_wq\n"
        ∷ " * which may lead to deadlock.\n" ∷ " *\n"
        ∷ " * A cgroup destruction should enqueue work sequentially to:\n"
        ∷ " * cgroup_offline_wq: use for css offline work\n"
        ∷ " * cgroup_release_wq: use for css release work\n"
        ∷ " * cgroup_free_wq: use for free work\n" ∷ " *\n"
        ∷ " * Rationale for using separate workqueues:\n"
        ∷ " * The cgroup root free work may depend on completion of other css offline\n"
        ∷ " * operations. If all tasks were enqueued to a single workqueue, this could\n"
        ∷ " * create a deadlock scenario where:\n"
        ∷ " * - Free work waits for other css offline work to complete.\n"
        ∷ " * - But other css offline work is queued after free work in the same queue.\n" ∷ " *\n"
        ∷ " * Example deadlock scenario with single workqueue (cgroup_destroy_wq):\n"
        ∷ " * 1. umount net_prio\n"
        ∷ " * 2. net_prio root destruction enqueues work to cgroup_destroy_wq (CPUx)\n"
        ∷ " * 3. perf_event CSS A offline enqueues work to same cgroup_destroy_wq (CPUx)\n"
        ∷ " * 4. net_prio cgroup_destroy_root->cgroup_lock_and_drain_offline.\n"
        ∷ " * 5. net_prio root destruction blocks waiting for perf_event CSS A offline,\n"
        ∷ " *    which can never complete as it's behind in the same queue and\n"
        ∷ " *    workqueue's max_active is 1.\n" ∷ " */\n"
        ∷ "static struct workqueue_struct *cgroup_offline_wq;\n"
        ∷ "static struct workqueue_struct *cgroup_release_wq;\n"
        ∷ "static struct workqueue_struct *cgroup_free_wq;" ∷ [])
      true
    ∷ step "kernel/cgroup/cgroup.c"
        ("\tINIT_RCU_WORK(&css->destroy_rwork, css_free_rwork_fn);\n"
          ∷ "\tqueue_rcu_work(cgroup_destroy_wq, &css->destroy_rwork);\n" ∷ "}\n" ∷ "\n"
          ∷ "static void css_release(struct percpu_ref *ref)" ∷ [])
        ("\tINIT_RCU_WORK(&css->destroy_rwork, css_free_rwork_fn);\n"
          ∷ "\tqueue_rcu_work(cgroup_free_wq, &css->destroy_rwork);\n" ∷ "}\n" ∷ "\n"
          ∷ "static void css_release(struct percpu_ref *ref)" ∷ [])
        true
    ∷ step "kernel/cgroup/cgroup.c"
        ("\tINIT_WORK(&css->destroy_work, css_release_work_fn);\n"
          ∷ "\tqueue_work(cgroup_destroy_wq, &css->destroy_work);\n" ∷ "}\n" ∷ "\n"
          ∷ "static void init_and_link_css(struct cgroup_subsys_state *css," ∷ [])
        ("\tINIT_WORK(&css->destroy_work, css_release_work_fn);\n"
          ∷ "\tqueue_work(cgroup_release_wq, &css->destroy_work);\n" ∷ "}\n" ∷ "\n"
          ∷ "static void init_and_link_css(struct cgroup_subsys_state *css," ∷ [])
        true
    ∷ step "kernel/cgroup/cgroup.c"
        ("\tlist_del_rcu(&css->rstat_css_node);\n"
          ∷ "\tINIT_RCU_WORK(&css->destroy_rwork, css_free_rwork_fn);\n"
          ∷ "\tqueue_rcu_work(cgroup_destroy_wq, &css->destroy_rwork);\n" ∷ "\treturn ERR_PTR(err);"
          ∷ [])
        ("\tlist_del_rcu(&css->rstat_css_node);\n"
          ∷ "\tINIT_RCU_WORK(&css->destroy_rwork, css_free_rwork_fn);\n"
          ∷ "\tqueue_rcu_work(cgroup_free_wq, &css->destroy_rwork);\n" ∷ "\treturn ERR_PTR(err);"
          ∷ [])
        true
    ∷ step "kernel/cgroup/cgroup.c"
        ("\t\tINIT_WORK(&css->destroy_work, css_killed_work_fn);\n"
          ∷ "\t\tqueue_work(cgroup_destroy_wq, &css->destroy_work);" ∷ [])
        ("\t\tINIT_WORK(&css->destroy_work, css_killed_work_fn);\n"
          ∷ "\t\tqueue_work(cgroup_offline_wq, &css->destroy_work);" ∷ [])
        true
    ∷ step "kernel/cgroup/cgroup.c"
        ("\tcgroup_destroy_wq = alloc_workqueue(\"cgroup_destroy\", 0, 1);\n"
          ∷ "\tBUG_ON(!cgroup_destroy_wq);\n" ∷ "\treturn 0;\n" ∷ "}\n"
          ∷ "core_initcall(cgroup_wq_init);" ∷ [])
        ("\tcgroup_offline_wq = alloc_workqueue(\"cgroup_offline\", 0, 1);\n"
          ∷ "\tBUG_ON(!cgroup_offline_wq);\n" ∷ "\n"
          ∷ "\tcgroup_release_wq = alloc_workqueue(\"cgroup_release\", 0, 1);\n"
          ∷ "\tBUG_ON(!cgroup_release_wq);\n" ∷ "\n"
          ∷ "\tcgroup_free_wq = alloc_workqueue(\"cgroup_free\", 0, 1);\n"
          ∷ "\tBUG_ON(!cgroup_free_wq);\n" ∷ "\treturn 0;\n" ∷ "}\n"
          ∷ "core_initcall(cgroup_wq_init);" ∷ [])
        true
    ∷ []

unfoldable pub cgroup_wq_split : StepSpec
cgroup_wq_split = record {
  key = codes "cgroup_destroy_wq_split";
  summary =
      block ("split cgroup_destroy_wq into offline/release/free workqueues (5." ∷ "15.194)" ∷ []);
  commits = (codes "f2795d1b9250 (5.15.194)") ∷ [];
  files = (codes "kernel/cgroup/cgroup.c") ∷ [];
  steps = cgroup_wq_split_steps;
}

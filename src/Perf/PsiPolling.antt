-- ===== src/Perf/PsiPolling.antt =====
-- The pressure stall polling group of scripts/abk_stable_perf.py.
use abk_5_15_backport.Prelude.{true, List, [], ◌∷◌}
use abk_5_15_backport.Text.{codes, block}
use abk_5_15_backport.Steps.{Step, step}
use abk_5_15_backport.Groups.Guard.{StepSpec}

-- The steps of `_psi_kernfs_polling_apply`.
unfoldable pub psi_kernfs_polling_steps : List Step
psi_kernfs_polling_steps =
    step "include/linux/psi_types.h"
      ("\t/*\n" ∷ "\t * Time last event was generated. Used for rate-limiting\n"
        ∷ "\t * events to one per window\n" ∷ "\t */\n" ∷ "\tu64 last_event_time;\n" ∷ "};" ∷ [])
      ("\t/*\n" ∷ "\t * Time last event was generated. Used for rate-limiting\n"
        ∷ "\t * events to one per window\n" ∷ "\t */\n" ∷ "\tu64 last_event_time;\n" ∷ "\n"
        ∷ "\t/* ABK stable_515_backport: deferred event(s) from the previous ratelimit window (android14-6.1). */\n"
        ∷ "\tbool pending_event;\n" ∷ "};" ∷ [])
      true
    ∷ step "include/linux/psi_types.h"
        ("enum poll_wakeup_bits {\n" ∷ "\tPOLL_WAKEUP\t= 0,\n" ∷ "\tPOLL_SCHEDULED\t= 1,\n" ∷ "};"
          ∷ [])
        ("enum poll_wakeup_bits {\n" ∷ "\tPOLL_WAKEUP\t= 0,\n" ∷ "\tPOLL_SCHEDULED\t= 1,\n" ∷ "};\n"
          ∷ "\n"
          ∷ "/* ABK stable_515_backport: kernfs polling wrapper for cgroup triggers (android14-6.1). */\n"
          ∷ "struct psi_trigger_ext {\n" ∷ "\tstruct psi_trigger trigger;\n" ∷ "\n"
          ∷ "\t/* Kernfs file for cgroup triggers */\n" ∷ "\tstruct kernfs_open_file *of;\n" ∷ "};"
          ∷ [])
        true
    ∷ step "include/linux/psi.h"
        ("struct psi_trigger *psi_trigger_create(struct psi_group *group,\n"
          ∷ "\t\t\tchar *buf, size_t nbytes, enum psi_res res);" ∷ [])
        ("/* ABK stable_515_backport: kernfs-aware trigger creation (android14-6.1). */\n"
          ∷ "struct psi_trigger *psi_trigger_create(struct psi_group *group, char *buf,\n"
          ∷ "\t\t\t\t       enum psi_res res, struct file *file,\n"
          ∷ "\t\t\t\t       struct kernfs_open_file *of);" ∷ [])
        true
    ∷ step "kernel/sched/psi.c"
        ("/* PSI trigger definitions */\n"
          ∷ "#define WINDOW_MIN_US 500000\t/* Min window size is 500ms */\n"
          ∷ "#define WINDOW_MAX_US 10000000\t/* Max window size is 10s */" ∷ [])
        ("/* PSI trigger definitions */\n"
          ∷ "/* ABK stable_515_backport: windows may start at 1us (android14-6.1). */\n"
          ∷ "#define WINDOW_MAX_US 10000000\t/* Max window size is 10s */" ∷ [])
        true
    ∷ step "kernel/sched/psi.c"
        ("\tif (window_us < WINDOW_MIN_US ||\n" ∷ "\t\twindow_us > WINDOW_MAX_US)\n"
          ∷ "\t\treturn ERR_PTR(-EINVAL);" ∷ [])
        ("\tif (window_us == 0 || window_us > WINDOW_MAX_US)\n" ∷ "\t\treturn ERR_PTR(-EINVAL);"
          ∷ [])
        true
    ∷ step "kernel/sched/psi.c"
        ("struct psi_trigger *psi_trigger_create(struct psi_group *group,\n"
          ∷ "\t\t\tchar *buf, size_t nbytes, enum psi_res res)\n" ∷ "{\n"
          ∷ "\tstruct psi_trigger *t;" ∷ [])
        ("struct psi_trigger *psi_trigger_create(struct psi_group *group, char *buf,\n"
          ∷ "\t\t\t\t       enum psi_res res, struct file *file,\n"
          ∷ "\t\t\t\t       struct kernfs_open_file *of)\n" ∷ "{\n"
          ∷ "\tstruct psi_trigger_ext *t_ext;\n" ∷ "\tstruct psi_trigger *t;" ∷ [])
        true
    ∷ step "kernel/sched/psi.c"
        ("\tt = kmalloc(sizeof(*t), GFP_KERNEL);\n" ∷ "\tif (!t)\n" ∷ "\t\treturn ERR_PTR(-ENOMEM);"
          ∷ [])
        ("\tt_ext = kmalloc(sizeof(*t_ext), GFP_KERNEL);\n" ∷ "\tif (!t_ext)\n"
          ∷ "\t\treturn ERR_PTR(-ENOMEM);\n" ∷ "\tt = &t_ext->trigger;" ∷ [])
        true
    ∷ step "kernel/sched/psi.c"
        ("\twindow_reset(&t->win, 0, 0, 0);\n" ∷ "\n" ∷ "\tt->event = 0;\n"
          ∷ "\tt->last_event_time = 0;\n" ∷ "\tinit_waitqueue_head(&t->event_wait);" ∷ [])
        ("\twindow_reset(&t->win, sched_clock(),\n"
          ∷ "\t\t\tgroup->total[PSI_POLL][t->state], 0);\n" ∷ "\n" ∷ "\tt->event = 0;\n"
          ∷ "\tt->last_event_time = 0;\n" ∷ "\tt_ext->of = of;\n" ∷ "\tif (!of)\n"
          ∷ "\t\tinit_waitqueue_head(&t->event_wait);\n" ∷ "\tt->pending_event = false;" ∷ [])
        true
    ∷ step "kernel/sched/psi.c"
        ("\t\ttask = kthread_create(psi_poll_worker, group, \"psimon\");\n"
          ∷ "\t\tif (IS_ERR(task)) {\n" ∷ "\t\t\tkfree(t);\n"
          ∷ "\t\t\tmutex_unlock(&group->trigger_lock);" ∷ [])
        ("\t\ttask = kthread_create(psi_poll_worker, group, \"psimon\");\n"
          ∷ "\t\tif (IS_ERR(task)) {\n" ∷ "\t\t\tkfree(t_ext);\n"
          ∷ "\t\t\tmutex_unlock(&group->trigger_lock);" ∷ [])
        true
    ∷ step "kernel/sched/psi.c"
        ("static u64 update_triggers(struct psi_group *group, u64 now)\n" ∷ "{\n"
          ∷ "\tstruct psi_trigger *t;\n" ∷ "\tbool new_stall = false;\n"
          ∷ "\tu64 *total = group->total[PSI_POLL];" ∷ [])
        ("static u64 update_triggers(struct psi_group *group, u64 now)\n" ∷ "{\n"
          ∷ "\tstruct psi_trigger *t;\n" ∷ "\tbool update_total = false;\n"
          ∷ "\tu64 *total = group->total[PSI_POLL];" ∷ [])
        true
    ∷ step "kernel/sched/psi.c"
        ("\tlist_for_each_entry(t, &group->triggers, node) {\n" ∷ "\t\tu64 growth;\n" ∷ "\n"
          ∷ "\t\t/* Check for stall activity */\n"
          ∷ "\t\tif (group->polling_total[t->state] == total[t->state])\n" ∷ "\t\t\tcontinue;\n"
          ∷ "\n" ∷ "\t\t/*\n" ∷ "\t\t * Multiple triggers might be looking at the same state,\n"
          ∷ "\t\t * remember to update group->polling_total[] once we've\n"
          ∷ "\t\t * been through all of them. Also remember to extend the\n"
          ∷ "\t\t * polling time if we see new stall activity.\n" ∷ "\t\t */\n"
          ∷ "\t\tnew_stall = true;\n" ∷ "\n" ∷ "\t\t/* Calculate growth since last update */\n"
          ∷ "\t\tgrowth = window_update(&t->win, now, total[t->state]);\n"
          ∷ "\t\tif (growth < t->threshold)\n" ∷ "\t\t\tcontinue;\n" ∷ "\n"
          ∷ "\t\t/* Limit event signaling to once per window */\n"
          ∷ "\t\tif (now < t->last_event_time + t->win.size)\n" ∷ "\t\t\tcontinue;" ∷ [])
        ("\tlist_for_each_entry(t, &group->triggers, node) {\n" ∷ "\t\tu64 growth;\n"
          ∷ "\t\tbool new_stall;\n" ∷ "\n"
          ∷ "\t\tnew_stall = group->polling_total[t->state] != total[t->state];\n" ∷ "\n"
          ∷ "\t\t/* Check for stall activity or a previous threshold breach */\n"
          ∷ "\t\tif (!new_stall && !t->pending_event)\n" ∷ "\t\t\tcontinue;\n" ∷ "\t\t/*\n"
          ∷ "\t\t * Check for new stall activity, as well as deferred\n"
          ∷ "\t\t * events that occurred in the last window after the\n"
          ∷ "\t\t * trigger had already fired (we want to ratelimit\n"
          ∷ "\t\t * events without dropping any).\n" ∷ "\t\t */\n" ∷ "\t\tif (new_stall) {\n"
          ∷ "\t\t\t/*\n" ∷ "\t\t\t * Multiple triggers might be looking at the same state,\n"
          ∷ "\t\t\t * remember to update group->polling_total[] once we've\n"
          ∷ "\t\t\t * been through all of them. Also remember to extend the\n"
          ∷ "\t\t\t * polling time if we see new stall activity.\n" ∷ "\t\t\t */\n"
          ∷ "\t\t\tupdate_total = true;\n" ∷ "\n"
          ∷ "\t\t\t/* Calculate growth since last update */\n"
          ∷ "\t\t\tgrowth = window_update(&t->win, now, total[t->state]);\n"
          ∷ "\t\t\tif (!t->pending_event) {\n" ∷ "\t\t\t\tif (growth < t->threshold)\n"
          ∷ "\t\t\t\t\tcontinue;\n" ∷ "\n" ∷ "\t\t\t\tt->pending_event = true;\n" ∷ "\t\t\t}\n"
          ∷ "\t\t}\n" ∷ "\t\t/* Limit event signaling to once per window */\n"
          ∷ "\t\tif (now < t->last_event_time + t->win.size)\n" ∷ "\t\t\tcontinue;" ∷ [])
        true
    ∷ step "kernel/sched/psi.c"
        ("\t\t/* Generate an event */\n" ∷ "\t\tif (cmpxchg(&t->event, 0, 1) == 0)\n"
          ∷ "\t\t\twake_up_interruptible(&t->event_wait);\n" ∷ "\t\tt->last_event_time = now;\n"
          ∷ "\t}" ∷ [])
        ("\t\t/* Generate an event */\n" ∷ "\t\tif (cmpxchg(&t->event, 0, 1) == 0) {\n"
          ∷ "\t\t\tstruct psi_trigger_ext *t_ext;\n" ∷ "\n"
          ∷ "\t\t\tt_ext = container_of(t, struct psi_trigger_ext, trigger);\n"
          ∷ "\t\t\tif (t_ext->of)\n" ∷ "\t\t\t\tkernfs_notify(t_ext->of->kn);\n" ∷ "\t\t\telse\n"
          ∷ "\t\t\t\twake_up_interruptible(&t->event_wait);\n" ∷ "\t\t}\n"
          ∷ "\t\tt->last_event_time = now;\n"
          ∷ "\t\t/* Reset threshold breach flag once event got generated */\n"
          ∷ "\t\tt->pending_event = false;\n" ∷ "\t}" ∷ [])
        true
    ∷ step "kernel/sched/psi.c"
        ("\tif (new_stall)\n" ∷ "\t\tmemcpy(group->polling_total, total,\n"
          ∷ "\t\t\t\tsizeof(group->polling_total));" ∷ [])
        ("\tif (update_total)\n" ∷ "\t\tmemcpy(group->polling_total, total,\n"
          ∷ "\t\t\t\tsizeof(group->polling_total));" ∷ [])
        true
    ∷ step "kernel/sched/psi.c"
        ("void psi_trigger_destroy(struct psi_trigger *t)\n" ∷ "{\n"
          ∷ "\tstruct psi_group *group;\n" ∷ "\tstruct task_struct *task_to_destroy = NULL;" ∷ [])
        ("void psi_trigger_destroy(struct psi_trigger *t)\n" ∷ "{\n"
          ∷ "\tstruct psi_trigger_ext *t_ext;\n" ∷ "\tstruct psi_group *group;\n"
          ∷ "\tstruct task_struct *task_to_destroy = NULL;" ∷ [])
        true
    ∷ step "kernel/sched/psi.c" ("\twake_up_pollfree(&t->event_wait);" ∷ [])
        ("\tt_ext = container_of(t, struct psi_trigger_ext, trigger);\n" ∷ "\tif (t_ext->of)\n"
          ∷ "\t\tkernfs_notify(t_ext->of->kn);\n" ∷ "\telse\n"
          ∷ "\t\twake_up_interruptible(&t->event_wait);" ∷ [])
        true
    ∷ step "kernel/sched/psi.c"
        ("\t\tkthread_stop(task_to_destroy);\n"
          ∷ "\t\tatomic_clear_bit(POLL_SCHEDULED, &group->poll_wakeup);\n" ∷ "\t}\n"
          ∷ "\tkfree(t);\n" ∷ "}" ∷ [])
        ("\t\tkthread_stop(task_to_destroy);\n"
          ∷ "\t\tatomic_clear_bit(POLL_SCHEDULED, &group->poll_wakeup);\n" ∷ "\t}\n"
          ∷ "\tkfree(t_ext);\n" ∷ "}" ∷ [])
        true
    ∷ step "kernel/sched/psi.c"
        ("\t__poll_t ret = DEFAULT_POLLMASK;\n" ∷ "\tstruct psi_trigger *t;" ∷ [])
        ("\t__poll_t ret = DEFAULT_POLLMASK;\n" ∷ "\tstruct psi_trigger_ext *t_ext;\n"
          ∷ "\tstruct psi_trigger *t;" ∷ [])
        true
    ∷ step "kernel/sched/psi.c"
        ("\tt = smp_load_acquire(trigger_ptr);\n" ∷ "\tif (!t)\n"
          ∷ "\t\treturn DEFAULT_POLLMASK | EPOLLERR | EPOLLPRI;\n" ∷ "\n"
          ∷ "\tpoll_wait(file, &t->event_wait, wait);" ∷ [])
        ("\tt = smp_load_acquire(trigger_ptr);\n" ∷ "\tif (!t)\n"
          ∷ "\t\treturn DEFAULT_POLLMASK | EPOLLERR | EPOLLPRI;\n" ∷ "\n"
          ∷ "\tt_ext = container_of(t, struct psi_trigger_ext, trigger);\n" ∷ "\tif (t_ext->of)\n"
          ∷ "\t\tkernfs_generic_poll(t_ext->of, wait);\n" ∷ "\telse\n"
          ∷ "\t\tpoll_wait(file, &t->event_wait, wait);" ∷ [])
        true
    ∷ step "kernel/sched/psi.c" ("\tnew = psi_trigger_create(&psi_system, buf, nbytes, res);" ∷ [])
        ("\tnew = psi_trigger_create(&psi_system, buf, res, file, NULL);" ∷ []) true
    ∷ step "kernel/cgroup/cgroup.c" ("\tnew = psi_trigger_create(psi, buf, nbytes, res);" ∷ [])
        ("\tnew = psi_trigger_create(psi, buf, res, of->file, of);" ∷ []) true
    ∷ []

unfoldable pub psi_kernfs_polling : StepSpec
psi_kernfs_polling = record {
  key = codes "psi_trigger_kernfs_polling";
  summary = block (
      "PSI trigger events delivered via kernfs polling with deferred-ev"
      ∷ "ent ratelimiting and 1us windows (android14-6.1)" ∷ []);
  commits = (codes "ACK android14-6.1 kernfs PSI polling backport (c1496f6 family)") ∷ [];
  files =
      (codes "include/linux/psi_types.h")
      ∷ (codes "include/linux/psi.h")
      ∷ (codes "kernel/sched/psi.c")
      ∷ (codes "kernel/cgroup/cgroup.c")
      ∷ [];
  steps = psi_kernfs_polling_steps;
}

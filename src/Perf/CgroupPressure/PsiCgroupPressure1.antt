-- ===== src/Perf/CgroupPressure/PsiCgroupPressure1.antt =====
-- Steps 1 of 4 of `_psi_cgroup_pressure_apply` of scripts/abk_stable_perf.py.
use abk_5_15_backport.Prelude.{true, List, [], ◌∷◌}
use abk_5_15_backport.Steps.{Step, step}

unfoldable pub psi_cgroup_pressure_steps_1 : List Step
psi_cgroup_pressure_steps_1 =
    step "include/linux/cgroup-defs.h"
      ("\t/* Control group has to be killed. */\n" ∷ "\tCGRP_KILL,\n" ∷ "};" ∷ [])
      ("\t/* Control group has to be killed. */\n" ∷ "\tCGRP_KILL,\n" ∷ "\n" ∷ "\t/*\n"
        ∷ "\t * ABK stable_515_backport: PSI accounting is switched off for this\n"
        ∷ "\t * cgroup (cgroup.pressure, android14-6.1).  struct psi_group is\n"
        ∷ "\t * embedded in struct cgroup, so the ACK \"enabled\" member cannot be\n"
        ∷ "\t * added to it; a flag bit moves no member.\n" ∷ "\t */\n" ∷ "\tCGRP_PSI_DISABLED,\n"
        ∷ "};" ∷ [])
      true
    ∷ step "include/linux/psi.h"
        ("#ifdef CONFIG_CGROUPS\n" ∷ "int psi_cgroup_alloc(struct cgroup *cgrp);\n"
          ∷ "void psi_cgroup_free(struct cgroup *cgrp);\n"
          ∷ "void cgroup_move_task(struct task_struct *p, struct css_set *to);\n" ∷ "#endif" ∷ [])
        ("#ifdef CONFIG_CGROUPS\n" ∷ "int psi_cgroup_alloc(struct cgroup *cgrp);\n"
          ∷ "void psi_cgroup_free(struct cgroup *cgrp);\n"
          ∷ "void cgroup_move_task(struct task_struct *p, struct css_set *to);\n" ∷ "\n"
          ∷ "/* ABK stable_515_backport: per-cgroup PSI accounting switch\n"
          ∷ " * (cgroup.pressure, android14-6.1).\n" ∷ " */\n"
          ∷ "bool psi_cgroup_accounting_enabled(struct cgroup *cgrp);\n"
          ∷ "void psi_cgroup_accounting_set(struct cgroup *cgrp, bool enable);\n"
          ∷ "void psi_cgroup_restart(struct psi_group *group);\n" ∷ "#endif" ∷ [])
        true
    ∷ step "kernel/sched/psi.c"
        ("static void psi_group_change(struct psi_group *group, int cpu,\n"
          ∷ "\t\t\t     unsigned int clear, unsigned int set, u64 now,\n"
          ∷ "\t\t\t     bool wake_clock)\n" ∷ [])
        ("/* ABK stable_515_backport: per-cgroup PSI accounting switch\n"
          ∷ " * (cgroup.pressure, android14-6.1).  struct psi_group is embedded in\n"
          ∷ " * struct cgroup, so the flag cannot live in the group itself -- a new\n"
          ∷ " * member would move struct cgroup's members.  psi_system has no cgroup\n"
          ∷ " * of its own (the root cgroup's pressure files are backed by it), so the\n"
          ∷ " * root's switch is kept here.\n" ∷ " */\n"
          ∷ "static bool psi_system_accounting_disabled;\n" ∷ "\n"
          ∷ "static bool psi_group_enabled(struct psi_group *group)\n" ∷ "{\n"
          ∷ "#ifdef CONFIG_CGROUPS\n" ∷ "\tif (group != &psi_system)\n"
          ∷ "\t\treturn !test_bit(CGRP_PSI_DISABLED,\n"
          ∷ "\t\t\t\t &container_of(group, struct cgroup, psi)->flags);\n" ∷ "#endif\n"
          ∷ "\treturn !psi_system_accounting_disabled;\n" ∷ "}\n" ∷ "\n"
          ∷ "static void psi_group_change(struct psi_group *group, int cpu,\n"
          ∷ "\t\t\t     unsigned int clear, unsigned int set, u64 now,\n"
          ∷ "\t\t\t     bool wake_clock)\n" ∷ [])
        true
    ∷ step "kernel/sched/psi.c"
        ("\tfor (t = 0; set; set &= ~(1 << t), t++)\n" ∷ "\t\tif (set & (1 << t))\n"
          ∷ "\t\t\tgroupc->tasks[t]++;\n" ∷ "\n"
          ∷ "\t/* Calculate state mask representing active states */\n" ∷ [])
        ("\tfor (t = 0; set; set &= ~(1 << t), t++)\n" ∷ "\t\tif (set & (1 << t))\n"
          ∷ "\t\t\tgroupc->tasks[t]++;\n" ∷ "\n" ∷ "\t/*\n"
          ∷ "\t * ABK stable_515_backport: cgroup.pressure -- with the accounting\n"
          ∷ "\t * switched off, keep the task counts current (the levels above and\n"
          ∷ "\t * below consult them) but stop deriving and timing states.  The\n"
          ∷ "\t * record_times() above already concluded the state that was live when\n"
          ∷ "\t * the switch was turned off.\n" ∷ "\t */\n"
          ∷ "\tif (unlikely(!psi_group_enabled(group))) {\n" ∷ "\t\tgroupc->state_mask = 0;\n"
          ∷ "\n" ∷ "\t\twrite_seqcount_end(&groupc->seq);\n" ∷ "\n" ∷ "\t\treturn;\n" ∷ "\t}\n"
          ∷ "\n" ∷ "\t/* Calculate state mask representing active states */\n" ∷ [])
        true
    ∷ step "kernel/sched/psi.c"
        ("\twhile ((group = iterate_groups(curr, &iter))) {\n" ∷ "\t\tu64 now;\n" ∷ "\n"
          ∷ "\t\tgroupc = per_cpu_ptr(group->pcpu, cpu);\n" ∷ [])
        ("\twhile ((group = iterate_groups(curr, &iter))) {\n" ∷ "\t\tu64 now;\n" ∷ "\n"
          ∷ "\t\tif (!psi_group_enabled(group))\n" ∷ "\t\t\tcontinue;\n" ∷ "\n"
          ∷ "\t\tgroupc = per_cpu_ptr(group->pcpu, cpu);\n" ∷ [])
        true
    ∷ []

-- ===== src/Perf/CgroupPressure/PsiCgroupPressure2.antt =====
-- Steps 2 of 4 of `_psi_cgroup_pressure_apply` of scripts/abk_stable_perf.py.
use abk_5_15_backport.Prelude.{true, List, [], ◌∷◌}
use abk_5_15_backport.Steps.{Step, step}

unfoldable pub psi_cgroup_pressure_steps_2 : List Step
psi_cgroup_pressure_steps_2 =
    step "kernel/sched/psi.c"
      ("\tif (static_branch_likely(&psi_disabled))\n" ∷ "\t\treturn -EOPNOTSUPP;\n" ∷ "\n"
        ∷ "\t/* Update averages before reporting them */\n" ∷ [])
      ("\tif (static_branch_likely(&psi_disabled))\n" ∷ "\t\treturn -EOPNOTSUPP;\n" ∷ "\n"
        ∷ "\t/* ABK stable_515_backport: cgroup.pressure -- a cgroup with the\n"
        ∷ "\t * accounting switched off has no pressure data to report.  5.15 has\n"
        ∷ "\t * no kernfs_show(), so the file stays visible and says so instead of\n"
        ∷ "\t * being hidden with the ACK 6.1 shape.\n" ∷ "\t */\n"
        ∷ "\tif (!psi_group_enabled(group))\n" ∷ "\t\treturn -EOPNOTSUPP;\n" ∷ "\n"
        ∷ "\t/* Update averages before reporting them */\n" ∷ [])
      true
    ∷ step "kernel/sched/psi.c"
        ("\tif (static_branch_likely(&psi_disabled))\n" ∷ "\t\treturn ERR_PTR(-EOPNOTSUPP);\n"
          ∷ "\n" ∷ "\tif (sscanf(buf, \"some %u %u\", &threshold_us, &window_us) == 2)\n" ∷ [])
        ("\tif (static_branch_likely(&psi_disabled))\n" ∷ "\t\treturn ERR_PTR(-EOPNOTSUPP);\n"
          ∷ "\n" ∷ "\t/* ABK stable_515_backport: cgroup.pressure -- a group with the\n"
          ∷ "\t * accounting switched off never grows a state to trigger on.\n" ∷ "\t */\n"
          ∷ "\tif (!psi_group_enabled(group))\n" ∷ "\t\treturn ERR_PTR(-EOPNOTSUPP);\n" ∷ "\n"
          ∷ "\tif (sscanf(buf, \"some %u %u\", &threshold_us, &window_us) == 2)\n" ∷ [])
        true
    ∷ step "kernel/sched/psi.c"
        ("\ttask_rq_unlock(rq, task, &rf);\n" ∷ "}\n" ∷ "#endif /* CONFIG_CGROUPS */" ∷ [])
        ("\ttask_rq_unlock(rq, task, &rf);\n" ∷ "}\n" ∷ "\n"
          ∷ "/* ABK stable_515_backport: cgroup.pressure accessors (android14-6.1).\n"
          ∷ " * The root cgroup's pressure files are backed by psi_system, not by an\n"
          ∷ " * embedded group, so its switch lives in this file rather than in a\n"
          ∷ " * cgroup flag.\n" ∷ " */\n"
          ∷ "bool psi_cgroup_accounting_enabled(struct cgroup *cgrp)\n" ∷ "{\n"
          ∷ "\tif (cgroup_ino(cgrp) == 1)\n" ∷ "\t\treturn !psi_system_accounting_disabled;\n"
          ∷ "\n" ∷ "\treturn !test_bit(CGRP_PSI_DISABLED, &cgrp->flags);\n" ∷ "}\n" ∷ "\n"
          ∷ "void psi_cgroup_accounting_set(struct cgroup *cgrp, bool enable)\n" ∷ "{\n"
          ∷ "\tif (cgroup_ino(cgrp) == 1) {\n" ∷ "\t\tpsi_system_accounting_disabled = !enable;\n"
          ∷ "\t\treturn;\n" ∷ "\t}\n" ∷ "\n" ∷ "\tif (enable)\n"
          ∷ "\t\tclear_bit(CGRP_PSI_DISABLED, &cgrp->flags);\n" ∷ "\telse\n"
          ∷ "\t\tset_bit(CGRP_PSI_DISABLED, &cgrp->flags);\n" ∷ "}\n" ∷ "\n"
          ∷ "void psi_cgroup_restart(struct psi_group *group)\n" ∷ "{\n" ∷ "\tint cpu;\n" ∷ "\n"
          ∷ "\t/*\n" ∷ "\t * Switching the accounting off needs no sync: psi_group_change() sees\n"
          ∷ "\t * the switch and only keeps the task accounting.  Switching it back on\n"
          ∷ "\t * has to rebuild every CPU's state mask from the counts that were kept,\n"
          ∷ "\t * and restart the state clock, or the group stays silent.\n" ∷ "\t */\n"
          ∷ "\tif (!psi_group_enabled(group))\n" ∷ "\t\treturn;\n" ∷ "\n"
          ∷ "\tfor_each_possible_cpu(cpu) {\n" ∷ "\t\tstruct rq *rq = cpu_rq(cpu);\n"
          ∷ "\t\tstruct rq_flags rf;\n" ∷ "\n" ∷ "\t\trq_lock_irq(rq, &rf);\n"
          ∷ "\t\tpsi_group_change(group, cpu, 0, 0, cpu_clock(cpu), true);\n"
          ∷ "\t\trq_unlock_irq(rq, &rf);\n" ∷ "\t}\n" ∷ "}\n" ∷ "#endif /* CONFIG_CGROUPS */" ∷ [])
        true
    ∷ step "kernel/cgroup/cgroup.c"
        ("static ssize_t cgroup_pressure_write(struct kernfs_open_file *of, char *buf,\n"
          ∷ "\t\t\t\t\t  size_t nbytes, enum psi_res res)\n" ∷ [])
        ("/* ABK stable_515_backport: renamed for the cgroup.pressure switch below,\n"
          ∷ " * which takes the cgroup_pressure_write() name as in android14-6.1.\n" ∷ " */\n"
          ∷ "static ssize_t pressure_write(struct kernfs_open_file *of, char *buf,\n"
          ∷ "\t\t\t      size_t nbytes, enum psi_res res)\n" ∷ [])
        true
    ∷ step "kernel/cgroup/cgroup.c"
        ("\treturn cgroup_pressure_write(of, buf, nbytes, PSI_IO);\n" ∷ [])
        ("\treturn pressure_write(of, buf, nbytes, PSI_IO);\n" ∷ []) true
    ∷ []

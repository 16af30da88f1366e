-- ===== src/Perf/CgroupPressure/PsiCgroupPressure3.antt =====
-- Steps 3 of 4 of `_psi_cgroup_pressure_apply` of scripts/abk_stable_perf.py.
use abk_5_15_backport.Prelude.{true, List, [], ◌∷◌}
use abk_5_15_backport.Steps.{Step, step}

unfoldable pub psi_cgroup_pressure_steps_3 : List Step
psi_cgroup_pressure_steps_3 =
    step "kernel/cgroup/cgroup.c"
      ("\treturn cgroup_pressure_write(of, buf, nbytes, PSI_MEM);\n" ∷ [])
      ("\treturn pressure_write(of, buf, nbytes, PSI_MEM);\n" ∷ []) true
    ∷ step "kernel/cgroup/cgroup.c"
        ("\treturn cgroup_pressure_write(of, buf, nbytes, PSI_CPU);\n" ∷ [])
        ("\treturn pressure_write(of, buf, nbytes, PSI_CPU);\n" ∷ []) true
    ∷ step "kernel/cgroup/cgroup.c"
        ("static __poll_t cgroup_pressure_poll(struct kernfs_open_file *of,\n"
          ∷ "\t\t\t\t\t  poll_table *pt)\n" ∷ [])
        ("/* ABK stable_515_backport: cgroup.pressure -- the per-cgroup PSI\n"
          ∷ " * accounting switch of android14-6.1.  Upstream keeps the state in\n"
          ∷ " * struct psi_group; here it is the cgroup's CGRP_PSI_DISABLED flag bit\n"
          ∷ " * (see psi.c), which leaves both struct layouts alone.  Upstream also\n"
          ∷ " * hides the pressure files while accounting is off; 5.15 has no\n"
          ∷ " * kernfs_show(), so they report EOPNOTSUPP instead of being hidden.\n" ∷ " */\n"
          ∷ "static int cgroup_pressure_show(struct seq_file *seq, void *v)\n" ∷ "{\n"
          ∷ "\tstruct cgroup *cgrp = seq_css(seq)->cgroup;\n" ∷ "\n"
          ∷ "\tseq_printf(seq, \"%d\\n\", psi_cgroup_accounting_enabled(cgrp));\n" ∷ "\n"
          ∷ "\treturn 0;\n" ∷ "}\n" ∷ "\n"
          ∷ "static ssize_t cgroup_pressure_write(struct kernfs_open_file *of,\n"
          ∷ "\t\t\t\t     char *buf, size_t nbytes,\n" ∷ "\t\t\t\t     loff_t off)\n" ∷ "{\n"
          ∷ "\tssize_t ret;\n" ∷ "\tint enable;\n" ∷ "\tstruct cgroup *cgrp;\n" ∷ "\n"
          ∷ "\tret = kstrtoint(strstrip(buf), 0, &enable);\n" ∷ "\tif (ret)\n" ∷ "\t\treturn ret;\n"
          ∷ "\n" ∷ "\tif (enable < 0 || enable > 1)\n" ∷ "\t\treturn -ERANGE;\n" ∷ "\n"
          ∷ "\tcgrp = cgroup_kn_lock_live(of->kn, false);\n" ∷ "\tif (!cgrp)\n"
          ∷ "\t\treturn -ENOENT;\n" ∷ "\n"
          ∷ "\tif (psi_cgroup_accounting_enabled(cgrp) != enable) {\n"
          ∷ "\t\tpsi_cgroup_accounting_set(cgrp, enable);\n" ∷ "\t\tif (enable)\n"
          ∷ "\t\t\tpsi_cgroup_restart(cgroup_ino(cgrp) == 1 ?\n"
          ∷ "\t\t\t\t\t   &psi_system : &cgrp->psi);\n" ∷ "\t}\n" ∷ "\n"
          ∷ "\tcgroup_kn_unlock(of->kn);\n" ∷ "\n" ∷ "\treturn nbytes;\n" ∷ "}\n" ∷ "\n"
          ∷ "static __poll_t cgroup_pressure_poll(struct kernfs_open_file *of,\n"
          ∷ "\t\t\t\t\t  poll_table *pt)\n" ∷ [])
        true
    ∷ step "kernel/cgroup/cgroup.c"
        ("\t{\n" ∷ "\t\t.name = \"cpu.pressure\",\n" ∷ "\t\t.flags = CFTYPE_PRESSURE,\n"
          ∷ "\t\t.seq_show = cgroup_cpu_pressure_show,\n"
          ∷ "\t\t.write = cgroup_cpu_pressure_write,\n" ∷ "\t\t.poll = cgroup_pressure_poll,\n"
          ∷ "\t\t.release = cgroup_pressure_release,\n" ∷ "\t},\n" ∷ [])
        ("\t{\n" ∷ "\t\t.name = \"cpu.pressure\",\n" ∷ "\t\t.flags = CFTYPE_PRESSURE,\n"
          ∷ "\t\t.seq_show = cgroup_cpu_pressure_show,\n"
          ∷ "\t\t.write = cgroup_cpu_pressure_write,\n" ∷ "\t\t.poll = cgroup_pressure_poll,\n"
          ∷ "\t\t.release = cgroup_pressure_release,\n" ∷ "\t},\n" ∷ "\t{\n"
          ∷ "\t\t/* ABK stable_515_backport: per-cgroup PSI accounting switch\n"
          ∷ "\t\t * (android14-6.1).  CFTYPE_PRESSURE makes it appear and\n"
          ∷ "\t\t * disappear together with the pressure files it controls.\n" ∷ "\t\t */\n"
          ∷ "\t\t.name = \"cgroup.pressure\",\n" ∷ "\t\t.flags = CFTYPE_PRESSURE,\n"
          ∷ "\t\t.seq_show = cgroup_pressure_show,\n" ∷ "\t\t.write = cgroup_pressure_write,\n"
          ∷ "\t},\n" ∷ [])
        true
    ∷ []

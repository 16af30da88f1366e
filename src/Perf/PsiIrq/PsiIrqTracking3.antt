-- ===== src/Perf/PsiIrq/PsiIrqTracking3.antt =====
-- Steps 3 of 3 of `_psi_irq_tracking_apply` of scripts/abk_stable_perf.py.
use abk_5_15_backport.Prelude.{true, List, [], ◌∷◌}
use abk_5_15_backport.Steps.{Step, step}

unfoldable pub psi_irq_tracking_steps_3 : List Step
psi_irq_tracking_steps_3 =
    step "kernel/sched/psi.c" ("\n" ∷ "static int __init psi_proc_init(void)\n" ∷ [])
      ("\n" ∷ "/* ABK stable_515_backport: /proc/pressure/irq (android14-6.1). */\n"
        ∷ "#ifdef CONFIG_IRQ_TIME_ACCOUNTING\n"
        ∷ "static int psi_irq_show(struct seq_file *m, void *v)\n" ∷ "{\n"
        ∷ "\treturn psi_show(m, &psi_system, PSI_IRQ);\n" ∷ "}\n" ∷ "\n"
        ∷ "static int psi_irq_open(struct inode *inode, struct file *file)\n" ∷ "{\n"
        ∷ "\treturn single_open(file, psi_irq_show, NULL);\n" ∷ "}\n" ∷ "\n"
        ∷ "static ssize_t psi_irq_write(struct file *file, const char __user *user_buf,\n"
        ∷ "\t\t\t     size_t nbytes, loff_t *ppos)\n" ∷ "{\n"
        ∷ "\treturn psi_write(file, user_buf, nbytes, PSI_IRQ);\n" ∷ "}\n" ∷ "\n"
        ∷ "static const struct proc_ops psi_irq_proc_ops = {\n" ∷ "\t.proc_open\t= psi_irq_open,\n"
        ∷ "\t.proc_read\t= seq_read,\n" ∷ "\t.proc_lseek\t= seq_lseek,\n"
        ∷ "\t.proc_write\t= psi_irq_write,\n" ∷ "\t.proc_poll\t= psi_fop_poll,\n"
        ∷ "\t.proc_release\t= psi_fop_release,\n" ∷ "};\n" ∷ "#endif\n" ∷ "\n"
        ∷ "static int __init psi_proc_init(void)\n" ∷ [])
      true
    ∷ step "kernel/sched/psi.c"
        ("\t\tproc_create(\"pressure/cpu\", 0, NULL, &psi_cpu_proc_ops);\n" ∷ "\t}" ∷ [])
        ("\t\tproc_create(\"pressure/cpu\", 0, NULL, &psi_cpu_proc_ops);\n"
          ∷ "#ifdef CONFIG_IRQ_TIME_ACCOUNTING\n"
          ∷ "\t\tproc_create(\"pressure/irq\", 0, NULL, &psi_irq_proc_ops);\n" ∷ "#endif\n" ∷ "\t}"
          ∷ [])
        true
    ∷ step "kernel/sched/core.c"
        ("\trq_lock(rq, &rf);\n" ∷ "\n" ∷ "\tupdate_rq_clock(rq);\n"
          ∷ "\ttrace_android_rvh_tick_entry(rq);" ∷ [])
        ("\trq_lock(rq, &rf);\n" ∷ "\n"
          ∷ "\t/* ABK stable_515_backport: PSI IRQ pressure accounting (android14-6.1). */\n"
          ∷ "\tpsi_account_irqtime(rq, curr, NULL);\n" ∷ "\n" ∷ "\tupdate_rq_clock(rq);\n"
          ∷ "\ttrace_android_rvh_tick_entry(rq);" ∷ [])
        true
    ∷ step "kernel/sched/core.c"
        ("\t\tmigrate_disable_switch(rq, prev);\n"
          ∷ "\t\tpsi_sched_switch(prev, next, !task_on_rq_queued(prev));" ∷ [])
        ("\t\tmigrate_disable_switch(rq, prev);\n" ∷ "\t\tpsi_account_irqtime(rq, prev, next);\n"
          ∷ "\t\tpsi_sched_switch(prev, next, !task_on_rq_queued(prev));" ∷ [])
        true
    ∷ []

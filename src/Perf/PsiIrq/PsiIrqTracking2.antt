-- ===== src/Perf/PsiIrq/PsiIrqTracking2.antt =====
-- Steps 2 of 3 of `_psi_irq_tracking_apply` of scripts/abk_stable_perf.py.
use abk_5_15_backport.Prelude.{true, List, [], ◌∷◌}
use abk_5_15_backport.Steps.{Step, step}

unfoldable pub psi_irq_tracking_steps_2 : List Step
psi_irq_tracking_steps_2 =
    step "kernel/sched/psi.c"
      ("/**\n" ∷ " * psi_memstall_enter - mark the beginning of a memory stall section\n"
        ∷ " * @flags: flags to handle nested sections" ∷ [])
      ("/* ABK stable_515_backport: PSI IRQ pressure accounting, grafted from the\n"
        ∷ " * android14-6.1 ACK shape onto the 5.15 iterate_groups walk.\n" ∷ " */\n"
        ∷ "#ifdef CONFIG_IRQ_TIME_ACCOUNTING\n" ∷ "static DEFINE_PER_CPU(u64, psi_irq_time);\n"
        ∷ "void psi_account_irqtime(struct rq *rq, struct task_struct *curr, struct task_struct *prev)\n"
        ∷ "{\n" ∷ "\tint cpu = task_cpu(curr);\n" ∷ "\tstruct psi_group *group;\n"
        ∷ "\tstruct psi_group_cpu *groupc;\n" ∷ "\tvoid *iter = NULL;\n" ∷ "\tu64 *psi_time;\n"
        ∷ "\ts64 delta;\n" ∷ "\tu64 irq;\n" ∷ "\n" ∷ "\tif (!curr->pid)\n" ∷ "\t\treturn;\n" ∷ "\n"
        ∷ "\tlockdep_assert_rq_held(rq);\n" ∷ "\tif (prev) {\n" ∷ "\t\tvoid *prev_iter = NULL;\n"
        ∷ "\n" ∷ "\t\tif (iterate_groups(prev, &prev_iter) == iterate_groups(curr, &iter))\n"
        ∷ "\t\t\treturn;\n" ∷ "\t\titer = NULL;\n" ∷ "\t}\n" ∷ "\n"
        ∷ "\tirq = irq_time_read(cpu);\n" ∷ "\tpsi_time = &per_cpu(psi_irq_time, cpu);\n"
        ∷ "\tdelta = (s64)(irq - *psi_time);\n" ∷ "\tif (delta < 0)\n" ∷ "\t\treturn;\n"
        ∷ "\t*psi_time = irq;\n" ∷ "\n" ∷ "\twhile ((group = iterate_groups(curr, &iter))) {\n"
        ∷ "\t\tu64 now;\n" ∷ "\n" ∷ "\t\tgroupc = per_cpu_ptr(group->pcpu, cpu);\n" ∷ "\n"
        ∷ "\t\twrite_seqcount_begin(&groupc->seq);\n" ∷ "\t\tnow = cpu_clock(cpu);\n" ∷ "\n"
        ∷ "\t\trecord_times(groupc, now);\n" ∷ "\t\tgroupc->times[PSI_IRQ_FULL] += delta;\n" ∷ "\n"
        ∷ "\t\twrite_seqcount_end(&groupc->seq);\n" ∷ "\n"
        ∷ "\t\tif (group->poll_states & (1 << PSI_IRQ_FULL))\n"
        ∷ "\t\t\tpsi_schedule_poll_work(group, 1, false);\n" ∷ "\t}\n" ∷ "}\n"
        ∷ "#endif /* CONFIG_IRQ_TIME_ACCOUNTING */\n" ∷ "\n" ∷ "/**\n"
        ∷ " * psi_memstall_enter - mark the beginning of a memory stall section\n"
        ∷ " * @flags: flags to handle nested sections" ∷ [])
      true
    ∷ step "kernel/sched/psi.c"
        ("int psi_show(struct seq_file *m, struct psi_group *group, enum psi_res res)\n" ∷ "{\n"
          ∷ "\tint full;\n" ∷ "\tu64 now;" ∷ [])
        ("int psi_show(struct seq_file *m, struct psi_group *group, enum psi_res res)\n" ∷ "{\n"
          ∷ "\tbool only_full = false;\n" ∷ "\tint full;\n" ∷ "\tu64 now;" ∷ [])
        true
    ∷ step "kernel/sched/psi.c"
        ("\tmutex_unlock(&group->avgs_lock);\n" ∷ "\n" ∷ "\tfor (full = 0; full < 2; full++) {"
          ∷ [])
        ("\tmutex_unlock(&group->avgs_lock);\n" ∷ "\n" ∷ "#ifdef CONFIG_IRQ_TIME_ACCOUNTING\n"
          ∷ "\tonly_full = res == PSI_IRQ;\n" ∷ "#endif\n" ∷ "\n"
          ∷ "\tfor (full = 0; full < 2 - only_full; full++) {" ∷ [])
        true
    ∷ step "kernel/sched/psi.c" ("\t\t\t   full ? \"full\" : \"some\"," ∷ [])
        ("\t\t\t   full || only_full ? \"full\" : \"some\"," ∷ []) true
    ∷ step "kernel/sched/psi.c"
        ("\telse\n" ∷ "\t\treturn ERR_PTR(-EINVAL);\n" ∷ "\n" ∷ "\tif (state >= PSI_NONIDLE)\n"
          ∷ "\t\treturn ERR_PTR(-EINVAL);" ∷ [])
        ("\telse\n" ∷ "\t\treturn ERR_PTR(-EINVAL);\n" ∷ "\n"
          ∷ "/* ABK stable_515_backport: irq pressure only supports full triggers (android14-6.1). */\n"
          ∷ "#ifdef CONFIG_IRQ_TIME_ACCOUNTING\n"
          ∷ "\tif (res == PSI_IRQ && --state != PSI_IRQ_FULL)\n" ∷ "\t\treturn ERR_PTR(-EINVAL);\n"
          ∷ "#endif\n" ∷ "\n" ∷ "\tif (state >= PSI_NONIDLE)\n" ∷ "\t\treturn ERR_PTR(-EINVAL);"
          ∷ [])
        true
    ∷ []

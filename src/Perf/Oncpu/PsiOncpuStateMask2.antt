-- ===== src/Perf/Oncpu/PsiOncpuStateMask2.antt =====
-- Steps 2 of 3 of `_psi_oncpu_state_mask_apply` of scripts/abk_stable_perf.py.
use abk_5_15_backport.Prelude.{true, List, [], ◌∷◌}
use abk_5_15_backport.Steps.{Step, step}

unfoldable pub psi_oncpu_state_mask_steps_2 : List Step
psi_oncpu_state_mask_steps_2 =
    step "kernel/sched/psi.c"
      ("\t\t\tprintk_deferred(KERN_ERR \"psi: task underflow! cpu=%d t=%d tasks=[%u %u %u %u %u] clear=%x set=%x\\n\",\n"
        ∷ "\t\t\t\t\tcpu, t, groupc->tasks[0],\n"
        ∷ "\t\t\t\t\tgroupc->tasks[1], groupc->tasks[2],\n"
        ∷ "\t\t\t\t\tgroupc->tasks[3], groupc->tasks[4],\n" ∷ "\t\t\t\t\tclear, set);\n" ∷ [])
      ("\t\t\tprintk_deferred(KERN_ERR \"psi: task underflow! cpu=%d t=%d tasks=[%u %u %u %u] clear=%x set=%x\\n\",\n"
        ∷ "\t\t\t\t\tcpu, t, groupc->tasks[0],\n"
        ∷ "\t\t\t\t\tgroupc->tasks[1], groupc->tasks[2],\n"
        ∷ "\t\t\t\t\tgroupc->tasks[3], clear, set);\n" ∷ [])
      true
    ∷ step "kernel/sched/psi.c"
        ("\t * ABK stable_515_backport: cgroup.pressure -- with the accounting\n"
          ∷ "\t * switched off, keep the task counts current (the levels above and\n"
          ∷ "\t * below consult them) but stop deriving and timing states.  The\n"
          ∷ "\t * record_times() above already concluded the state that was live when\n"
          ∷ "\t * the switch was turned off.\n" ∷ "\t */\n"
          ∷ "\tif (unlikely(!psi_group_enabled(group))) {\n" ∷ "\t\tgroupc->state_mask = 0;\n" ∷ [])
        ("\t * ABK stable_515_backport: cgroup.pressure -- with the accounting\n"
          ∷ "\t * switched off, keep the task counts and the ONCPU flag current (the\n"
          ∷ "\t * levels above and below consult them) but stop deriving and timing\n"
          ∷ "\t * states.  The record_times() above already concluded the state that\n"
          ∷ "\t * was live when the switch was turned off.\n" ∷ "\t */\n"
          ∷ "\tif (unlikely(!psi_group_enabled(group))) {\n"
          ∷ "\t\tgroupc->state_mask = state_mask;\n" ∷ [])
        true
    ∷ step "kernel/sched/psi.c"
        ("\t/* Calculate state mask representing active states */\n"
          ∷ "\tfor (s = 0; s < NR_PSI_STATES; s++) {\n" ∷ "\t\tif (test_state(groupc->tasks, s))\n"
          ∷ "\t\t\tstate_mask |= (1 << s);\n" ∷ "\t}\n" ∷ [])
        ("\t/* Calculate state mask representing active states */\n"
          ∷ "\tfor (s = 0; s < NR_PSI_STATES; s++) {\n"
          ∷ "\t\tif (test_state(groupc->tasks, s, state_mask & PSI_ONCPU))\n"
          ∷ "\t\t\tstate_mask |= (1 << s);\n" ∷ "\t}\n" ∷ [])
        true
    ∷ step "kernel/sched/psi.c"
        ("\tif (unlikely(groupc->tasks[NR_ONCPU] && cpu_curr(cpu)->in_memstall))\n" ∷ [])
        ("\tif (unlikely((state_mask & PSI_ONCPU) && cpu_curr(cpu)->in_memstall))\n" ∷ []) true
    ∷ step "kernel/sched/psi.c"
        ("\tif (next->pid) {\n" ∷ "\t\tbool identical_state;\n" ∷ "\n"
          ∷ "\t\tpsi_flags_change(next, 0, TSK_ONCPU);\n" ∷ "\t\t/*\n"
          ∷ "\t\t * When switching between tasks that have an identical\n"
          ∷ "\t\t * runtime state, the cgroup that contains both tasks\n"
          ∷ "\t\t * runtime state, the cgroup that contains both tasks\n"
          ∷ "\t\t * we reach the first common ancestor. Iterate @next's\n"
          ∷ "\t\t * ancestors only until we encounter @prev's ONCPU.\n" ∷ "\t\t */\n"
          ∷ "\t\tidentical_state = prev->psi_flags == next->psi_flags;\n" ∷ "\t\titer = NULL;\n"
          ∷ "\t\twhile ((group = iterate_groups(next, &iter))) {\n"
          ∷ "\t\t\tif (identical_state &&\n"
          ∷ "\t\t\t    per_cpu_ptr(group->pcpu, cpu)->tasks[NR_ONCPU]) {\n"
          ∷ "\t\t\t\tcommon = group;\n" ∷ "\t\t\t\tbreak;\n" ∷ "\t\t\t}\n" ∷ "\n"
          ∷ "\t\t\tpsi_group_change(group, cpu, 0, TSK_ONCPU, now, true);\n" ∷ "\t\t}\n" ∷ "\t}\n"
          ∷ [])
        ("\tif (next->pid) {\n" ∷ "\t\tpsi_flags_change(next, 0, TSK_ONCPU);\n" ∷ "\t\t/*\n"
          ∷ "\t\t * Set TSK_ONCPU on @next's cgroups. If @next shares any\n"
          ∷ "\t\t * ancestors with @prev, those will already have @prev's\n"
          ∷ "\t\t * TSK_ONCPU bit set, and we can stop the iteration there.\n" ∷ "\t\t */\n"
          ∷ "\t\titer = NULL;\n" ∷ "\t\twhile ((group = iterate_groups(next, &iter))) {\n"
          ∷ "\t\t\tif (per_cpu_ptr(group->pcpu, cpu)->state_mask &\n" ∷ "\t\t\t    PSI_ONCPU) {\n"
          ∷ "\t\t\t\tcommon = group;\n" ∷ "\t\t\t\tbreak;\n" ∷ "\t\t\t}\n" ∷ "\n"
          ∷ "\t\t\tpsi_group_change(group, cpu, 0, TSK_ONCPU, now, true);\n" ∷ "\t\t}\n" ∷ "\t}\n"
          ∷ [])
        true
    ∷ []

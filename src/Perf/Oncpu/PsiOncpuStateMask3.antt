-- ===== src/Perf/Oncpu/PsiOncpuStateMask3.antt =====
-- Steps 3 of 3 of `_psi_oncpu_state_mask_apply` of scripts/abk_stable_perf.py.
use abk_5_15_backport.Prelude.{true, List, [], ◌∷◌}
use abk_5_15_backport.Steps.{Step, step}

unfoldable pub psi_oncpu_state_mask_steps_3 : List Step
psi_oncpu_state_mask_steps_3 =
    step "kernel/sched/psi.c"
      ("\t\t/*\n" ∷ "\t\t * TSK_ONCPU is handled up to the common ancestor. If we're tasked\n"
        ∷ "\t\t * with dequeuing too, finish that for the rest of the hierarchy.\n" ∷ "\t\t */\n"
        ∷ "\t\tif (sleep) {\n" ∷ "\t\t\tclear &= ~TSK_ONCPU;\n"
        ∷ "\t\t\tfor (; group; group = iterate_groups(prev, &iter))\n"
        ∷ "\t\t\t\tpsi_group_change(group, cpu, clear, set, now, true);\n" ∷ "\t\t}\n" ∷ [])
      ("\t\t/*\n" ∷ "\t\t * TSK_ONCPU is handled up to the common ancestor. If there are\n"
        ∷ "\t\t * any other differences between the two tasks (e.g. prev goes\n"
        ∷ "\t\t * to sleep, or only one task is memstall), finish propagating\n"
        ∷ "\t\t * those differences all the way up to the root.\n" ∷ "\t\t */\n"
        ∷ "\t\tif ((prev->psi_flags ^ next->psi_flags) & ~TSK_ONCPU) {\n"
        ∷ "\t\t\tclear &= ~TSK_ONCPU;\n"
        ∷ "\t\t\tfor (; group; group = iterate_groups(prev, &iter))\n"
        ∷ "\t\t\t\tpsi_group_change(group, cpu, clear, set, now, true);\n" ∷ "\t\t}\n" ∷ [])
      true
    ∷ []

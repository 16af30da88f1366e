-- ===== src/Perf/Oncpu.antt =====
-- The group over the state mask of running tasks, of scripts/abk_stable_perf.py.
pub mod PsiOncpuStateMask1
pub mod PsiOncpuStateMask2
pub mod PsiOncpuStateMask3
use abk_5_15_backport.Prelude.{true, false, List, [], ◌∷◌, ◌++◌}
use abk_5_15_backport.Text.{codes, block}
use abk_5_15_backport.Result.{Exec}
use abk_5_15_backport.Context.{Context}
use abk_5_15_backport.Steps.{Step, Status, step}
use abk_5_15_backport.Groups.{PatchGroup}
use abk_5_15_backport.Groups.Acting.{edit_all}
use abk_5_15_backport.Groups.Probes.{probed_apply}
use abk_5_15_backport.Groups.Probes.Acts.{ActsAs-probed_apply}
use abk_5_15_backport.Groups.Planned.{Planned, planned_as}
use abk_5_15_backport.Perf.Oncpu.PsiOncpuStateMask1.{psi_oncpu_state_mask_steps_1}
use abk_5_15_backport.Perf.Oncpu.PsiOncpuStateMask2.{psi_oncpu_state_mask_steps_2}
use abk_5_15_backport.Perf.Oncpu.PsiOncpuStateMask3.{psi_oncpu_state_mask_steps_3}

-- The steps of `_psi_oncpu_state_mask_apply`.
unfoldable pub psi_oncpu_state_mask_steps : List Step
psi_oncpu_state_mask_steps =
    psi_oncpu_state_mask_steps_1 ++ (psi_oncpu_state_mask_steps_2 ++ psi_oncpu_state_mask_steps_3)

abbrev pub psi_oncpu_state_mask_apply : Exec Context Status
psi_oncpu_state_mask_apply =
    probed_apply (codes "include/linux/psi_types.h") (codes "PSI_ONCPU") psi_oncpu_state_mask_steps

abbrev pub psi_oncpu_state_mask : PatchGroup
psi_oncpu_state_mask = record {
  key = codes "psi_oncpu_state_mask";
  summary = block (
      "PSI: TSK_ONCPU becomes a flag in the state mask instead of a tas"
      ∷ "k count, so the switch walks ancestors until the flag is already" ∷ " set (android14-6.1)"
      ∷ []);
  commits =
      (block
        ("ACK android14-6.1 PSI ONCPU state-mask rework (psi_group_cpu::ta" ∷ "sks[] 5 -> 4)" ∷ []))
      ∷ [];
  files = (codes "include/linux/psi_types.h") ∷ (codes "kernel/sched/psi.c") ∷ [];
  apply_fn = psi_oncpu_state_mask_apply;
  hard = false;
}

abbrev pub planned_psi_oncpu_state_mask : Planned
planned_psi_oncpu_state_mask =
    planned_as psi_oncpu_state_mask (edit_all psi_oncpu_state_mask_steps) (
      ActsAs-probed_apply (codes "include/linux/psi_types.h") (codes "PSI_ONCPU")
        psi_oncpu_state_mask_steps)

-- ===== src/Perf/PsiIrq.antt =====
-- The group over pressure by interrupts, of scripts/abk_stable_perf.py.
pub mod PsiIrqTracking1
pub mod PsiIrqTracking2
pub mod PsiIrqTracking3
use abk_5_15_backport.Prelude.{true, false, List, [], ◌∷◌, ◌++◌}
use abk_5_15_backport.Text.{codes, block}
use abk_5_15_backport.Result.{Exec}
use abk_5_15_backport.Context.{Context}
use abk_5_15_backport.Steps.{Step, Status, step}
use abk_5_15_backport.Groups.{PatchGroup}
use abk_5_15_backport.Groups.Acting.{edit_all}
use abk_5_15_backport.Groups.Probes.{probed_apply}
use abk_5_15_backport.Groups.Probes.Acts.{ActsAs-probed_apply}
use abk_5_15_backport.Groups.Planned.{Planned, planned_as}
use abk_5_15_backport.Perf.PsiIrq.PsiIrqTracking1.{psi_irq_tracking_steps_1}
use abk_5_15_backport.Perf.PsiIrq.PsiIrqTracking2.{psi_irq_tracking_steps_2}
use abk_5_15_backport.Perf.PsiIrq.PsiIrqTracking3.{psi_irq_tracking_steps_3}

-- The steps of `_psi_irq_tracking_apply`.
unfoldable pub psi_irq_tracking_steps : List Step
psi_irq_tracking_steps =
    psi_irq_tracking_steps_1 ++ (psi_irq_tracking_steps_2 ++ psi_irq_tracking_steps_3)

abbrev pub psi_irq_tracking_apply : Exec Context Status
psi_irq_tracking_apply =
    probed_apply (codes "kernel/sched/psi.c") (codes "psi_account_irqtime") psi_irq_tracking_steps

abbrev pub psi_irq_tracking : PatchGroup
psi_irq_tracking = record {
  key = codes "psi_irq_tracking";
  summary = block (
      "PSI_IRQ pressure tracking with /proc/pressure/irq, adapted to th"
      ∷ "e 5.15 group walk (android14-6.1 / 6.1)" ∷ []);
  commits = (codes "52b1364 (6.1) + ACK android14-6.1 adaptations") ∷ [];
  files =
      (codes "include/linux/psi_types.h")
      ∷ (codes "kernel/sched/psi.c")
      ∷ (codes "kernel/sched/stats.h")
      ∷ (codes "kernel/sched/core.c")
      ∷ [];
  apply_fn = psi_irq_tracking_apply;
  hard = false;
}

abbrev pub planned_psi_irq_tracking : Planned
planned_psi_irq_tracking = planned_as psi_irq_tracking (edit_all psi_irq_tracking_steps) (
    ActsAs-probed_apply (codes "kernel/sched/psi.c") (codes "psi_account_irqtime")
      psi_irq_tracking_steps)

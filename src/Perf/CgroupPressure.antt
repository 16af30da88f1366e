-- ===== src/Perf/CgroupPressure.antt =====
-- The group over cgroup.pressure, of scripts/abk_stable_perf.py.
pub mod PsiCgroupPressure1
pub mod PsiCgroupPressure2
pub mod PsiCgroupPressure3
pub mod PsiCgroupPressure4
use abk_5_15_backport.Prelude.{true, false, List, [], ◌∷◌, ◌++◌}
use abk_5_15_backport.Text.{codes, block}
use abk_5_15_backport.Result.{Exec}
use abk_5_15_backport.Context.{Context}
use abk_5_15_backport.Steps.{Step, Status, step}
use abk_5_15_backport.Groups.{PatchGroup}
use abk_5_15_backport.Groups.Acting.{edit_all}
use abk_5_15_backport.Groups.Probes.{probed_apply}
use abk_5_15_backport.Groups.Probes.Acts.{ActsAs-probed_apply}
use abk_5_15_backport.Groups.Planned.{Planned, planned_as}
use abk_5_15_backport.Perf.CgroupPressure.PsiCgroupPressure1.{psi_cgroup_pressure_steps_1}
use abk_5_15_backport.Perf.CgroupPressure.PsiCgroupPressure2.{psi_cgroup_pressure_steps_2}
use abk_5_15_backport.Perf.CgroupPressure.PsiCgroupPressure3.{psi_cgroup_pressure_steps_3}
use abk_5_15_backport.Perf.CgroupPressure.PsiCgroupPressure4.{psi_cgroup_pressure_steps_4}

-- The steps of `_psi_cgroup_pressure_apply`.
unfoldable pub psi_cgroup_pressure_steps : List Step
psi_cgroup_pressure_steps =
    psi_cgroup_pressure_steps_1
    ++ (psi_cgroup_pressure_steps_2 ++ (psi_cgroup_pressure_steps_3 ++ psi_cgroup_pressure_steps_4))

abbrev pub psi_cgroup_pressure_apply : Exec Context Status
psi_cgroup_pressure_apply =
    probed_apply (codes "kernel/cgroup/cgroup.c") (codes "cgroup.pressure")
      psi_cgroup_pressure_steps

abbrev pub psi_cgroup_pressure : PatchGroup
psi_cgroup_pressure = record {
  key = codes "psi_cgroup_pressure_switch";
  summary = block (
      "cgroup.pressure: per-cgroup PSI accounting switch, kept off the "
      ∷ "struct layouts the ACK 6.1 psi_group pointer would move (android" ∷ "14-6.1)" ∷ []);
  commits =
      (block ("ACK android14-6.1 cgroup.pressure switch (psi_group.enabled fami" ∷ "ly)" ∷ []))
      ∷ [];
  files =
      (codes "include/linux/cgroup-defs.h")
      ∷ (codes "include/linux/psi.h")
      ∷ (codes "kernel/sched/psi.c")
      ∷ (codes "kernel/cgroup/cgroup.c")
      ∷ (codes "Documentation/admin-guide/cgroup-v2.rst")
      ∷ [];
  apply_fn = psi_cgroup_pressure_apply;
  hard = false;
}

abbrev pub planned_psi_cgroup_pressure : Planned
planned_psi_cgroup_pressure = planned_as psi_cgroup_pressure (edit_all psi_cgroup_pressure_steps) (
    ActsAs-probed_apply (codes "kernel/cgroup/cgroup.c") (codes "cgroup.pressure")
      psi_cgroup_pressure_steps)

-- ===== src/Perf/CgroupPressure/PsiCgroupPressure4.antt =====
-- Steps 4 of 4 of `_psi_cgroup_pressure_apply` of scripts/abk_stable_perf.py.
use abk_5_15_backport.Prelude.{true, List, [], ◌∷◌}
use abk_5_15_backport.Steps.{Step, step}

unfoldable pub psi_cgroup_pressure_steps_4 : List Step
psi_cgroup_pressure_steps_4 =
    step "Documentation/admin-guide/cgroup-v2.rst"
      ("\tIn a threaded cgroup, writing this file fails with EOPNOTSUPP as\n"
        ∷ "\tkilling cgroups is a process directed operation, i.e. it affects\n"
        ∷ "\tthe whole thread-group.\n" ∷ "\n" ∷ "Controllers\n" ∷ "===========\n" ∷ [])
      ("\tIn a threaded cgroup, writing this file fails with EOPNOTSUPP as\n"
        ∷ "\tkilling cgroups is a process directed operation, i.e. it affects\n"
        ∷ "\tthe whole thread-group.\n" ∷ "\n" ∷ "  cgroup.pressure\n"
        ∷ "\tA read-write single value file that allowed values are \"0\" and \"1\".\n"
        ∷ "\tThe default is \"1\".\n" ∷ "\n"
        ∷ "\tWriting \"0\" to the file will disable the cgroup PSI accounting.\n"
        ∷ "\tWriting \"1\" to the file will re-enable the cgroup PSI accounting.\n" ∷ "\n"
        ∷ "\tThis control attribute is not hierarchical, so disable or enable PSI\n"
        ∷ "\taccounting in a cgroup does not affect PSI accounting in descendants\n"
        ∷ "\tand doesn't need pass enablement via ancestors from root.\n" ∷ "\n"
        ∷ "\tThe reason this control attribute exists is that PSI accounts stalls for\n"
        ∷ "\teach cgroup separately and aggregates it at each level of the hierarchy.\n"
        ∷ "\tThis may cause non-negligible overhead for some workloads when under\n"
        ∷ "\tdeep level of the hierarchy, in which case this control attribute can\n"
        ∷ "\tbe used to disable PSI accounting in the non-leaf cgroups.\n" ∷ "\n"
        ∷ "\tWritten on the root cgroup it controls the system-wide pressure\n"
        ∷ "\taccounting reported by the /proc/pressure files.\n" ∷ "\n"
        ∷ "\tWhile the accounting of a cgroup is disabled, its pressure files report\n"
        ∷ "\t\"operation not supported\" instead of a stale value.\n" ∷ "\n" ∷ "Controllers\n"
        ∷ "===========\n" ∷ [])
      true
    ∷ []

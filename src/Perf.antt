-- ===== src/Perf.antt =====
-- scripts/abk_stable_perf.py: groups of the perf child.
pub mod Nohz
pub mod Psi
pub mod PsiPolling
pub mod Sched
pub mod Locking
pub mod Steal
pub mod BlkMq
pub mod PsiIrq
pub mod CgroupPressure
pub mod Oncpu

-- ===== src/Core.antt =====
-- scripts/abk_stable_core.py: groups of the core child.
pub mod FdTable
pub mod Config
pub mod PageAlloc
pub mod Cgroup
pub mod Mglru
pub mod Misc
pub mod Reserve
pub mod MemcgReclaim
pub mod TypeSelection

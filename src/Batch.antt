-- ===== src/Batch.antt =====
-- The groups of the batch modules, scripts/batch*.py.
pub mod ZramWriteback
pub mod WritebackPin
pub mod RecompSkip
pub mod MmapMiss
pub mod SlotPreserve
pub mod Aimed

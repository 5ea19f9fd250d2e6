-- ===== src/Mm/Malloc.antt =====
-- `mm_malloc`.
pub mod Extend
pub mod Grants
pub mod Search
pub mod Split
pub mod Take
pub mod Total
pub mod Truncated

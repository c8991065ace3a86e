-- ===== src/Export.antt =====
-- Exports: internal/export and internal/exportpolicy.
pub mod Ranges
pub mod Coverage
pub mod Strategies
mod Samples
pub mod Verify

-- ===== src/Preview.antt =====
-- Preview clips: internal/projects/model/preview_window.go and internal/preview/cache.
pub mod Window
pub mod Bounds
pub mod Cache
pub mod Eviction
pub mod Publication
mod Samples

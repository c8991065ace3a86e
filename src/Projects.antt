-- ===== src/Projects.antt =====
-- The documents that a client edits: internal/projects.
pub mod Segments
pub mod Apart
pub mod Validation
mod Samples
pub mod Timestamps
pub mod Digits
pub mod RoundTrip
pub mod Interchange

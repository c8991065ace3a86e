-- ===== src/Proposals.antt =====
-- Export proposals of assistants: internal/mcp/proposals.go.
pub mod Snapshots
pub mod Store
pub mod Pending
pub mod Prepare
pub mod Requests
pub mod Execute
pub mod Checks
pub mod Passed
pub mod Execution
pub mod Once
pub mod Approval
pub mod Limits
pub mod Saving
pub mod Preparation
mod Samples

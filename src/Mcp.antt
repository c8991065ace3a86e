-- ===== src/Mcp.antt =====
-- The credentials of assistants: internal/mcp/credentials.go.
pub mod Ids
pub mod Scopes
pub mod Authority
pub mod Normalize
pub mod Sorting
pub mod Stored
pub mod Accepted
pub mod Table
pub mod Store
pub mod Tokens
pub mod Grants
pub mod Listing
pub mod Audit
pub mod Rows
pub mod Access
pub mod Rescoped
pub mod Granted
pub mod Retention
pub mod Ordered
pub mod Paging
pub mod Walks
pub mod Issued
pub mod Issue
mod Samples
pub mod Revocation

-- ===== src/Lib.antt =====
-- Verification of the videocutlist server (Go, internal/): a self-hosted service that cuts ranges out of
-- videos. A client edits a project of media items and segments, previews a short clip around a time,
-- and submits export and scan jobs, which a pool of workers claims from a durable queue and hands to
-- FFmpeg. An assistant has a scoped credential, with which it prepares proposals of exports that a person
-- approves, or that the credential may execute unattended.
--
-- Files
--   Prelude          names and lemmas the parts share: Boolean tests over the native ℕ, lists, signed
--                    integers (Prelude.Int), results (Prelude.Outcome), byte texts (Prelude.Text).
--   Jobs             internal/jobs: the durable queue. Jobs.Defs and Jobs.Table are the `jobs` table
--                    and its rows, Jobs.Store is `JobsStore`, Jobs.Scheduler the admission, claiming and
--                    lifecycle of `Scheduler`, Jobs.Finalize its terminal writes, Jobs.System the
--                    workers and callers as a machine of events. Jobs.Transitions, Lifecycle,
--                    Evolution, Admission, Claim, Durable, History, Workers, Exclusive, Batches, Stays
--                    and Proposals hold what is proved of them.
--   Preview          internal/projects/model/preview_window.go: `Normalize` is Preview.Window.normalize.
--                    Preview.Cache is internal/preview/cache/cache.go; Preview.Eviction and
--                    Preview.Publication hold what is proved of it.
--   Projects         internal/projects/model: Projects.Segments is the validation of segments,
--                    with what it accepts in Projects.Apart and
--                    Projects.Validation. Projects.Timestamps and Interchange are
--                    internal/projects/interchange, Digits and RoundTrip the lemmas on its time stamps.
--   Export           internal/export/export.go: Export.Ranges is `ResolveRanges`, Export.Strategies
--                    the choice and the report of how each range is cut, Export.Verify the check of an
--                    output (internal/export/verify.go).
--   Db               internal/db/project.go: Db.Projects is `ProjectStore` with its revisions; what is
--                    proved of it is in Db.Rows, Db.Revisions and Db.Conflicts.
--   Mcp              internal/mcp/credentials.go: Mcp.Ids, Scopes and Normalize are identifiers, what a
--                    credential grants and what a new one may hold; Mcp.Table, Store, Tokens, Grants,
--                    Listing and Audit are `CredentialStore`. SHA-256, base64 and the format of times are
--                    parameters (`Platform`). Mcp.Authority, Sorting, Stored, Accepted, Rows, Access,
--                    Revocation, Rescoped, Granted, Retention, Ordered, Paging, Walks, Issued and Issue
--                    hold what is proved.
--   Proposals        internal/mcp/proposals.go: Proposals.Snapshots is the frozen items and their limits,
--                    Store and Pending the table and its pages, Prepare and Requests how a proposal is
--                    made, Execute how it becomes jobs of Jobs.Scheduler for a credential of Mcp.Tokens.
--                    Checks, Passed, Execution, Once, Approval, Limits, Saving and Preparation hold what is
--                    proved.
--
-- How the code is read
--   A Go string is the list of its bytes. The `jobs` table is the list of its rows in the order of
--   insertion; a statement is a function on that list, and `ORDER BY created_at,id` compares the texts
--   that are stored. A critical section of the scheduler is one step, and so are each attempt of `finalize` to
--   read or write and each write of a runner, so an interleaving of workers and callers is a list of
--   events. Jobs.Finalize has `finalize` of one worker at a stretch, with its faults. An int64 of the preview window and of the segments is an integer: the
--   sums and differences that the code takes of validated values stay far inside 64 bits.
--   A database fault in `finalize` is an entry of a list that the operation consumes, one for an attempt;
--   the two retry loops of that code run three times, the fuel that the model gives them. A client's walk
--   over the pages of credentials needs no more steps than there are rows, and one.
--   The columns of JSON and of times of Mcp and Proposals are taken decoded; where SQL compares times, it
--   compares their texts. Between the read and the write of `TouchLastUsed` the calls of others come as
--   a function on the rows. `Execute` of a proposal reads the project twice, from two answers of the
--   project service. What the file system does to a commit to the preview cache is an argument of it. Identifiers are made of random bytes that the operations take as arguments.
--
-- Not modelled: FFmpeg and ffprobe runs, HTTP and MCP transports, the web assets, start-up wiring, the
-- TypeScript client, and errors of the database outside `finalize`.

pub mod Prelude
pub mod Jobs
pub mod Preview
pub mod Projects
pub mod Export
pub mod Db
pub mod Mcp
pub mod Proposals

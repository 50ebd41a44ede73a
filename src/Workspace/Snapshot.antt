-- ===== src/Workspace/Snapshot.antt =====
-- The cloud side's snapshot store (omnicode_core/workspace/snapshot_store.py): the index of one
-- workspace, its content-addressed objects and its mirror.
mod Types
pub mod Frame
pub mod Commits
pub mod Effect
pub mod Outcomes
pub mod Transactions
pub mod Invariants
pub mod Integrity
mod Index
mod Objects
mod Batch
pub use Types.*
unfoldable pub use Index.*
unfoldable pub use Objects.*
unfoldable pub use Batch.*

-- ===== src/Workspace.antt =====
-- The hybrid workspace: the local half that queues changes and the cloud half that stores them
-- (omnicode_core/workspace).
pub mod Path
pub mod Snapshot
pub mod Manifest
pub mod Queue
pub mod Registry

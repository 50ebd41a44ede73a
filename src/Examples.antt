-- ===== src/Examples.antt =====
-- Runs of the models at small concrete inputs.
mod Snapshot
mod Sync
mod Edit
mod Graph
mod Llm
mod Reading
mod Requests
mod Auth
mod Inheritance
mod Tracker
mod Vectors
mod Engine

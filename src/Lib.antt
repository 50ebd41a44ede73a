-- ===== src/Lib.antt =====
-- Verification of the core of OmniCode-MCP, a server that gives editors a code base's index,
-- edits and language models.
--
-- A local agent watches a working directory. Its manifest records a hash for each file and a
-- queue of pending changes; the upload queue turns them into batches for the cloud side, whose
-- snapshot store keeps one directory for each workspace: index.json, a summary status.json,
-- objects named by their digest, and a mirror of the files. Both sides name files by normalised
-- relative paths. Apart from that, editors change files through previews, edits and rollbacks,
-- and ask the call graph what a change touches. A router sends prompts along a chain of language
-- models. Requests are guarded by a table of answers to repeated ones and by a limit on their
-- rate. A search index keeps the chunks of the files with their vectors, and a tracker says which
-- files it has yet to take in.
--
-- Files:
--   Prelude                 names of the libraries passed on; tests on numbers, lists, dictionaries
--                           in insertion order, Python's string methods, results, and actions that
--                           read and write a state and may raise (Exec), with rules for them
--   Workspace/Path          normalize_snapshot_path of omnicode_core/workspace/snapshot_store.py and
--                           normalize_rel of omnicode_core/workspace/local.py
--   Workspace/Snapshot      CloudSnapshotStore of omnicode_core/workspace/snapshot_store.py. Types has
--                           its records and its state, WorkspaceDir; Index loads, changes and saves
--                           the two JSON files; Objects has the operations on one path and Batch
--                           apply_batch. Frame, Commits, Effect and
--                           Transactions prove what each operation does to the JSON files;
--                           Invariants and Integrity prove what holds along any calls, and
--                           Integrity/Reading what a reader finds
--   Workspace/Manifest      LocalManifest of omnicode_core/workspace/manifest.py
--   Workspace/Queue         SyncQueue of omnicode_core/workspace/sync_queue.py
--   Edit/Patch              PatchManager of omnicode_core/edit/patch.py; Edit/Lines has its texts
--                           and Edit/Folders its paths
--   Graph/Impact            ImpactAnalyzer of omnicode_core/graph/impact.py
--   Llm/Router              LLMRouter of omnicode/llm/router.py. State, Order and Calls have its
--                           records, the order of the providers and the statistics; Chain, Fallback,
--                           Candidates, Best and Stats prove what a request does
--   Workspace/Registry      WorkspaceRegistry of omnicode_core/workspace/registry.py
--   Auth                    SecretBox of omnicode/llm/secret_box.py, rotate_master_key of
--                           omnicode_core/auth/rotation.py and UserStore of
--                           omnicode_core/auth/users.py
--   Index/Tracker           FileTracker of omnicode_core/index/file_tracker.py, and index_codebase of
--                           omnicode/search/engine.py. Walk has the disk; Found, Gone, Loop and
--                           Again lead to Retried, on the run after a run
--   Search                  Faiss is what is used of FAISS and NumPy; Vectors, with Query and Swap, is
--                           VectorStore of omnicode/search/vector_store.py, and Metadata its table
--                           index_meta; Prepared and Engine are what omnicode/search/engine.py
--                           does to one file, and Batch its upsert_contents. Synced, Hits, Activated, Upserted,
--                           Unavailable and Replaced prove what holds of them
--   Graph/Inheritance       InheritanceGraph of omnicode/ast_engine/inheritance.py. Removal has
--                           remove_file, which Filed, Renumbered, Compacted and Rebuilt compare
--                           with a graph that is built anew; Calls and Direct go on from there
--   Observability           IdempotencyStore of omnicode_core/observability/idempotency.py and
--                           RateLimiter of omnicode_core/observability/rate_limiter.py
--   Examples                the models run at small inputs
--
-- A method that mutates an object is an action on a record of its state (Exec): what was written
-- before a raise stays written. Dictionaries are association lists in insertion order, sets are
-- lists without repetitions. Revisions, sizes and times are natural numbers, as the code only
-- counts up with them. Loops are recursions over the list that they go through, and the rounds of
-- the graph search over their depth, without fuel; the search of the inheritance graph has fuel
-- for each queued name and each edge once, and its theorem shows that this is enough; the search
-- for entry points has the code's own depth of 20.
--
-- Arguments of the models, not defined here: SHA-256, the text codecs, the clock, uuids, difflib,
-- what the file system answers when a mirror file is written, what stands on the local disk when
-- a path is marked as changed, and the edges that the call graph builder finds. For the router:
-- what each provider answers to a request. For the table of answers: hashes and JSON. Durations,
-- costs and tokens are counted in whole units, where the code has floats. For the search index:
-- FAISS with the laws that the code relies on, the embedding model, the chunks that a file is cut
-- into, what Python makes of a JSON value, the files of the disk, and whether a file is moved.
-- For keys and tokens: Fernet, and the random part.
--
-- Not modelled: failures of the disk while index.json, status.json, an object or a session is
-- written, the retry loops around os.replace, threads (the store's lock makes a call on one
-- workspace one step), the place of a workspace's directory on the file system, JSON files that
-- other programs have changed, external linters, suggest_related_tests, errors of SQLite in the
-- search index, and the parts of the program that are input, output or calls of external
-- services: HTTP routers, the MCP server, language servers, embeddings.
pub mod Prelude
pub mod Workspace
pub mod Index
pub mod Search
pub mod Edit
pub mod Graph
pub mod Llm
pub mod Observability
pub mod Auth
pub mod Examples

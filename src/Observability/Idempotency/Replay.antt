-- ===== src/Observability/Idempotency/Replay.antt =====
-- A key gets the answer that was stored for it, whatever is asked and stored in between.
use omnicode_mcp.Prelude.{
  ℕ, ◌+◌, ◌≤◌, ◌≡◌, ◌≢◌, refl, String, Bool, true, false, not, Option, none, some, List, [], ◌∷◌,
  All, arith, keep, if◌then◌else◌,
}
use omnicode_mcp.Prelude.Eq.{◌==◌, string_eq, beq_false}
use omnicode_mcp.Prelude.Dict.{get, put, get-put, get-put_self}
use omnicode_mcp.Prelude.Result.{Result, ok, raise}
use omnicode_mcp.Prelude.Text.{is_empty}
use omnicode_mcp.Observability.Idempotency.{
  Host, Row, Table, Conflict, conflict, ttl_seconds, prune, hash_payload, lookup, store, store_json,
  answer_row,
}

-- A call of the store: whether SQLite answers, the time and the arguments.
pub data Call (Payload Answer : Type 0) : Type 0 where
  looked_up : Bool → ℕ → String → Payload → Call Payload Answer
  stored : Bool → ℕ → String → Payload → Answer → Call Payload Answer

get-prune :
    (table : Table) (now : ℕ) (key : String) (row : Row)
    → now ≤ row.created_at + ttl_seconds
    → get table key ≡ some row
    → get (prune now table) key ≡ some row
unfolding get prune keep
get-prune [] now key row fresh h = h
get-prune ((k, r) ∷ table) now key row fresh h =
    ground (arith, get-prune table now key row fresh, h)

module _ {Payload Answer : Type 0} (host : Host Payload Answer) where
  unfoldable pub call : Call Payload Answer → Table → Table
  call (looked_up db now key payload) table = (lookup host db now key payload table).1
  call (stored db now key payload response) table = store host db now key payload response table

  unfoldable pub calls : List (Call Payload Answer) → Table → Table
  calls [] table = table
  calls (c ∷ cs) table = calls cs (call c table)

  -- No store for the key, and no lookup later than the time.
  abbrev pub Spares : String → ℕ → Call Payload Answer → Type 0
  Spares key until (looked_up db now other payload) = now ≤ until
  Spares key until (stored db now other payload response) = other ≢ key

  abbrev after : Result Conflict (Option Answer) × Table → Table
  after out = out.1

  call_keeps :
      (c : Call Payload Answer) (table : Table) (key : String) (row : Row)
      → Spares key (row.created_at + ttl_seconds) c
      → get table key ≡ some row
      → get (call c table) key ≡ some row
  unfolding call lookup store
  call_keeps (looked_up db now other payload) table key row spared h = go (is_empty other) db
    where
      go :
          (e d : Bool)
          → get
              (after (
                if e then (ok none, table) else if not d then (ok none, table) else (
                  answer_row host other (hash_payload host payload) (get (prune now table) other),
                  prune now table,
                )))
              key
            ≡ some row
      go true d = h
      go false false = h
      go false true = get-prune table now key row spared h
  call_keeps (stored db now other payload response) table key row spared h =
      go (is_empty other) db (host.dumps response)
    where
      go :
          (e d : Bool) (json : Option String)
          → get (if e then table else store_json host d now other payload table json) key ≡ some row
      go true d json = h
      go false d none = h
      go false false (some json) = h
      go false true (some json) = rw (get-put, beq_false other key spared) h

  calls_keep :
      (cs : List (Call Payload Answer)) (table : Table) (key : String) (row : Row)
      → All (Spares key (row.created_at + ttl_seconds)) cs
      → get table key ≡ some row
      → get (calls cs table) key ≡ some row
  unfolding calls
  calls_keep [] table key row spared h = h
  calls_keep (c ∷ cs) table key row spared h =
      calls_keep cs (call c table) key row spared.1 (call_keeps c table key row spared.0 h)

  -- Where an answer was stored for a key that is not empty, and since then there was no other store
  -- for the key and no lookup later than its time to live: a lookup of the key in that time
  -- gives the stored answer, as JSON gives it back, if the payload has the hash of the stored one, and
  -- is a conflict otherwise.
  pub lookup-store :
      (key : String) (payload again : Payload) (response : Answer) (json : String) (now later : ℕ)
      (cs : List (Call Payload Answer)) (table : Table)
      → is_empty key ≡ false
      → host.dumps response ≡ some json
      → All (Spares key (now + ttl_seconds)) cs
      → later ≤ now + ttl_seconds
      → (lookup host true later key again
          (calls cs (store host true now key payload response table))).0
        ≡ (if hash_payload host payload == hash_payload host again
            then ok (host.loads json)
            else raise (conflict key (hash_payload host payload) (hash_payload host again)))
  unfolding lookup store
  lookup-store key payload again response json now later cs table named dumped spared fresh =
      let row : Row = record {
        payload_hash = hash_payload host payload;
        response_json = json;
        created_at = now;
      } in
      let kept =
        get-prune (calls cs (put table key row)) later key row fresh
          (calls_keep cs (put table key row) key row spared (get-put_self table key row)) in
      rw (named, dumped, kept) refl

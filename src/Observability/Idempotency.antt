-- ===== src/Observability/Idempotency.antt =====
-- `IdempotencyStore` of omnicode_core/observability/idempotency.py: the answers kept for the keys of
-- write requests. The SQLite table is a dictionary by its primary key; a call that SQLite
-- refuses has `db` false, and times are in seconds.
pub mod Replay
use omnicode_mcp.Prelude.{
  ℕ, zero, suc, ◌+◌, String, Bool, true, false, not, Option, none, some, List, [], ◌∷◌, keep, ltb,
  if◌then◌else◌,
}
use omnicode_mcp.Prelude.Eq.{◌==◌, string_eq}
use omnicode_mcp.Prelude.Dict.{Dict, get, put}
use omnicode_mcp.Prelude.Result.{Result, ok, raise}
use omnicode_mcp.Prelude.Text.{is_empty}

abbrev pub ttl_seconds : ℕ
ttl_seconds = 86400

-- What `json`, `repr` and `hashlib` give; a text that is no JSON and a value that has none are none.
pub record Host (Payload Answer : Type 0) : Type 0 where
  pub payload_json : Payload → Option String
  pub payload_repr : Payload → String
  pub sha256 : String → String
  pub dumps : Answer → Option String
  pub loads : String → Option Answer

pub record Row : Type 0 where
  pub payload_hash : String
  pub response_json : String
  pub created_at : ℕ

abbrev pub Table : Type 0
Table = Dict String Row

pub data Conflict : Type 0 where
  conflict : String → String → String → Conflict

-- text[:n]
unfoldable pub first_chars : ℕ → String → String
first_chars zero t = ""
first_chars (suc n) String.[] = ""
first_chars (suc n) (String.◌∷◌ c t) = String.◌∷◌ c (first_chars n t)

-- DELETE FROM keys WHERE created_at < now - ttl
unfoldable pub prune : ℕ → Table → Table
prune now table = keep (λ e. not (ltb (e.1.created_at + ttl_seconds) now)) table

module _ {Payload Answer : Type 0} (host : Host Payload Answer) where
  abbrev pub payload_blob : Payload → Option String → String
  payload_blob payload none = host.payload_repr payload
  payload_blob payload (some blob) = blob

  -- `_hash_payload`
  unfoldable pub hash_payload : Payload → String
  hash_payload payload =
      first_chars 32 (host.sha256 (payload_blob payload (host.payload_json payload)))

  abbrev pub answer_row : String → String → Option Row → Result Conflict (Option Answer)
  answer_row key payload_hash none = ok none
  answer_row key payload_hash (some row) =
      if row.payload_hash == payload_hash
      then ok (host.loads row.response_json)
      else raise (conflict key row.payload_hash payload_hash)

  unfoldable pub lookup :
      Bool → ℕ → String → Payload → Table → Result Conflict (Option Answer) × Table
  lookup db now key payload table =
      if is_empty key
      then (ok none, table)
      else if not db
      then (ok none, table)
      else (answer_row key (hash_payload payload) (get (prune now table) key), prune now table)

  abbrev pub store_json : Bool → ℕ → String → Payload → Table → Option String → Table
  store_json db now key payload table none = table
  store_json db now key payload table (some response_json) =
      if db
      then put table key (record {
        payload_hash = hash_payload payload;
        response_json = response_json;
        created_at = now;
      })
      else table

  unfoldable pub store : Bool → ℕ → String → Payload → Answer → Table → Table
  store db now key payload response table =
      if is_empty key then table else store_json db now key payload table (host.dumps response)

-- ===== src/Workspace/Manifest/Consistent.antt =====
-- The pending queue of a manifest agrees with its files: one item for each path, an upsert with the
-- hash that the manifest has for the path, a delete where the manifest has no entry.
use omnicode_mcp.Prelude.Keep.{All-keep}
use omnicode_mcp.Prelude.{
  ℕ, ◌≡◌, refl, ap, ◌∙◌, inl, inr, String, Bool, true, false, not, ◌&&◌, ◌||◌, Option, none, some,
  List, [], ◌∷◌, ◌++◌, keep, All, All-append, Bool-cases, arith, if◌then◌else◌, length, ltb,
}
use omnicode_mcp.Prelude.Eq.{◌==◌, string_eq, nat_eq}
use omnicode_mcp.Prelude.Dict.{
  Dict, get, has, put, pop, get-put, get-pop, get-put_self, get-pop_self,
}
use omnicode_mcp.Prelude.Result.{Result, ok, raise}
use omnicode_mcp.Prelude.Exec.{pure, lift, continue, ◌>>=◌}
use omnicode_mcp.Workspace.Path.{PathError}
use omnicode_mcp.Workspace.Manifest.{
  Entry, absent, not_file, regular, Local, to_relative, to_absolute, FileMeta, Op, op_upsert,
  op_delete, PendingItem, Manifest, Settings, is_ignored, replace_pending, queue_change,
  record_delete, hash_is, has_nul, seen_at, record_content, record_entry, mark_changed,
}

abbrev pub hash_in : Option FileMeta → Option String
hash_in none = none
hash_in (some meta) = some meta.hash

abbrev pub hash_at : Dict String FileMeta → String → Option String
hash_at files path = hash_in (get files path)

abbrev op_of : Option String → Op
op_of none = op_delete
op_of (some hash) = op_upsert

-- An upsert has the hash of the manifest's entry; a delete has none, and there is no entry.
abbrev pub Agrees : Dict String FileMeta → PendingItem → Type 0
Agrees files item = (hash_at files item.path ≡ item.hash) × (item.op ≡ op_of item.hash)

abbrev Differs : String → PendingItem → Type 0
Differs path item = (item.path == path) ≡ false

-- No two items have one path.
abbrev pub Distinct : List PendingItem → Type 0
Distinct [] = Unit
Distinct (item ∷ items) = All (Differs item.path) items × Distinct items

pub record IsConsistent (m : Manifest) : Type 0 where
  pub distinct : Distinct m.pending
  pub agrees : All (Agrees m.files) m.pending

pub Distinct-keep :
    (p : PendingItem → Bool) (xs : List PendingItem) → Distinct xs → Distinct (keep p xs)
unfolding keep
Distinct-keep p [] h = tt
Distinct-keep p (x ∷ xs) h = elim (Bool-cases (p x)) [
  | inl holds ↦
      rw holds
        (All-keep (Differs x.path) (Differs x.path) p xs (λ _ _ d. d) h.0, Distinct-keep p xs h.1)
  | inr fails ↦ rw fails (Distinct-keep p xs h.1)
]

beq_sym : (a b : String) → (a == b) ≡ false → (b == a) ≡ false
beq_sym a b h = ground (arith, string_eq.same_iff a b, string_eq.same_iff b a)

Distinct-snoc :
    (xs : List PendingItem) (y : PendingItem)
    → Distinct xs
    → All (Differs y.path) xs
    → Distinct (xs ++ y ∷ [])
Distinct-snoc [] y h d = (tt, tt)
Distinct-snoc (x ∷ xs) y h d = (
  All-append (Differs x.path) xs (y ∷ []) h.0 (beq_sym x.path y.path d.0, tt),
  Distinct-snoc xs y h.1 d.1,
)

not-true : (b : Bool) → not b ≡ true → b ≡ false
not-true true h = cc
not-true false h = refl

-- A change is queued consistently where it changes the entry of its own path alone.
queue_change-IsConsistent :
    (item : PendingItem) (files : Dict String FileMeta) (m : Manifest)
    → ((q : String) → (q == item.path) ≡ false → get files q ≡ get m.files q)
    → Agrees files item
    → IsConsistent m
    → IsConsistent (queue_change item files m)
unfolding queue_change replace_pending
queue_change-IsConsistent item files m same agrees h = record {
  distinct =
      Distinct-snoc (keep (λ i. not (i.path == item.path)) m.pending) item
        (Distinct-keep _ m.pending h.distinct)
        (All-keep (Agrees m.files) (Differs item.path) _ m.pending (λ i e _. not-true _ e)
          h.agrees);
  agrees =
      All-append (Agrees files) _ (item ∷ [])
        (All-keep (Agrees m.files) (Agrees files) _ m.pending
          (λ i e a. (ap hash_in (same i.path (not-true _ e)) ∙ a.0, a.1)) h.agrees)
        (agrees, tt);
}

-- The items of a manifest whose entries keep their hashes.
pub same_hashes :
    (m : Manifest) (files : Dict String FileMeta)
    → ((q : String) → hash_at files q ≡ hash_at m.files q)
    → IsConsistent m
    → IsConsistent (record m { files = files })
same_hashes m files same h = record { distinct = h.distinct; agrees = All-map m.pending h.agrees }
  where
    All-map : (xs : List PendingItem) → All (Agrees m.files) xs → All (Agrees files) xs
    All-map [] a = tt
    All-map (x ∷ xs) a = ((same x.path ∙ a.0.0, a.0.1), All-map xs a.1)

seen_at_hash :
    (now : String) (files : Dict String FileMeta) (rel q : String) (found : Option FileMeta)
    → get files rel ≡ found
    → hash_at (seen_at now found rel files) q ≡ hash_at files q
seen_at_hash now files rel q none e = refl
seen_at_hash now files rel q (some meta) e =
    ground
      (arith, get-put files rel q (record meta { last_seen_at = now }), string_eq.same_iff rel q)

record_delete-IsConsistent :
    (rel : String) (force : Bool) (m : Manifest)
    → IsConsistent m
    → IsConsistent (record_delete rel force m).1
unfolding record_delete ◌>>=◌
record_delete-IsConsistent rel force m h = elim (Bool-cases (not (has m.files rel) && not force)) [
  | inl holds ↦ rw holds h
  | inr fails ↦ rw fails (
      queue_change-IsConsistent _ (pop m.files rel) m (λ q d. get_pop_other m.files rel q d)
        (ap hash_in (get-pop_self m.files rel), refl) h)
]
  where
    get_pop_other :
        (files : Dict String FileMeta) (rel q : String)
        → (q == rel) ≡ false
        → get (pop files rel) q ≡ get files q
    get_pop_other files rel q d =
        ground (arith, get-pop files rel q, string_eq.same_iff q rel, string_eq.same_iff rel q)

get-put_other :
    (files : Dict String FileMeta) (rel q : String) (v : FileMeta)
    → (q == rel) ≡ false
    → get (put files rel v) q ≡ get files q
get-put_other files rel q v d =
    ground (arith, get-put files rel q v, string_eq.same_iff q rel, string_eq.same_iff rel q)

record_content-IsConsistent :
    (local : Local) (rel : String) (force : Bool) (content : List ℕ) (mtime_ms : ℕ) (m : Manifest)
    → IsConsistent m
    → IsConsistent (record_content local rel force content mtime_ms m).1
unfolding record_content ◌>>=◌
record_content-IsConsistent local rel force content mtime_ms m h =
    elim (Bool-cases (hash_is (local.sha256_bytes content) (get m.files rel) && not force)) [
      | inl holds ↦
          rw holds (
            same_hashes m _ (λ q. seen_at_hash local.utc_now m.files rel q (get m.files rel) refl)
              h)
      | inr fails ↦ rw fails (
          queue_change-IsConsistent _ (put m.files rel _) m (λ q d. get-put_other m.files rel q _ d)
            (ap hash_in (get-put_self m.files rel _), refl) h)
    ]

record_entry-IsConsistent :
    (local : Local) (settings : Settings) (rel : String) (force : Bool) (entry : Entry)
    (m : Manifest)
    → IsConsistent m
    → IsConsistent (record_entry local settings rel force entry m).1
unfolding record_entry pure
record_entry-IsConsistent local settings rel force absent m h =
    record_delete-IsConsistent rel force m h
record_entry-IsConsistent local settings rel force not_file m h = h
record_entry-IsConsistent local settings rel force (regular content mtime_ms) m h =
    elim (Bool-cases (ltb settings.max_file_bytes (length content) || has_nul content)) [
      | inl holds ↦ rw holds h
      | inr fails ↦ rw fails (record_content-IsConsistent local rel force content mtime_ms m h)
    ]

mark_changed_go :
    (local : Local) (settings : Settings) (path : String) (force : Bool) (m : Manifest)
    → IsConsistent m
    → (located : Result PathError String) → to_relative local path ≡ located
    → IsConsistent (mark_changed local settings path force m).1
unfolding mark_changed ◌>>=◌
mark_changed_go local settings path force m h (raise e) located = rw located h
mark_changed_go local settings path force m h (ok rel) located =
    rw located (ignored_go (is_ignored settings rel) refl)
  where
    target_go :
        (target : Result PathError String)
        → IsConsistent
            (continue target (λ t. record_entry local settings rel force (local.look t)) m).1
    target_go (raise e) = h
    target_go (ok t) = record_entry-IsConsistent local settings rel force (local.look t) m h

    ignored_go :
        (r : Result PathError Bool)
        → is_ignored settings rel ≡ r
        → IsConsistent
            (continue
              (is_ignored settings rel)
              (λ i.
                if i
                then pure none
                else (lift (to_absolute local rel) >>= λ t.
                    record_entry local settings rel force (local.look t)))
              m).1
    ignored_go (raise e) i = rw i h
    ignored_go (ok true) i = rw i h
    ignored_go (ok false) i = rw i (target_go (to_absolute local rel))

-- Marking a path as changed keeps the queue and the files of the manifest in agreement.
pub mark_changed-IsConsistent :
    (local : Local) (settings : Settings) (path : String) (force : Bool) (m : Manifest)
    → IsConsistent m
    → IsConsistent (mark_changed local settings path force m).1
mark_changed-IsConsistent local settings path force m h =
    mark_changed_go local settings path force m h (to_relative local path) refl

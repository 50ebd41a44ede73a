-- ===== src/Graph/Impact/Index.antt =====
-- The two indices hold the edges of the call graph, and nothing else.
use omnicode_mcp.Prelude.{
  ◌≡◌, refl, ap, ◌↔◌, String, Bool, true, false, ◌&&◌, ◌||◌, Bool-cases, ◌⊎◌, inl, inr, List, [],
  ◌∷◌, arith, if◌then◌else◌,
}
use omnicode_mcp.Prelude.Eq.{◌==◌, string_eq, beq_refl, eq_of_beq}
use omnicode_mcp.Prelude.Dict.{get, put, keys, get-put}
pub use omnicode_mcp.Prelude.Names.{mem-append, mem-keep}
use omnicode_mcp.Graph.Impact.{
  Edge, mem, add, Adjacency, next_to, index_edge, build_in_index, build_out_index, union, is_nil,
}

-- Whether some edge leads from `a` to `b`.
abbrev pub calls : List Edge → String → String → Bool
calls [] a b = false
calls (edge ∷ edges) a b = (edge.caller == a && edge.callee == b) || calls edges a b

pub mem-add : (x y : String) (xs : List String) → mem x (add y xs) ≡ (y == x || mem x xs)
unfolding add
mem-add x y xs = ground (arith, mem-append x xs (y ∷ []), string_eq.same_iff y x)

pub mem-union : (x : String) (xs ys : List String) → mem x (union xs ys) ≡ (mem x xs || mem x ys)
unfolding union
mem-union x xs [] = ground arith
mem-union x xs (y ∷ ys) = ground (arith, mem-union x (add y xs) ys, mem-add x y xs)

next_to-index_edge :
    (key name node : String) (index : Adjacency)
    → next_to (index_edge key name index) node
      ≡ (if key == node then add name (next_to index key) else next_to index node)
unfolding index_edge
next_to-index_edge key name node index =
    ground (arith, get-put index key node (add name (next_to index key)))

-- One edge more in an index.
pub mem-index_edge :
    (key name a b : String) (index : Adjacency)
    → mem a (next_to (index_edge key name index) b)
      ≡ (mem a (next_to index b) || (name == a && key == b))
mem-index_edge key name a b index = elim (Bool-cases (key == b)) [
  | inl holds ↦ ground (
    arith,
    next_to-index_edge key name b index,
    holds,
    mem-add a name (next_to index key),
    ap (next_to index) (eq_of_beq key b holds),
  )
  | inr fails ↦ ground (arith, next_to-index_edge key name b index, fails)
]

pub mem-build_in_index :
    (edges : List Edge) (index : Adjacency) (a b : String)
    → mem a (next_to (build_in_index edges index) b) ≡ (mem a (next_to index b) || calls edges a b)
unfolding build_in_index
mem-build_in_index [] index a b = ground arith
mem-build_in_index (edge ∷ edges) index a b = ground (
  arith,
  mem-build_in_index edges (index_edge edge.callee edge.caller index) a b,
  mem-index_edge edge.callee edge.caller a b index,
)

pub mem-build_out_index :
    (edges : List Edge) (index : Adjacency) (a b : String)
    → mem b (next_to (build_out_index edges index) a) ≡ (mem b (next_to index a) || calls edges a b)
unfolding build_out_index
mem-build_out_index [] index a b = ground arith
mem-build_out_index (edge ∷ edges) index a b = ground (
  arith,
  mem-build_out_index edges (index_edge edge.caller edge.callee index) a b,
  mem-index_edge edge.caller edge.callee b a index,
)

-- The two indices are each other's reverse: `a` is among the callers of `b` exactly where `b` is
-- among the callees of `a`, and that is where the graph has an edge from `a` to `b`.
pub indices_agree :
    (edges : List Edge) (a b : String)
    → (mem a (next_to (build_in_index edges []) b) ≡ calls edges a b)
      × (mem b (next_to (build_out_index edges []) a) ≡ calls edges a b)
unfolding get
indices_agree edges a b = (mem-build_in_index edges [] a b, mem-build_out_index edges [] a b)

mem-keys-put :
    (d : Adjacency) (k x : String) (v : List String)
    → mem x (keys (put d k v)) ≡ (k == x || mem x (keys d))
unfolding put
mem-keys-put [] k x v = ground arith
mem-keys-put ((j, w) ∷ d) k x v = ground (
  arith,
  mem-keys-put d k x v,
  string_eq.same_iff j k,
  string_eq.same_iff j x,
  string_eq.same_iff k x,
)

pub caller-mem :
    (edges : List Edge) (index : Adjacency) (a b : String)
    → (calls edges a b ≡ true) ⊎ (mem a (keys index) ≡ true)
    → mem a (keys (build_out_index edges index)) ≡ true
unfolding build_out_index index_edge
caller-mem [] index a b (inl h) = cc
caller-mem [] index a b (inr h) = h
caller-mem (edge ∷ edges) index a b h =
    caller-mem edges (index_edge edge.caller edge.callee index) a b (go h)
  where
    go :
        ((((edge.caller == a && edge.callee == b) || calls edges a b) ≡ true)
          ⊎ (mem a (keys index) ≡ true))
        → (calls edges a b ≡ true)
          ⊎ (mem a (keys (index_edge edge.caller edge.callee index)) ≡ true)
    go (inr h) = inr (
        ground (
          arith,
          h,
          mem-keys-put index edge.caller a (add edge.callee (next_to index edge.caller)),
        ))
    go (inl h) = elim (Bool-cases (calls edges a b)) [
      | inl holds ↦ inl holds
      | inr fails ↦ inr (
          ground (
            arith,
            h,
            fails,
            mem-keys-put index edge.caller a (add edge.callee (next_to index edge.caller)),
          ))
    ]

index_key :
    (key name x : String) (index : Adjacency)
    → mem x (keys (index_edge key name index)) ≡ (key == x || mem x (keys index))
unfolding index_edge
index_key key name x index = mem-keys-put index key x (add name (next_to index key))

-- A symbol of the out index calls something.
pub out_key-calls :
    (edges : List Edge) (index : Adjacency) (a : String)
    → mem a (keys (build_out_index edges index)) ≡ true
    → ((b : String) × (calls edges a b ≡ true)) ⊎ (mem a (keys index) ≡ true)
unfolding build_out_index
out_key-calls [] index a h = inr h
out_key-calls (edge ∷ edges) index a h =
    elim (out_key-calls edges (index_edge edge.caller edge.callee index) a h) [
      | inl (b, edge_there) ↦ inl (b, ground (arith, edge_there))
      | inr key ↦ elim (Bool-cases (edge.caller == a)) [
        | inl holds ↦ inl (edge.callee, ground (arith, holds, beq_refl edge.callee))
        | inr fails ↦ inr (ground (arith, key, fails, index_key edge.caller edge.callee a index))
      ]
    ]

-- A symbol of the in index is called.
pub in_key-calls :
    (edges : List Edge) (index : Adjacency) (b : String)
    → mem b (keys (build_in_index edges index)) ≡ true
    → ((a : String) × (calls edges a b ≡ true)) ⊎ (mem b (keys index) ≡ true)
unfolding build_in_index
in_key-calls [] index b h = inr h
in_key-calls (edge ∷ edges) index b h =
    elim (in_key-calls edges (index_edge edge.callee edge.caller index) b h) [
      | inl (a, edge_there) ↦ inl (a, ground (arith, edge_there))
      | inr key ↦ elim (Bool-cases (edge.callee == b)) [
        | inl holds ↦ inl (edge.caller, ground (arith, holds, beq_refl edge.caller))
        | inr fails ↦ inr (ground (arith, key, fails, index_key edge.callee edge.caller b index))
      ]
    ]

pub is_nil-mem : (xs : List String) → (is_nil xs ≡ true) ↔ ((a : String) → mem a xs ≡ false)
is_nil-mem [] = (λ _ a. refl, λ _. refl)
is_nil-mem (x ∷ xs) = (λ h. cc, λ h. cc (h x, beq_refl x))

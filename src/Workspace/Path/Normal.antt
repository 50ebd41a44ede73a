-- ===== src/Workspace/Path/Normal.antt =====
-- What a normalised path looks like, and when normalising it again changes nothing.
use Prim.Native.String.{String}
use Prim.Native.Char.{Char}
use omnicode_mcp.Prelude.{
  ◌⊎◌, ◌≡◌, refl, Bool, true, false, not, List, [], ◌∷◌, keep, All, arith, Bool-cases, inl, inr,
}
use omnicode_mcp.Prelude.Eq.{◌==◌, string_eq}
use omnicode_mcp.Prelude.Result.{Result-cases, >>=-eq-ok, ok, ◌>>=◌, ◌>>◌, raise_if}
use omnicode_mcp.Prelude.Text.{
  strip, replace_char, is_empty, starts_with_char, split, join, Lacks, AllLack, split-join,
  split-Lacks, split-Lacks_other, replace_char-Lacks, replace_char_absent, join-Lacks,
}
use omnicode_mcp.Workspace.Path.{
  path_empty, path_absolute, slash, backslash, is_noise, posix_parts, collect, join_parts,
  normalize_snapshot_path, normalize_rel,
}

-- One part of a normalised path.
pub record IsPart (part : String) : Type 0 where
  pub not_noise : is_noise part ≡ false
  pub not_parent : (part == "..") ≡ false
  pub no_slash : Lacks slash part
  pub no_backslash : Lacks backslash part

-- A normalised path: one part or more, joined by slashes.
pub data IsNormal (path : String) : Type 0 where
  normal :
      (part : String) (parts : List String)
      → All IsPart (part ∷ parts)
      → path ≡ join slash (part ∷ parts)
      → IsNormal path

keep-AllLack :
    (p : String → Bool) (a : Char) (ws : List String) → AllLack a ws → AllLack a (keep p ws)
unfolding keep
keep-AllLack p a [] h = tt
keep-AllLack p a (w ∷ ws) h = elim (Bool-cases (p w)) [
  | inl y ↦ rw y (h.0, keep-AllLack p a ws h.1)
  | inr n ↦ rw n (keep-AllLack p a ws h.1)
]

collect_step :
    (w : String) (ws ps : List String)
    → collect (w ∷ ws) ≡ ok ps
    → ((is_noise w ≡ true) × (collect ws ≡ ok ps))
      ⊎ ((qs : List String) × (is_noise w ≡ false)
          × ((w == "..") ≡ false)
          × (collect ws ≡ ok qs)
          × (ps ≡ w ∷ qs))
unfolding collect
collect_step w ws ps h = elim (Bool-cases (is_noise w)) [
  | inl y ↦ inl (y, ground arith)
  | inr n ↦ elim (Bool-cases (w == "..")) [
    | inl up ↦ absurd (ground arith)
    | inr down ↦ elim (Result-cases (collect ws)) [
      | inl (qs, e) ↦ inr (qs, n, down, e, ground arith)
      | inr (x, e) ↦ absurd (ground arith)
    ]
  ]
]

nothing_collected : (p : String) (ps : List String) → collect [] ≡ ok (p ∷ ps) → ⊥
unfolding collect
nothing_collected p ps h = ground arith

collect-IsPart :
    (ws ps : List String)
    → collect ws ≡ ok ps
    → AllLack slash ws
    → AllLack backslash ws
    → All IsPart ps
collect-IsPart [] [] h s b = tt
collect-IsPart [] (p ∷ ps) h s b = absurd (nothing_collected p ps h)
collect-IsPart (w ∷ ws) ps h s b = elim (collect_step w ws ps h) [
  | inl (noise, rest) ↦ collect-IsPart ws ps rest s.1 b.1
  | inr (qs, clean, below, rest, e) ↦ rw e (
    record { not_noise = clean; not_parent = below; no_slash = s.0; no_backslash = b.0 },
    collect-IsPart ws qs rest s.1 b.1,
  )
]

pub collect_id : (ps : List String) → All IsPart ps → collect ps ≡ ok ps
unfolding collect
collect_id [] h = refl
collect_id (p ∷ ps) h = rw (h.0.not_noise, h.0.not_parent, collect_id ps h.1)

pub keep_id : (ps : List String) → All IsPart ps → keep (λ part. not (is_noise part)) ps ≡ ps
unfolding keep
keep_id [] h = refl
keep_id (p ∷ ps) h = rw (h.0.not_noise, keep_id ps h.1)

module _ (raw : String) where
  posix_parts-Lacks :
      Lacks backslash raw → AllLack slash (posix_parts raw) × AllLack backslash (posix_parts raw)
  unfolding posix_parts
  posix_parts-Lacks h = (
    keep-AllLack (λ part. not (is_noise part)) slash (split slash raw) (split-Lacks slash raw),
    keep-AllLack (λ part. not (is_noise part)) backslash (split slash raw)
        (split-Lacks_other slash backslash raw h),
  )

join_parts-IsNormal :
    (ps : List String) {q : String} → All IsPart ps → join_parts ps ≡ ok q → IsNormal q
join_parts-IsNormal [] all h = cc
join_parts-IsNormal (p ∷ ps) all h = normal p ps all (ground arith)

abbrev raw_of : String → String
raw_of path = replace_char backslash slash (strip path)

-- A successful normalisation went through every guard.
normalize_inversion :
    (path : String) {q : String}
    → normalize_snapshot_path path ≡ ok q
    → (ps : List String) × (collect (posix_parts (raw_of path)) ≡ ok ps) × (join_parts ps ≡ ok q)
unfolding normalize_snapshot_path
normalize_inversion path {q} h =
    let (u, _, h1) = >>=-eq-ok (raise_if (is_empty (raw_of path)) path_empty) _ h in
    let (v, _, h2) =
      >>=-eq-ok (raise_if (starts_with_char slash (raw_of path)) path_absolute) _ h1 in
    >>=-eq-ok (collect (posix_parts (raw_of path))) join_parts h2

-- What the normaliser accepts becomes parts that are neither empty nor `.` nor `..`, and hold no
-- slash and no backslash: the result stays below the workspace's root.
pub normalize-IsNormal : (path q : String) → normalize_snapshot_path path ≡ ok q → IsNormal q
normalize-IsNormal path q h =
    let (ps, collected, joined) = normalize_inversion path h in
    let lacks =
      posix_parts-Lacks (raw_of path) (replace_char-Lacks backslash slash (strip path) refl) in
    join_parts-IsNormal ps (collect-IsPart (posix_parts (raw_of path)) ps collected lacks.0 lacks.1)
      joined

All-IsPart-lacks : (ps : List String) → All IsPart ps → AllLack slash ps × AllLack backslash ps
All-IsPart-lacks [] all = (tt, tt)
All-IsPart-lacks (p ∷ ps) all =
    let rest = All-IsPart-lacks ps all.1 in ((all.0.no_slash, rest.0), (all.0.no_backslash, rest.1))

-- The first character of a normalised path is the first of its first part.
join_starts :
    (p : String) (ps : List String)
    → IsPart p
    → (is_empty (join slash (p ∷ ps)) ≡ false)
      × (starts_with_char slash (join slash (p ∷ ps)) ≡ false)
unfolding join
join_starts String.[] ps h = absurd (ground (arith, h.not_noise))
join_starts (String.◌∷◌ c p) [] h = (refl, h.no_slash.0)
join_starts (String.◌∷◌ c p) (p' ∷ ps) h = (refl, h.no_slash.0)

pub posix_parts_lem :
    (raw : String) → posix_parts raw ≡ keep (λ part. not (is_noise part)) (split slash raw)
unfolding posix_parts
posix_parts_lem raw = refl

pub posix_parts-join :
    (p : String) (ps : List String)
    → All IsPart (p ∷ ps)
    → posix_parts (join slash (p ∷ ps)) ≡ p ∷ ps
unfolding posix_parts
posix_parts-join p ps all =
    rw (split-join slash p ps (All-IsPart-lacks (p ∷ ps) all).0) (keep_id (p ∷ ps) all)

raw_of_normal :
    (p : String) (ps : List String)
    → All IsPart (p ∷ ps)
    → strip (join slash (p ∷ ps)) ≡ join slash (p ∷ ps)
    → raw_of (join slash (p ∷ ps)) ≡ join slash (p ∷ ps)
raw_of_normal p ps all e = rw e (
    replace_char_absent backslash slash (join slash (p ∷ ps))
      (join-Lacks slash backslash (p ∷ ps) refl (All-IsPart-lacks (p ∷ ps) all).1))

-- The run of the normaliser on a raw text that passes its guards.
pub normalize_run :
    (path raw p : String) (ps : List String)
    → replace_char backslash slash (strip path) ≡ raw
    → is_empty raw ≡ false
    → starts_with_char slash raw ≡ false
    → collect (posix_parts raw) ≡ ok (p ∷ ps)
    → normalize_snapshot_path path ≡ ok (join slash (p ∷ ps))
unfolding normalize_snapshot_path
normalize_run path raw p ps r e s c = rw (r, e, s, c)

normalize-join :
    (p : String) (ps : List String)
    → All IsPart (p ∷ ps)
    → strip (join slash (p ∷ ps)) ≡ join slash (p ∷ ps)
    → normalize_snapshot_path (join slash (p ∷ ps)) ≡ ok (join slash (p ∷ ps))
normalize-join p ps all e =
    let starts = join_starts p ps all.0 in
    normalize_run (join slash (p ∷ ps)) (join slash (p ∷ ps)) p ps (raw_of_normal p ps all e)
      starts.0 starts.1 (rw (posix_parts-join p ps all) (collect_id (p ∷ ps) all))

-- A normalised path that starts and ends with no white space is left alone by the normaliser.
pub normalize_fixed : (q : String) → IsNormal q → strip q ≡ q → normalize_snapshot_path q ≡ ok q
normalize_fixed q (normal p ps all e) h = rw e (normalize-join p ps all (rw e at h))

-- The cloud side and the local side give every path the same normal form, or the same error.
pub normalize_agree : (path : String) → normalize_rel path ≡ normalize_snapshot_path path
unfolding normalize_rel normalize_snapshot_path
normalize_agree path = agree (strip path)
  where
    agree :
        (s : String)
        → (do
          raise_if (is_empty s) path_empty
          let raw = replace_char backslash slash s
          raise_if (starts_with_char slash raw) path_absolute
          parts ← collect (posix_parts raw)
          join_parts parts)
          ≡ (do
            let raw = replace_char backslash slash s
            raise_if (is_empty raw) path_empty
            raise_if (starts_with_char slash raw) path_absolute
            parts ← collect (posix_parts raw)
            join_parts parts)
    agree String.[] = refl
    agree (String.◌∷◌ c s) = refl

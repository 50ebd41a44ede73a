-- ===== src/Prelude/Text.antt =====
-- Python's string methods, on the characters of a `String`.
use Prim.Native.Char.{Char, code}
use Prim.Native.Nat.{ℕ, suc}
use mathlib.Core.Option.{Option, none, some}
use Prim.Native.String.{String}
use mathlib.Core.Path.{◌≡◌, refl, sym}
use mathlib.Core.Bool.{Bool, true, false, ◌&&◌, ◌||◌}
use mathlib.Core.List.{List, [], ◌∷◌}
use native.Mathlib.Omega.{arith}
use omnicode_mcp.Prelude.Tests.{leb, nat_beq, if◌then◌else◌}
use text.Mathlib.TextLemmas.{tail-eq_of_cons-eq}
use omnicode_mcp.Prelude.Lists.{All}

-- c.isspace()
unfoldable pub is_space : ℕ → Bool
is_space c =
    (leb 9 c && leb c 13)
    || (leb 28 c && leb c 32)
    || nat_beq c 0x85
    || nat_beq c 0xa0
    || nat_beq c 0x1680
    || (leb 0x2000 c && leb c 0x200a)
    || nat_beq c 0x2028
    || nat_beq c 0x2029
    || nat_beq c 0x202f
    || nat_beq c 0x205f
    || nat_beq c 0x3000

abbrev pub is_empty : String → Bool
is_empty String.[] = true
is_empty (String.◌∷◌ c s) = false

-- s.lstrip()
unfoldable pub lstrip : String → String
lstrip String.[] = String.[]
lstrip (String.◌∷◌ c s) = let rest = lstrip s in if is_space (code c) then rest else String.◌∷◌ c s

-- s.rstrip()
unfoldable pub rstrip : String → String
rstrip String.[] = String.[]
rstrip (String.◌∷◌ c s) =
    let rest = rstrip s in
    if is_empty rest && is_space (code c) then String.[] else String.◌∷◌ c rest

-- s.strip()
unfoldable pub strip : String → String
unfolding lstrip rstrip is_space
strip s = rstrip (lstrip s)

-- s.replace(a, b) for two characters
unfoldable pub replace_char : Char → Char → String → String
replace_char a b String.[] = String.[]
replace_char a b (String.◌∷◌ c s) =
    String.◌∷◌ (if nat_beq (code c) (code a) then b else c) (replace_char a b s)

-- s.startswith("/") for one character
abbrev pub starts_with_char : Char → String → Bool
starts_with_char a String.[] = false
starts_with_char a (String.◌∷◌ c s) = nat_beq (code c) (code a)

abbrev pub prepend : Char → List String → List String
prepend c [] = (String.◌∷◌ c String.[]) ∷ []
prepend c (w ∷ ws) = (String.◌∷◌ c w) ∷ ws

-- s.endswith(a) for one character
abbrev pub ends_with_char : Char → String → Bool
ends_with_char a String.[] = false
ends_with_char a (String.◌∷◌ c s) =
    if is_empty s then nat_beq (code c) (code a) else ends_with_char a s

-- a in s for one character
abbrev pub contains_char : Char → String → Bool
contains_char a String.[] = false
contains_char a (String.◌∷◌ c s) = nat_beq (code c) (code a) || contains_char a s

-- s.rstrip(a) for one character
abbrev pub rstrip_char : Char → String → String
rstrip_char a String.[] = String.[]
rstrip_char a (String.◌∷◌ c s) =
    let rest = rstrip_char a s in
    if is_empty rest && nat_beq (code c) (code a) then String.[] else String.◌∷◌ c rest

-- s.split(a) for one character: never empty
unfoldable pub split : Char → String → List String
split a String.[] = String.[] ∷ []
split a (String.◌∷◌ c s) =
    let rest = split a s in if nat_beq (code c) (code a) then String.[] ∷ rest else prepend c rest

-- The character does not occur.
abbrev pub Lacks : Char → String → Type 0
Lacks a String.[] = Unit
Lacks a (String.◌∷◌ c s) = (nat_beq (code c) (code a) ≡ false) × Lacks a s

infixr 65 ◌+++◌
abbrev pub ◌+++◌ : String → String → String
String.[] +++ t = t
(String.◌∷◌ c s) +++ t = String.◌∷◌ c (s +++ t)

-- a.join(parts) for one character
unfoldable pub join : Char → List String → String
join a [] = String.[]
join a (w ∷ []) = w
join a (w ∷ w' ∷ ws) = w +++ String.◌∷◌ a (join a (w' ∷ ws))

pub nat_beq_refl : (n : ℕ) → nat_beq n n ≡ true
nat_beq_refl n = ground arith

pub split_single : (a : Char) (w : String) → Lacks a w → split a w ≡ w ∷ []
unfolding split
split_single a String.[] h = refl
split_single a (String.◌∷◌ c w) h = rw (h.0, split_single a w h.1)

pub split_step :
    (a : Char) (w t : String) → Lacks a w → split a (w +++ String.◌∷◌ a t) ≡ w ∷ split a t
unfolding split
split_step a String.[] t h = rw (nat_beq_refl (code a))
split_step a (String.◌∷◌ c w) t h = rw (h.0, split_step a w t h.1)

-- Splitting what was joined gives the parts back.
pub split-join :
    (a : Char) (w : String) (ws : List String)
    → All (Lacks a) (w ∷ ws)
    → split a (join a (w ∷ ws)) ≡ w ∷ ws
unfolding join
split-join a w [] h = split_single a w h.0
split-join a w (w' ∷ ws) h = rw (split_step a w (join a (w' ∷ ws)) h.0, split-join a w' ws h.1)

abbrev pub AllLack : Char → List String → Type 0
AllLack a = All (Lacks a)

prepend-Lacks :
    (a c : Char) (ws : List String)
    → nat_beq (code c) (code a) ≡ false
    → AllLack a ws
    → AllLack a (prepend c ws)
prepend-Lacks a c [] h ws = ((h, tt), tt)
prepend-Lacks a c (w ∷ ws) h hs = ((h, hs.0), hs.1)

split_if :
    (b : Bool) (a c : Char) (ws : List String)
    → b ≡ nat_beq (code c) (code a)
    → AllLack a ws
    → AllLack a (if b then String.[] ∷ ws else prepend c ws)
split_if true a c ws e h = (tt, h)
split_if false a c ws e h = prepend-Lacks a c ws (sym e) h

-- No part of a split holds the separator.
pub split-Lacks : (a : Char) (s : String) → AllLack a (split a s)
unfolding split
split-Lacks a String.[] = (tt, tt)
split-Lacks a (String.◌∷◌ c s) =
    split_if (nat_beq (code c) (code a)) a c (split a s) refl (split-Lacks a s)

split_if_other :
    (d : Bool) (b c : Char) (ws : List String)
    → nat_beq (code c) (code b) ≡ false
    → AllLack b ws
    → AllLack b (if d then String.[] ∷ ws else prepend c ws)
split_if_other true b c ws e h = (tt, h)
split_if_other false b c ws e h = prepend-Lacks b c ws e h

-- A character that the text lacks is in none of its parts.
pub split-Lacks_other : (a b : Char) (s : String) → Lacks b s → AllLack b (split a s)
unfolding split
split-Lacks_other a b String.[] h = (tt, tt)
split-Lacks_other a b (String.◌∷◌ c s) h =
    split_if_other (nat_beq (code c) (code a)) b c (split a s) h.0 (split-Lacks_other a b s h.1)

-- A replaced character is gone.
pub replace_char-Lacks :
    (a b : Char) (s : String) → nat_beq (code b) (code a) ≡ false → Lacks a (replace_char a b s)
unfolding replace_char
replace_char-Lacks a b String.[] n = tt
replace_char-Lacks a b (String.◌∷◌ c s) n = (ground arith, replace_char-Lacks a b s n)

pub replace_char_absent : (a b : Char) (s : String) → Lacks a s → replace_char a b s ≡ s
unfolding replace_char
replace_char_absent a b String.[] h = refl
replace_char_absent a b (String.◌∷◌ c s) h = rw (h.0, replace_char_absent a b s h.1)

append-Lacks : (a : Char) (s t : String) → Lacks a s → Lacks a t → Lacks a (s +++ t)
append-Lacks a String.[] t hs ht = ht
append-Lacks a (String.◌∷◌ c s) t hs ht = (hs.0, append-Lacks a s t hs.1 ht)

pub join-Lacks :
    (a b : Char) (ws : List String)
    → nat_beq (code a) (code b) ≡ false
    → AllLack b ws
    → Lacks b (join a ws)
unfolding join
join-Lacks a b [] n h = tt
join-Lacks a b (w ∷ []) n h = h.0
join-Lacks a b (w ∷ w' ∷ ws) n h =
    append-Lacks b w (String.◌∷◌ a (join a (w' ∷ ws))) h.0 (n, join-Lacks a b (w' ∷ ws) n h.1)

-- The text behind a prefix: `s[len(p):]` where `s.startswith(p)`.
unfoldable pub behind : String → String → Option String
behind String.[] s = some s
behind (String.◌∷◌ a p) String.[] = none
behind (String.◌∷◌ a p) (String.◌∷◌ c s) =
    let rest = behind p s in if nat_beq (code c) (code a) then rest else none

-- s.startswith(p)
abbrev pub has_prefix : String → String → Bool
has_prefix s p = elim (behind p s) [ none ↦ false | some _ ↦ true ]

lower_in : String → String → Char → Char
lower_in (String.◌∷◌ u us) (String.◌∷◌ l ls) c =
    if nat_beq (code c) (code u) then l else lower_in us ls c
lower_in _ _ c = c

-- s.lower() of the ASCII letters
unfoldable pub lower : String → String
unfolding lower_in
lower String.[] = String.[]
lower (String.◌∷◌ c s) =
    String.◌∷◌ (lower_in "ABCDEFGHIJKLMNOPQRSTUVWXYZ" "abcdefghijklmnopqrstuvwxyz" c) (lower s)

-- len(s), in characters
abbrev pub count_chars : String → ℕ
count_chars String.[] = 0
count_chars (String.◌∷◌ c s) = suc (count_chars s)

-- all(p(c) for c in s)
abbrev pub all_chars : (ℕ → Bool) → String → Bool
all_chars p String.[] = true
all_chars p (String.◌∷◌ c s) = p (code c) && all_chars p s

pub append_inj : (p s t : String) → p +++ s ≡ p +++ t → s ≡ t
append_inj String.[] s t e = e
append_inj (String.◌∷◌ c p) s t e = append_inj p s t (tail-eq_of_cons-eq e)

pub behind-append : (p t : String) → behind p (p +++ t) ≡ some t
unfolding behind
behind-append String.[] t = refl
behind-append (String.◌∷◌ c p) t = rw nat_beq_refl (behind-append p t)

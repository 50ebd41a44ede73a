-- ===== src/Edit/Patch/Newlines.antt =====
-- Reading a text file normalises its line ends once and for all.
use Prim.Native.Char.{Char, code}
use omnicode_mcp.Prelude.{◌≡◌, refl, String, Bool, true, false, nat_beq, if◌then◌else◌}
use omnicode_mcp.Prelude.Text.{Lacks, starts_with_char}
use omnicode_mcp.Prelude.Newlines.{universal_newlines, newline, carriage_return}

Lacks-if :
    (a b : Bool) (c : Char) (s : String)
    → nat_beq (code c) (code carriage_return) ≡ a
    → Lacks carriage_return s
    → Lacks carriage_return (if a then (if b then s else String.◌∷◌ newline s) else String.◌∷◌ c s)
Lacks-if true true c s e h = h
Lacks-if true false c s e h = (refl, h)
Lacks-if false b c s e h = (e, h)

pub universal_newlines-Lacks : (s : String) → Lacks carriage_return (universal_newlines s)
unfolding universal_newlines
universal_newlines-Lacks String.[] = tt
universal_newlines-Lacks (String.◌∷◌ c s) =
    Lacks-if _ (starts_with_char newline s) c (universal_newlines s) refl
      (universal_newlines-Lacks s)

pub universal_newlines_same : (s : String) → Lacks carriage_return s → universal_newlines s ≡ s
unfolding universal_newlines
universal_newlines_same String.[] h = refl
universal_newlines_same (String.◌∷◌ c s) h = rw (h.0, universal_newlines_same s h.1)

pub universal_newlines_twice :
    (s : String) → universal_newlines (universal_newlines s) ≡ universal_newlines s
universal_newlines_twice s =
    universal_newlines_same (universal_newlines s) (universal_newlines-Lacks s)

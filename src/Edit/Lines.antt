-- ===== src/Edit/Lines.antt =====
-- The texts of omnicode_core/edit/patch.py: line ends, lines, and the lines that a diff counts.
use Prim.Native.Char.{code}
use omnicode_mcp.Prelude.{
  ℕ, zero, suc, String, Bool, not, ◌&&◌, ◌||◌, List, [], ◌∷◌, length, keep, leb, nat_beq,
  if◌then◌else◌,
}
use omnicode_mcp.Prelude.Eq.{string_eq, nat_eq}
use omnicode_mcp.Prelude.Text.{starts_with_char, has_prefix, prepend}
use omnicode_mcp.Prelude.Newlines.{newline, carriage_return}

-- t[:n]
unfoldable pub take_chars : ℕ → String → String
take_chars zero s = String.[]
take_chars (suc n) String.[] = String.[]
take_chars (suc n) (String.◌∷◌ c s) = String.◌∷◌ c (take_chars n s)

abbrev pub is_line_break : ℕ → Bool
is_line_break c =
    (leb 10 c && leb c 13)
    || (leb 28 c && leb c 30)
    || nat_beq c 0x85
    || nat_beq c 0x2028
    || nat_beq c 0x2029

-- t.splitlines()
unfoldable pub splitlines : String → List String
splitlines String.[] = []
splitlines (String.◌∷◌ c s) =
    let rest = splitlines s in
    if is_line_break (code c)
    then (if nat_beq (code c) (code carriage_return) && starts_with_char newline s
        then rest
        else String.[] ∷ rest)
    else prepend c rest

-- The lines with one of the two signs that are no file header.
unfoldable pub count_signed : String → String → String → ℕ
unfolding splitlines keep
count_signed sign header diff =
    length (keep (λ line. has_prefix line sign && not (has_prefix line header)) (splitlines diff))

unfoldable pub count_changes : String → ℕ × ℕ
count_changes diff = (count_signed "+" "+++" diff, count_signed "-" "---" diff)

-- ===== src/Index/Tracker/Names.antt =====
-- Names of files: `os.path.splitext`, and `_norm_path` of omnicode/search/engine.py.
use omnicode_mcp.Prelude.{ℕ, zero, suc, String, ◌&&◌, List, [], ◌∷◌, nat_beq, if◌then◌else◌}
use omnicode_mcp.Prelude.Text.{is_empty, replace_char, split}
use Prim.Native.Char.{code}

-- data[n:]
unfoldable pub drop : ℕ → List ℕ → List ℕ
drop zero bytes = bytes
drop (suc n) [] = []
drop (suc n) (b ∷ bytes) = drop n bytes

-- s.lstrip(".")
unfoldable pub skip_dots : String → String
skip_dots String.[] = String.[]
skip_dots (String.◌∷◌ c s) =
    let rest = skip_dots s in if nat_beq (code c) (code ".") then rest else String.◌∷◌ c s

-- The text from the last dot on.
unfoldable pub from_last_dot : String → String
from_last_dot String.[] = String.[]
from_last_dot (String.◌∷◌ c s) =
    let rest = from_last_dot s in
    if is_empty rest && nat_beq (code c) (code ".") then String.◌∷◌ c s else rest

abbrev pub last_of : String → List String → String
last_of w [] = w
last_of w (x ∷ xs) = last_of x xs

-- os.path.splitext(path)[1]: leading dots of a name begin no extension
unfoldable pub extension : String → String
unfolding from_last_dot skip_dots split
extension path = from_last_dot (skip_dots (last_of path (split "/" path)))

-- while p.startswith("./"): p = p[2:]
unfoldable pub skip_here : String → String
skip_here (String.◌∷◌ a (String.◌∷◌ b s)) =
    let rest = skip_here s in
    if nat_beq (code a) (code ".") && nat_beq (code b) (code "/")
    then rest
    else String.◌∷◌ a (String.◌∷◌ b s)
skip_here s = s

unfoldable pub norm_path : String → String
unfolding skip_here replace_char
norm_path path = skip_here (replace_char "\\" "/" path)

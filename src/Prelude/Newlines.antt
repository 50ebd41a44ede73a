-- ===== src/Prelude/Newlines.antt =====
-- The line ends of Python's text files.
use Prim.Native.Char.{Char, code}
use Prim.Native.String.{String}
use omnicode_mcp.Prelude.Tests.{nat_beq, if◌then◌else◌}
use omnicode_mcp.Prelude.Text.{starts_with_char}

abbrev pub newline : Char
newline = "\n"

abbrev pub carriage_return : Char
carriage_return = "\r"

-- A text file is read with "\r\n" and "\r" as "\n".
unfoldable pub universal_newlines : String → String
universal_newlines String.[] = String.[]
universal_newlines (String.◌∷◌ c s) =
    let rest = universal_newlines s in
    if nat_beq (code c) (code carriage_return)
    then (if starts_with_char newline s then rest else String.◌∷◌ newline rest)
    else String.◌∷◌ c rest

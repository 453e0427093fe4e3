-- ===== src/Support/Escape.antt =====
-- generator/src/Support/Utils.cpp: `escapeCppString`.
pub mod Reading
use siesta.Prelude.{Text, lit, [], ◌∷◌, ◌++◌, ◌==◌, ℕ, if◌then◌else◌}

-- The cases of the switch: backslash, quote, newline, carriage return, tab.
unfoldable pub escape_char : ℕ → Text
escape_char c =
    if c == 92
    then 92 ∷ 92 ∷ []
    else if c == 34
    then 92 ∷ 34 ∷ []
    else if c == 10
    then 92 ∷ b'n' ∷ []
    else if c == 13
    then 92 ∷ b'r' ∷ []
    else if c == 9
    then 92 ∷ b't' ∷ []
    else c ∷ []

unfoldable pub escape_cpp_string : Text → Text
unfolding escape_char
escape_cpp_string [] = []
escape_cpp_string (c ∷ s) = escape_char c ++ escape_cpp_string s

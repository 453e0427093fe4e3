-- ===== src/Support/Escape/Reading.antt =====
-- A reader of C++ string literals, written from the language and not from the generator, and what it
-- makes of an escaped text.
use siesta.Prelude.{
  Text, [], ◌∷◌, ◌++◌, ◌==◌, ℕ, if◌then◌else◌, Option, none, some, ◌≡◌, refl, arith, append_assoc,
}
use siesta.Support.Escape.{escape_char, escape_cpp_string}

-- What a simple escape sequence stands for.
unfoldable pub simple_escape : ℕ → Option ℕ
simple_escape e =
    if e == b'n'
    then some 10
    else if e == b'r'
    then some 13
    else if e == b't'
    then some 9
    else if e == 92
    then some 92
    else if e == 34
    then some 34
    else none

abbrev add_byte : Option ℕ → Option (Text × Text) → Option (Text × Text)
add_byte (some b) (some (s, rest)) = some (b ∷ s, rest)
add_byte (some b) none = none
add_byte none r = none

-- Reads a literal behind its opening quote: its value, and the text behind the closing quote. A
-- newline inside the quotes is an error.
unfoldable pub read_literal : Text → Option (Text × Text)
unfolding simple_escape
read_literal [] = none
read_literal (c ∷ []) = if c == 34 then some ([], []) else none
read_literal (c ∷ e ∷ s) =
    let escaped = add_byte (simple_escape e) (read_literal s) in
    let plain = add_byte (some c) (read_literal (e ∷ s)) in
    if c == 34
    then some ([], e ∷ s)
    else if c == 10
    then none
    else if c == 92
    then escaped
    else plain

abbrev read_escaped : Text → Option (Text × Text)
read_escaped [] = none
read_escaped (e ∷ s) = add_byte (simple_escape e) (read_literal s)

read_literal-cons :
    (c : ℕ) (s : Text)
    → read_literal (c ∷ s) ≡ (
        if c == 34
        then some ([], s)
        else if c == 10
        then none
        else if c == 92
        then read_escaped s
        else add_byte (some c) (read_literal s))
unfolding read_literal
read_literal-cons c [] = ground arith
read_literal-cons c (e ∷ s) = refl

read-escape_char :
    (c : ℕ) (s rest : Text) (tail : Text)
    → read_literal tail ≡ some (s, rest)
    → read_literal (escape_char c ++ tail) ≡ some (c ∷ s, rest)
unfolding escape_char simple_escape
read-escape_char c s rest tail h = ground (
  arith,
  read_literal-cons c tail,
  read_literal-cons 92 (92 ∷ tail),
  read_literal-cons 92 (34 ∷ tail),
  read_literal-cons 92 (b'n' ∷ tail),
  read_literal-cons 92 (b'r' ∷ tail),
  read_literal-cons 92 (b't' ∷ tail),
)

-- A C++ compiler that reads an escaped text behind an opening quote comes to the quote that the
-- generator put behind it, and has read the text that was escaped.
pub read_literal-escape :
    (s rest : Text) → read_literal (escape_cpp_string s ++ 34 ∷ rest) ≡ some (s, rest)
unfolding escape_cpp_string
read_literal-escape [] rest = read_literal-cons 34 rest
read_literal-escape (c ∷ s) rest =
    rw append_assoc
      (read-escape_char c s rest (escape_cpp_string s ++ 34 ∷ rest) (read_literal-escape s rest))

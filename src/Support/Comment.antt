-- ===== src/Support/Comment.antt =====
-- generator/src/Support/Utils.cpp: `write_multiline_comment`.
pub mod Lines
use siesta.Prelude.{
  Text, lit, find_byte, Bool, List, [], ◌∷◌, ◌++◌, ◌==◌, ◌&&◌, ◌||◌, leb, ℕ, zero, suc,
  if◌then◌else◌, Option, none, some, length,
}

-- std::isspace in the default locale
abbrev pub is_space : ℕ → Bool
is_space c = c == 32 || leb 9 c && leb c 13

unfoldable pub trim_front : Text → Text
trim_front [] = []
trim_front (c ∷ s) = let rest = trim_front s in if is_space c then rest else c ∷ s

abbrev keep_back : ℕ → Text → Text
keep_back c [] = if is_space c then [] else c ∷ []
keep_back c (d ∷ s) = c ∷ d ∷ s

unfoldable pub trim_back : Text → Text
trim_back [] = []
trim_back (c ∷ s) = keep_back c (trim_back s)

-- The `while` loop: the texts that it writes behind `// `, one to a line. The newline that ended a
-- line stays in front of what is left. `none` means that the fuel ran out.
unfoldable pub comment_lines : ℕ → Text → Option (List Text)
comment_lines zero s = none
comment_lines (suc fuel) [] = some []
comment_lines (suc fuel) (c ∷ s) = elim (find_byte 10 (trim_back (trim_front (c ∷ s)))) [
  | none ↦ some (trim_back (trim_front (c ∷ s)) ∷ [])
  | some (line, behind) ↦ elim (comment_lines fuel (10 ∷ behind)) [
    | none ↦ none
    | some lines ↦ some (line ∷ lines)
  ]
]

unfoldable pub put_lines : Text → List Text → Text
put_lines indent [] = []
put_lines indent (l ∷ ls) = indent ++ (lit "// " ++ (l ++ 10 ∷ put_lines indent ls))

unfoldable pub write_multiline_comment : Text → Text → Text → Option Text
unfolding comment_lines put_lines
write_multiline_comment out comment indent = elim (comment_lines (suc (length comment)) comment) [
  | none ↦ none
  | some lines ↦ some (out ++ put_lines indent lines)
]

-- ===== src/Support/Comment/Lines.antt =====
-- The comment loop ends, no line that it writes leaves the comment, and nothing visible is lost.
use siesta.Prelude.{
  ℕ, zero, suc, ◌<◌, ◌≤◌, Text, find_byte, false, List, [], ◌∷◌, ◌++◌, none, some, ◌≡◌, refl, arith,
  All, Without, Found, find_byte-Found, find_byte-Without, length, length-append, Option-cases,
  Bool-cases, inl, inr, if◌then◌else◌, ◌∙◌, ap, sym, append-nil,
}
use siesta.Support.Comment.{
  is_space, trim_front, trim_back, keep_back, comment_lines, put_lines, write_multiline_comment,
}

-- A text without its white space.
unfoldable pub visible : Text → Text
visible [] = []
visible (c ∷ s) = let rest = visible s in if is_space c then rest else c ∷ rest

pub visible-append : (s t : Text) → visible (s ++ t) ≡ visible s ++ visible t
unfolding visible
visible-append [] t = refl
visible-append (c ∷ s) t = ground (arith, visible-append s t)

visible-trim_front : (s : Text) → visible (trim_front s) ≡ visible s
unfolding visible trim_front
visible-trim_front [] = refl
visible-trim_front (c ∷ s) = ground (arith, visible-trim_front s)

visible-keep_back : (c : ℕ) (t : Text) → visible (keep_back c t) ≡ visible (c ∷ t)
unfolding visible
visible-keep_back c [] = ground arith
visible-keep_back c (d ∷ t) = refl

visible-trim_back : (s : Text) → visible (trim_back s) ≡ visible s
unfolding visible trim_back
visible-trim_back [] = refl
visible-trim_back (c ∷ s) = visible-keep_back c (trim_back s) ∙ ground (arith, visible-trim_back s)

-- The text is empty or begins with a visible byte.
abbrev VisibleFirst : Text → Type 0
VisibleFirst [] = Unit
VisibleFirst (c ∷ _) = is_space c ≡ false

trim_front-VisibleFirst : (s : Text) → VisibleFirst (trim_front s)
unfolding trim_front
trim_front-VisibleFirst [] = tt
trim_front-VisibleFirst (c ∷ s) = elim (Bool-cases (is_space c)) [
  | inl e ↦ rw e (trim_front-VisibleFirst s)
  | inr e ↦ rw e e
]

keep_back-VisibleFirst : (c : ℕ) (t : Text) → is_space c ≡ false → VisibleFirst (keep_back c t)
keep_back-VisibleFirst c [] e = rw e e
keep_back-VisibleFirst c (d ∷ t) e = e

trim_back-VisibleFirst : (s : Text) → VisibleFirst s → VisibleFirst (trim_back s)
unfolding trim_back
trim_back-VisibleFirst [] h = tt
trim_back-VisibleFirst (c ∷ s) h = keep_back-VisibleFirst c (trim_back s) h

length-trim_front : (s : Text) → length (trim_front s) ≤ length s
unfolding trim_front
length-trim_front [] = omega arith
length-trim_front (c ∷ s) = ground (arith, length-trim_front s)

length-keep_back : (c : ℕ) (t : Text) → length (keep_back c t) ≤ suc (length t)
length-keep_back c [] = ground arith
length-keep_back c (d ∷ t) = omega arith

length-trim_back : (s : Text) → length (trim_back s) ≤ length s
unfolding trim_back
length-trim_back [] = omega arith
length-trim_back (c ∷ s) = omega (arith, length-keep_back c (trim_back s), length-trim_back s)

abbrev trimmed : Text → Text
trimmed s = trim_back (trim_front s)

-- A line is cut off in front of a newline that does not come first.
shorter :
    (s before behind : Text)
    → VisibleFirst s
    → Found 10 s before behind
    → suc (length behind) < length s
shorter [] [] behind v f = cc (f.split)
shorter [] (_ ∷ _) behind v f = cc (f.split)
shorter (c ∷ s) [] behind v f = ground (arith, f.split)
shorter (c ∷ s) (b ∷ before) behind v f =
    omega (arith, ap length f.split, length-append before (10 ∷ behind))

abbrev pub all_visible : List Text → Text
all_visible [] = []
all_visible (l ∷ ls) = visible l ++ all_visible ls

-- What the loop gives for a text.
record IsComment (s : Text) (lines : List Text) : Type 0 where
  within : All (Without 10) lines
  kept : all_visible lines ≡ visible s

visible-trimmed : (s : Text) → visible (trimmed s) ≡ visible s
visible-trimmed s = visible-trim_back (trim_front s) ∙ visible-trim_front s

length-trimmed : (s : Text) → length (trimmed s) ≤ length s
length-trimmed s = omega (arith, length-trim_back (trim_front s), length-trim_front s)

trimmed-VisibleFirst : (s : Text) → VisibleFirst (trimmed s)
trimmed-VisibleFirst s = trim_back-VisibleFirst (trim_front s) (trim_front-VisibleFirst s)

one_line : (s : Text) → find_byte 10 (trimmed s) ≡ none → IsComment s (trimmed s ∷ [])
one_line s e = record {
  within = (find_byte-Without 10 (trimmed s) e, tt);
  kept = append-nil (visible (trimmed s)) ∙ visible-trimmed s;
}

more_lines :
    (s before behind : Text) (lines : List Text)
    → Found 10 (trimmed s) before behind
    → IsComment (10 ∷ behind) lines
    → IsComment s (before ∷ lines)
more_lines s before behind lines f rest = record {
  within = (f.first, rest.within);
  kept =
      rw rest.kept (sym (visible-append before (10 ∷ behind)) ∙ rw (← f.split) (visible-trimmed s));
}

comment_lines_total :
    (fuel : ℕ) (s : Text)
    → length s < fuel
    → (lines : List Text) × (comment_lines fuel s ≡ some lines) × IsComment s lines
unfolding comment_lines
comment_lines_total zero s h = absurd (omega arith)
comment_lines_total (suc fuel) [] h =
    ([], refl, record { within = tt; kept = unfold visible in refl })
comment_lines_total (suc fuel) (c ∷ s) h = elim (Option-cases (find_byte 10 (trimmed (c ∷ s)))) [
  | inl e ↦ (trimmed (c ∷ s) ∷ [], rw (e, comment_lines) refl, one_line (c ∷ s) e)
  | inr ((before, behind), e) ↦
      let f = find_byte-Found 10 (trimmed (c ∷ s)) before behind e in
      let (lines, eq, rest) = comment_lines_total fuel (10 ∷ behind) (
        omega (
          arith,
          shorter (trimmed (c ∷ s)) before behind (trimmed-VisibleFirst (c ∷ s)) f,
          length-trimmed (c ∷ s),
        )) in
      (
        before ∷ lines,
        rw (e, comment_lines) (rw eq refl),
        more_lines (c ∷ s) before behind lines f rest,
      )
]

-- Writing a comment ends and appends to the output one line `// …` for each line of a list, where no
-- line holds a newline and the lines together hold the visible bytes of the comment, in their order.
pub write_multiline_comment_lem :
    (out comment indent : Text)
    → (lines : List Text) × (write_multiline_comment out comment indent
        ≡ some (out ++ put_lines indent lines))
      × All (Without 10) lines
      × (all_visible lines ≡ visible comment)
unfolding write_multiline_comment
write_multiline_comment_lem out comment indent =
    let (lines, eq, c) = comment_lines_total (suc (length comment)) comment (omega arith) in
    (lines, rw (eq, write_multiline_comment) refl, c.within, c.kept)

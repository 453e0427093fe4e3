-- ===== src/Support/Sanitize/Laws.antt =====
-- Lemmas about the passes of `sanitize`.
use siesta.Prelude.{
  Text, lit, text_eq, text_eq_iff, has, Bool, true, false, not, List, [], ◌∷◌, ◌++◌, all_of, All,
  All-append, ◌==◌, ◌&&◌, ◌||◌, ◌≡◌, refl, arith, Bool-cases, inl, inr,
}
use siesta.Support.Sanitize.{
  reserved, is_replaced, is_digit, replace_chars, push_if_reserved, prefix_if_digit, sanitize,
  replace_dots,
}

-- What holds of every member of a list of texts holds of a text that is found in it.
pub all_of-has :
    (p : Text → Bool) (s : Text) (ws : List Text)
    → all_of p ws ≡ true
    → has s ws ≡ true
    → p s ≡ true
unfolding has
all_of-has p s [] h k = cc
all_of-has p s (w ∷ ws) h k = elim (Bool-cases (text_eq s w)) [
  | inl e ↦ let same = (text_eq_iff s w).0 e in rw same (ground arith)
  | inr e ↦ all_of-has p s ws (ground arith) (rw e at k)
]

pub All-replace_chars : (s : Text) → All (λ c. is_replaced c ≡ false) (replace_chars s)
unfolding replace_chars
All-replace_chars [] = tt
All-replace_chars (c ∷ s) = (ground arith, All-replace_chars s)

pub replace_chars_id : (s : Text) → All (λ c. is_replaced c ≡ false) s → replace_chars s ≡ s
unfolding replace_chars
replace_chars_id [] h = refl
replace_chars_id (c ∷ s) (p, h) = rw (p, replace_chars_id s h)

-- The first byte is a digit.
abbrev pub digit_first : Text → Bool
digit_first [] = false
digit_first (c ∷ _) = is_digit c

-- An underscore, and then a digit.
abbrev pub digit_second : Text → Bool
digit_second [] = false
digit_second (c ∷ s) = c == b'_' && digit_first s

abbrev unsafe_after_push : Text → Bool
unsafe_after_push w = has (w ++ lit "_") reserved || (digit_first w || digit_second w)

no_reserved_unsafe : all_of (λ w. not (unsafe_after_push w)) reserved ≡ true
unfolding reserved has text_eq
no_reserved_unsafe = refl

none_of_three :
    (a b c : Bool) → not (a || (b || c)) ≡ true → (a ≡ false) × (b ≡ false) × (c ≡ false)
none_of_three a b c h = ground arith

-- With an underscore behind it a reserved word is free, and it begins with no digit.
pub reserved_facts :
    (s : Text)
    → has s reserved ≡ true
    → (has (s ++ lit "_") reserved ≡ false) × (digit_first s ≡ false) × (digit_second s ≡ false)
reserved_facts s h =
    none_of_three (has (s ++ lit "_") reserved) (digit_first s) (digit_second s)
      (all_of-has (λ w. not (unsafe_after_push w)) s reserved no_reserved_unsafe h)

pub digit_first-append : (s : Text) → digit_first s ≡ false → digit_first (s ++ lit "_") ≡ false
digit_first-append [] h = refl
digit_first-append (c ∷ s) h = h

pub prefix_if_digit_id : (s : Text) → digit_first s ≡ false → prefix_if_digit s ≡ s
unfolding prefix_if_digit
prefix_if_digit_id [] h = refl
prefix_if_digit_id (c ∷ s) h = rw h

-- An underscore and a digit begin no reserved word.
pub not_reserved_of_digit_second : (s : Text) → digit_second s ≡ true → has s reserved ≡ false
not_reserved_of_digit_second s h = elim (Bool-cases (has s reserved)) [
  | inl found ↦ cc ((reserved_facts s found).2)
  | inr e ↦ e
]

-- What `sanitize` leaves alone.
pub record IsSafeName (s : Text) : Type 0 where
  pub chars : All (λ c. is_replaced c ≡ false) s
  pub first : digit_first s ≡ false
  pub free : has s reserved ≡ false

prefix_if_digit-IsSafeName :
    (s : Text)
    → All (λ c. is_replaced c ≡ false) s
    → has s reserved ≡ false
    → IsSafeName (prefix_if_digit s)
unfolding prefix_if_digit
prefix_if_digit-IsSafeName [] h k = record { chars = tt; first = refl; free = k }
prefix_if_digit-IsSafeName (c ∷ s) h k = elim (Bool-cases (is_digit c)) [
  | inl d ↦ rw d (record {
    chars = (refl, h);
    first = refl;
    free = not_reserved_of_digit_second (b'_' ∷ c ∷ s) d;
  })
  | inr d ↦ rw d (record { chars = h; first = d; free = k })
]

pub push_prefix-IsSafeName :
    (s : Text)
    → All (λ c. is_replaced c ≡ false) s
    → IsSafeName (prefix_if_digit (push_if_reserved s))
unfolding push_if_reserved
push_prefix-IsSafeName s h = elim (Bool-cases (has s reserved)) [
  | inl r ↦
      let (free, first, _) = reserved_facts s r in
      rw r (prefix_if_digit-IsSafeName (s ++ lit "_") (All-append _ s (lit "_") h (refl, tt)) free)
  | inr r ↦ rw r (prefix_if_digit-IsSafeName s h r)
]

pub sanitize_id : (s : Text) → IsSafeName s → sanitize s ≡ s
unfolding sanitize push_if_reserved
sanitize_id [] h = refl
sanitize_id (c ∷ s) h =
    rw (replace_chars_id (c ∷ s) h.chars) (rw h.free (prefix_if_digit_id (c ∷ s) h.first))

pub replace_dots_id : (s : Text) → All (λ c. is_replaced c ≡ false) s → replace_dots s ≡ s
unfolding replace_dots
replace_dots_id [] h = refl
replace_dots_id (c ∷ s) (p, h) = rw (replace_dots_id s h) (ground arith)

-- ===== src/Prelude/Texts.antt =====
-- Texts as lists of bytes: std::string and std::string_view, their equality and their searches.
use Prim.Native.Char.{code}
use Prim.Native.Nat.{ℕ}
use Prim.Native.String.{String}
use mathlib.Core.Path.{◌≡◌, refl}
use mathlib.Core.Logic.{◌↔◌, inl, inr}
use mathlib.Core.Bool.{Bool, true, false, ◌&&◌, ◌||◌}
use mathlib.Core.Option.{Option, none, some}
use mathlib.Core.List.{List, [], ◌∷◌, ◌++◌}
use native.Mathlib.Omega.{arith}
use siesta.Prelude.Tests.{◌==◌, ==_iff, if◌then◌else◌, Bool-cases}
use siesta.Prelude.Lists.{All}

abbrev pub Text : Type 0
Text = List ℕ

-- The bytes of an ASCII literal.
abbrev pub lit : String → Text
lit String.[] = []
lit (String.◌∷◌ c s) = code c ∷ lit s

-- operator== of std::string
unfoldable pub text_eq : Text → Text → Bool
text_eq [] [] = true
text_eq [] (_ ∷ _) = false
text_eq (_ ∷ _) [] = false
text_eq (a ∷ s) (b ∷ t) = a == b && text_eq s t

text_eq_sound : (s t : Text) → text_eq s t ≡ true → s ≡ t
unfolding text_eq
text_eq_sound [] [] h = refl
text_eq_sound [] (_ ∷ _) h = cc
text_eq_sound (_ ∷ _) [] h = cc
text_eq_sound (a ∷ s) (b ∷ t) h = ground (arith, text_eq_sound s t)

pub text_eq_refl : (s : Text) → text_eq s s ≡ true
unfolding text_eq
text_eq_refl [] = refl
text_eq_refl (a ∷ s) = ground (arith, text_eq_refl s)

pub text_eq_iff : (s t : Text) → (text_eq s t ≡ true) ↔ (s ≡ t)
text_eq_iff s t = (text_eq_sound s t, λ e. rw e (text_eq_refl t))

-- std::find over a list of texts; contains() of a set of texts
unfoldable pub has : Text → List Text → Bool
has s [] = false
has s (t ∷ ts) = text_eq s t || has s ts

abbrev pub cons_before : ℕ → Option (Text × Text) → Option (Text × Text)
cons_before b none = none
cons_before b (some (before, behind)) = some (b ∷ before, behind)

-- find_first_of with one character: the text before the first such byte, and the text behind it
unfoldable pub find_byte : ℕ → Text → Option (Text × Text)
find_byte c [] = none
find_byte c (b ∷ s) = if b == c then some ([], s) else cons_before b (find_byte c s)

abbrev pub Without : ℕ → Text → Type 0
Without c s = All (λ b. (b == c) ≡ false) s

-- What a search with a result says of the text.
pub record Found (c : ℕ) (s before behind : Text) : Type 0 where
  pub split : s ≡ before ++ c ∷ behind
  pub first : Without c before

cons_before-some :
    (b : ℕ) (o : Option (Text × Text)) (before behind : Text)
    → cons_before b o ≡ some (before, behind)
    → (f : Text) × (o ≡ some (f, behind)) × (before ≡ b ∷ f)
cons_before-some b none before behind h = cc
cons_before-some b (some (f, g)) before behind h = (f, cc, cc)

pub find_byte-Found :
    (c : ℕ) (s before behind : Text)
    → find_byte c s ≡ some (before, behind)
    → Found c s before behind
unfolding find_byte
find_byte-Found c [] before behind h = cc
find_byte-Found c (b ∷ s) before behind h = elim (Bool-cases (b == c)) [
  | inl e ↦ record { split = ground (arith, ==_iff b c); first = ground arith }
  | inr e ↦
      let (f, rest, same) = cons_before-some b (find_byte c s) before behind (rw e at h) in
      let found = find_byte-Found c s f behind rest in
      record { split = cc (found.split, same); first = rw same (e, found.first) }
]

pub find_byte-Without : (c : ℕ) (s : Text) → find_byte c s ≡ none → Without c s
unfolding find_byte
find_byte-Without c [] h = tt
find_byte-Without c (b ∷ s) h = (ground arith, find_byte-Without c s (ground arith))

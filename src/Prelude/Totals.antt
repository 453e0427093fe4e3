-- ===== src/Prelude/Totals.antt =====
-- Sums over lists, which no permutation changes; counting texts; lists without repetition.
use mathlib.Core.Path.{◌≡◌, refl, ap, ap₂, sym, ◌∙◌}
use mathlib.Core.Logic.{∥∥₁_elim, inl, inr}
use mathlib.Core.Bool.{true, false, ◌&&◌}
use mathlib.Core.List.{List, [], ◌∷◌, ◌++◌, Perm, Permᴰ}
use Prim.Native.Nat.{ℕ, suc, ◌+◌, ◌≤◌}
use native.Mathlib.Nat.{ℕ_set}
use native.Mathlib.Omega.{arith}
use siesta.Prelude.Tests.{if◌then◌else◌, Bool-cases, leb, ◌==◌}
use siesta.Prelude.Lists.{length, All}
use siesta.Prelude.Texts.{Text, text_eq, text_eq_iff, text_eq_refl, has}
use siesta.Prelude.Dicts.{Dict, HashOrder, keys, assign}

module _ {ℓ} {A : Type ℓ} (f : A → ℕ) where
  abbrev pub total : List A → ℕ
  total [] = 0
  total (x ∷ xs) = f x + total xs

  pub total-append : (xs ys : List A) → total (xs ++ ys) ≡ total xs + total ys
  total-append [] ys = omega arith
  total-append (x ∷ xs) ys = omega (arith, total-append xs ys)

  total-Permᴰ : {xs ys : List A} → Permᴰ xs ys → total xs ≡ total ys
  total-Permᴰ Permᴰ.nil = refl
  total-Permᴰ (Permᴰ.cons {l₁ = xs} {l₂ = ys} e p) = ap₂ ◌+◌ (ap f e) (total-Permᴰ p)
  total-Permᴰ (Permᴰ.swap {l = l} p q) = omega (arith, ap f p, ap f q)
  total-Permᴰ (Permᴰ.trans p q) = total-Permᴰ p ∙ total-Permᴰ q

  pub total-Perm : {xs ys : List A} → Perm xs ys → total xs ≡ total ys
  total-Perm p = ∥∥₁_elim p (ℕ_set _ _) total-Permᴰ

  pub All-total : (xs : List A) → (total xs ≡ 0) → All (λ x. f x ≡ 0) xs
  All-total [] h = tt
  All-total (x ∷ xs) h = (omega arith, All-total xs (omega arith))

  pub total_of_All : (xs : List A) → All (λ x. f x ≡ 0) xs → total xs ≡ 0
  total_of_All [] h = refl
  total_of_All (x ∷ xs) (p, h) = omega (arith, total_of_All xs h)

-- How often a text stands in a list.
unfoldable pub count : Text → List Text → ℕ
count s [] = 0
count s (t ∷ ts) = if text_eq s t then suc (count s ts) else count s ts

pub count-append : (s : Text) (xs ys : List Text) → count s (xs ++ ys) ≡ count s xs + count s ys
unfolding count
count-append s [] ys = omega arith
count-append s (x ∷ xs) ys = ground (arith, count-append s xs ys)

pub has-count : (s : Text) (xs : List Text) → has s xs ≡ true → 1 ≤ count s xs
unfolding count has
has-count s [] h = cc
has-count s (x ∷ xs) h = ground (arith, has-count s xs)

pub count-has : (s : Text) (xs : List Text) → has s xs ≡ false → count s xs ≡ 0
unfolding count has
count-has s [] h = refl
count-has s (x ∷ xs) h = ground (arith, count-has s xs)

pub has_of_count : (s : Text) (xs : List Text) → 1 ≤ count s xs → has s xs ≡ true
has_of_count s xs h = elim (Bool-cases (has s xs)) [
  | inl e ↦ e
  | inr e ↦ absurd (omega (arith, count-has s xs e))
]

-- Takes the first occurrence out.
unfoldable pub remove : Text → List Text → List Text
remove s [] = []
remove s (t ∷ ts) = if text_eq s t then ts else t ∷ remove s ts

length-remove :
    (s : Text) (xs : List Text) → 1 ≤ count s xs → length xs ≡ suc (length (remove s xs))
unfolding remove count
length-remove s [] h = absurd (omega arith)
length-remove s (x ∷ xs) h = ground (arith, length-remove s xs)

count-remove :
    (s k : Text) (xs : List Text)
    → 1 ≤ count s xs
    → count k xs ≡ (if text_eq k s then suc (count k (remove s xs)) else count k (remove s xs))
unfolding remove count
count-remove s k [] h = absurd (omega arith)
count-remove s k (x ∷ xs) h =
    ground (arith, text_eq_iff s x, text_eq_iff k s, text_eq_iff k x, count-remove s k xs)

-- A list that repeats nothing more often than another one is no longer.
pub length-le_of_count :
    (xs ys : List Text) → ((k : Text) → count k xs ≤ count k ys) → length xs ≤ length ys
length-le_of_count [] ys h = omega arith
length-le_of_count (x ∷ xs) ys h =
    let one = first x xs in
    omega (
      arith,
      length-remove x ys (omega (arith, h x)),
      length-le_of_count xs (remove x ys) (λ k. rest x xs ys k (h x) (h k)),
    )
  where
    first : (x : Text) (xs : List Text) → 1 ≤ count x (x ∷ xs)
    first x xs = unfold count in rw (text_eq_refl x) (omega arith)

    rest :
        (x : Text) (xs ys : List Text) (k : Text)
        → count x (x ∷ xs) ≤ count x ys
        → count k (x ∷ xs) ≤ count k ys
        → count k xs ≤ count k (remove x ys)
    rest x xs ys k h hk =
        let pos = first x xs in
        let c = count-remove x k ys (omega arith) in unfold count in ground arith

-- The other way round: if such a list is as long as the other one, it holds all of it.
pub count-ge_of_length :
    (xs ys : List Text)
    → ((k : Text) → count k xs ≤ count k ys)
    → length ys ≤ length xs
    → (k : Text) → count k ys ≤ count k xs
count-ge_of_length xs ys h l k = elim (Bool-cases (leb (count k ys) (count k xs))) [
  | inl e ↦ ground arith
  | inr e ↦ absurd (omega (arith, length-le_of_count (k ∷ xs) ys (λ j. more j e)))
]
  where
    more : (j : Text) → leb (count k ys) (count k xs) ≡ false → count j (k ∷ xs) ≤ count j ys
    more j e = let hj = h j in unfold count in ground (arith, text_eq_iff j k)

module _ {V : Type 0} where
  is_key : Text → Text × V → ℕ
  is_key k (j, _) = if text_eq k j then 1 else 0

  count-keys : (k : Text) (d : Dict V) → count k (keys d) ≡ total (is_key k) d
  unfolding count is_key
  count-keys k [] = refl
  count-keys k ((j, v) ∷ d) = ground (arith, count-keys k d)

  pub length-keys : (d : Dict V) → length (keys d) ≡ length d
  length-keys [] = refl
  length-keys ((j, v) ∷ d) = ap suc (length-keys d)

  one : Text × V → ℕ
  one _ = 1

  length-total : (d : Dict V) → length d ≡ total one d
  unfolding one
  length-total [] = refl
  length-total (e ∷ d) = omega (arith, length-total d)

module _ (order : HashOrder) {V : Type 0} (d : Dict V) where
  -- Whatever the order of iteration, the keys are the same, and as often.
  pub count-arrange : (k : Text) → count k (keys (order.arrange d)) ≡ count k (keys d)
  count-arrange k =
      count-keys k (order.arrange d)
      ∙ total-Perm (is_key k) (order.arrange_perm d)
      ∙ sym (count-keys k d)

  pub length-arrange : length (order.arrange d) ≡ length d
  length-arrange =
      length-total (order.arrange d) ∙ total-Perm one (order.arrange_perm d) ∙ sym (length-total d)

  pub total-arrange : (f : Text × V → ℕ) → total f (order.arrange d) ≡ total f d
  total-arrange f = total-Perm f (order.arrange_perm d)

module _ {V : Type 0} where
  pub count-keys-assign :
      (x k : Text) (v : V) (d : Dict V)
      → count x (keys (assign k v d))
        ≡ (if text_eq x k && count x (keys d) == 0 then 1 else count x (keys d))
  unfolding count assign
  count-keys-assign x k v [] = ground arith
  count-keys-assign x k v ((j, w) ∷ d) =
      ground (arith, text_eq_iff j k, text_eq_iff x k, text_eq_iff x j, count-keys-assign x k v d)

  -- What holds of the entries of a table, and of an assigned one, holds after the assignment.
  pub All-assign :
      (P : Text × V → Type 0) (k : Text) (v : V) (d : Dict V)
      → All P d
      → ((j : Text) → P (j, v))
      → All P (assign k v d)
  unfolding assign
  All-assign P k v [] h p = (p k, tt)
  All-assign P k v ((j, w) ∷ d) (q, h) p = elim (Bool-cases (text_eq j k)) [
    | inl e ↦ rw e (p k, h)
    | inr e ↦ rw e (q, All-assign P k v d h p)
  ]

-- ===== src/Prelude/Dicts.antt =====
-- std::unordered_map with text keys, as an association list: `find` and `operator[]`.
use mathlib.Core.Path.{◌≡◌, refl}
use mathlib.Core.Option.{Option, none, some}
use mathlib.Core.List.{List, [], ◌∷◌, Perm}
use mathlib.Core.List.Perm
use native.Mathlib.Omega.{arith}
use siesta.Prelude.Tests.{if◌then◌else◌}
use siesta.Prelude.Texts.{Text, text_eq, text_eq_iff}

abbrev pub Dict {ℓ} : Type ℓ → Type ℓ
Dict V = List (Text × V)

module _ {ℓ} {V : Type ℓ} where
  -- find(k)
  unfoldable pub find : Text → Dict V → Option V
  find k [] = none
  find k ((j, v) ∷ d) = if text_eq j k then some v else find k d

  -- d[k] = v
  unfoldable pub assign : Text → V → Dict V → Dict V
  assign k v [] = (k, v) ∷ []
  assign k v ((j, w) ∷ d) = if text_eq j k then (k, v) ∷ d else (j, w) ∷ assign k v d

  pub find-assign :
      (k j : Text) (v : V) (d : Dict V)
      → find j (assign k v d) ≡ (if text_eq k j then some v else find j d)
  unfolding find assign
  find-assign k j v [] = refl
  find-assign k j v ((i, w) ∷ d) =
      ground (arith, text_eq_iff k j, text_eq_iff i k, text_eq_iff i j, find-assign k j v d)

-- The order in which the standard library iterates over a table: some permutation of its entries.
pub record HashOrder : Type 1 where
  pub arrange : {V : Type 0} → Dict V → Dict V
  pub arrange_perm : {V : Type 0} (d : Dict V) → Perm (arrange d) d

-- Iteration in the order of the list, and in the reverse order.
abbrev pub as_listed : HashOrder
as_listed = record { arrange = λ d. d; arrange_perm = λ d. Perm.refl d }

abbrev pub keys {ℓ} : {V : Type ℓ} → Dict V → List Text
keys [] = []
keys ((k, v) ∷ d) = k ∷ keys d

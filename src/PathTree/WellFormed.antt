-- ===== src/PathTree/WellFormed.antt =====
-- The invariant of a path tree: the children of a node have different keys.
use siesta.Prelude.{Text, text_eq, Bool, false, ◌≡◌, ◌||◌}
use siesta.PathTree.{Node, node, Forest, nil, grow, key_token}

abbrev pub has_key {ℓ} : {V : Type ℓ} → Text → Forest V → Bool
has_key k nil = false
has_key k (grow n cs) = text_eq (key_token n) k || has_key k cs

abbrev mutual
  pub WellFormed {ℓ} : {V : Type ℓ} → Node V → Type ℓ
  WellFormed (node k v cs) = Distinct cs

  pub Distinct {ℓ} : {V : Type ℓ} → Forest V → Type ℓ
  Distinct nil = Unit
  Distinct (grow n cs) = WellFormed n × (has_key (key_token n) cs ≡ false) × Distinct cs

-- ===== src/PathTree/Children.antt =====
-- How `insert` acts on a node and on a list of children, in the forms that the proofs use.
use siesta.Prelude.{
  Text, text_eq, text_eq_iff, true, false, List, [], ◌∷◌, Option, none, some, ◌≡◌, refl, arith,
  ◌||◌, Bool-cases, inl, inr,
}
use siesta.PathTree.{Node, node, Forest, nil, grow, key_token, leaf, changed, insert, insert_child}
use siesta.PathTree.WellFormed.{has_key, WellFormed, Distinct}

module _ {ℓ} {V : Type ℓ} where
  -- What `insert_child` makes of a first child: it changes it or goes on behind it.
  abbrev pub beside : Node V → Option (Node V) → Forest V → Forest V → Forest V
  beside n (some n') cs rest = grow n' cs
  beside n none cs rest = grow n rest

  pub insert_child-grow :
      (ins : Node V → Option (Node V)) (u : Text) (n : Node V) (cs : Forest V)
      → insert_child ins u (grow n cs) ≡ beside n (ins n) cs (insert_child ins u cs)
  unfolding insert_child
  insert_child-grow ins u n cs = ground arith

  pub insert_miss :
      (t : Text) (more : List Text) (val : Option V) (n : Node V)
      → text_eq (key_token n) t ≡ false
      → insert t more val n ≡ none
  unfolding insert
  insert_miss t [] val (node k v cs) h = rw h
  insert_miss t (next ∷ more) val (node k v cs) h = rw h

  pub insert_hit :
      (t : Text) (more : List Text) (val : Option V) (n : Node V)
      → text_eq (key_token n) t ≡ true
      → insert t more val n ≡ some (changed n (insert t more val n))
  unfolding insert
  insert_hit t [] val (node k v cs) h = rw h
  insert_hit t (next ∷ more) val (node k v cs) h = rw h

  pub key_token-insert :
      (t : Text) (more : List Text) (val : Option V) (n : Node V)
      → key_token (changed n (insert t more val n)) ≡ key_token n
  unfolding insert
  key_token-insert t [] val (node k v cs) = ground arith
  key_token-insert t (next ∷ more) val (node k v cs) = ground arith

module _ {ℓ} {V : Type ℓ} (u : Text) (more : List Text) (val : Option V) where
  -- A child whose key is the token takes the path.
  pub insert_child_here :
      (n : Node V) (cs : Forest V)
      → text_eq (key_token n) u ≡ true
      → insert_child (insert u more val) u (grow n cs) ≡ grow (changed n (insert u more val n)) cs
  insert_child_here n cs h =
      rw (insert_child-grow (insert u more val) u n cs) (rw (insert_hit u more val n h) refl)

  pub insert_child_behind :
      (n : Node V) (cs : Forest V)
      → text_eq (key_token n) u ≡ false
      → insert_child (insert u more val) u (grow n cs)
        ≡ grow n (insert_child (insert u more val) u cs)
  insert_child_behind n cs h =
      rw (insert_child-grow (insert u more val) u n cs) (rw (insert_miss u more val n h) refl)

  -- Without a child of that key there is a new last one.
  pub insert_child-nil :
      insert_child (insert u more val) u nil
      ≡ grow (changed (leaf u) (insert u more val (leaf u))) nil
  unfolding insert_child
  insert_child-nil = refl

  -- The keys of the children afterwards: those of before and the token.
  pub has_key-insert_child :
      (k : Text) (cs : Forest V)
      → has_key k (insert_child (insert u more val) u cs) ≡ (text_eq u k || has_key k cs)
  has_key-insert_child k nil = rw insert_child-nil (rw (key_token-insert u more val (leaf u)) refl)
  has_key-insert_child k (grow n cs) = elim (Bool-cases (text_eq (key_token n) u)) [
    | inl e ↦ rw (insert_child_here n cs e) (
        rw (key_token-insert u more val n) (
          ground
            (arith, text_eq_iff (key_token n) u, text_eq_iff (key_token n) k, text_eq_iff u k)))
    | inr e ↦ rw (insert_child_behind n cs e) (rw (has_key-insert_child k cs) (ground arith))
  ]

-- `insert` keeps the invariant.
module _ {ℓ} {V : Type ℓ} (u : Text) (more : List Text) (val : Option V)
    (keeps : (n : Node V) → WellFormed n → WellFormed (changed n (insert u more val n))) where
  pub insert_child-Distinct :
      (cs : Forest V) → Distinct cs → Distinct (insert_child (insert u more val) u cs)
  insert_child-Distinct nil _ = rw (insert_child-nil u more val) (keeps (leaf u) tt, refl, tt)
  insert_child-Distinct (grow n cs) (w, fresh, d) = elim (Bool-cases (text_eq (key_token n) u)) [
    | inl e ↦
        rw (insert_child_here u more val n cs e)
          (keeps n w, rw (key_token-insert u more val n) fresh, d)
    | inr e ↦ rw (insert_child_behind u more val n cs e) (
      w,
      rw (has_key-insert_child u more val (key_token n) cs)
          (ground (arith, text_eq_iff u (key_token n), text_eq_iff (key_token n) u)),
      insert_child-Distinct cs d,
    )
  ]

pub insert-WellFormed {ℓ} :
    {V : Type ℓ} (t : Text) (more : List Text) (val : Option V) (n : Node V)
    → WellFormed n
    → WellFormed (changed n (insert t more val n))
unfolding insert
insert-WellFormed t [] val (node k v cs) w = ground arith
insert-WellFormed t (next ∷ more) val (node k v cs) w = elim (Bool-cases (text_eq k t)) [
  | inl e ↦ rw e (insert_child-Distinct next more val (insert-WellFormed next more val) cs w)
  | inr e ↦ rw e w
]

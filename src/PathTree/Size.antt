-- ===== src/PathTree/Size.antt =====
-- The number of leaves.
use siesta.Prelude.{
  ◌+◌, ◌≤◌, Text, text_eq, text_eq_refl, true, List, [], ◌∷◌, Option, ◌≡◌, refl, arith, Bool-cases,
  inl, inr,
}
use siesta.PathTree.{
  Node, node, Forest, nil, grow, key_token, leaf, changed, size, size_children, insert,
  insert_child,
}
use siesta.PathTree.Children.{insert_child_here, insert_child_behind, insert_child-nil}

module _ {ℓ} {V : Type ℓ} where
  pub size_pos : (n : Node V) → 1 ≤ size n
  unfolding size
  size_pos (node k v cs) = ground arith

  -- A new branch has one leaf.
  size-fresh :
      (u : Text) (more : List Text) (val : Option V)
      → size (changed (leaf u) (insert u more val (leaf u))) ≡ 1
  unfolding size insert insert_child
  size-fresh u [] val = rw (text_eq_refl u) refl
  size-fresh u (next ∷ more) val = rw (text_eq_refl u) (ground (arith, size-fresh next more val))

module _ {ℓ} {V : Type ℓ} (u : Text) (more : List Text) (val : Option V)
    (here : (n : Node V)
      → text_eq (key_token n) u ≡ true
      → (size n ≤ size (changed n (insert u more val n)))
        × (size (changed n (insert u more val n)) ≤ size n + 1)) where
  size_children-insert_child :
      (cs : Forest V)
      → (size_children cs ≤ size_children (insert_child (insert u more val) u cs))
        × (size_children (insert_child (insert u more val) u cs) ≤ size_children cs + 1)
        × (1 ≤ size_children (insert_child (insert u more val) u cs))
  unfolding size
  size_children-insert_child nil =
      rw (insert_child-nil u more val) (omega (arith, size-fresh u more val))
  size_children-insert_child (grow n cs) = elim (Bool-cases (text_eq (key_token n) u)) [
    | inl e ↦
        rw (insert_child_here u more val n cs e)
          (omega (arith, here n e, size_pos n, size_pos (changed n (insert u more val n))))
    | inr e ↦
        rw (insert_child_behind u more val n cs e)
          (omega (arith, size_children-insert_child cs, size_pos n))
  ]

-- An insertion adds at most one leaf and takes none away.
pub size-insert {ℓ} :
    {V : Type ℓ} (t : Text) (more : List Text) (val : Option V) (n : Node V)
    → text_eq (key_token n) t ≡ true
    → (size n ≤ size (changed n (insert t more val n)))
      × (size (changed n (insert t more val n)) ≤ size n + 1)
unfolding size insert
size-insert t [] val (node k v cs) e = rw e (omega arith)
size-insert t (next ∷ more) val (node k v cs) e =
    let (low, high, some_leaf) =
      size_children-insert_child next more val (size-insert next more val) cs in
    rw e (ground arith)

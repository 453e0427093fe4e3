-- ===== src/PathTree/Lookup.antt =====
-- A path tree is a dictionary from paths to values.
use siesta.Prelude.{
  Text, text_eq, text_eq_iff, text_eq_refl, Bool, true, false, List, [], ◌∷◌, Option, none, some,
  ◌≡◌, refl, arith, ◌&&◌, Bool-cases, inl, inr, if◌then◌else◌, subst, ◌∙◌,
}
use siesta.PathTree.{
  Node, node, Forest, nil, grow, key_token, leaf, changed, or_else, at, at_children, insert,
  insert_child,
}
use siesta.PathTree.WellFormed.{has_key, WellFormed, Distinct}
use siesta.PathTree.Children.{insert_child_here, insert_child_behind, insert_child-nil}

-- The same path, segment by segment.
abbrev pub same_path : Text → List Text → Text → List Text → Bool
same_path t [] s [] = text_eq t s
same_path t [] s (_ ∷ _) = false
same_path t (_ ∷ _) s [] = false
same_path t (u ∷ more) s (w ∷ ms) = text_eq t s && same_path u more w ms

pub same_path_token :
    (t : Text) (more : List Text) (s : Text) (ms : List Text)
    → same_path t more s ms ≡ true
    → text_eq t s ≡ true
same_path_token t [] s [] h = h
same_path_token t [] s (_ ∷ _) h = cc
same_path_token t (_ ∷ _) s [] h = cc
same_path_token t (u ∷ more) s (w ∷ ms) h = ground arith

module _ {ℓ} {V : Type ℓ} where
  pub at_miss :
      (n : Node V) (s : Text) (ms : List Text) → text_eq (key_token n) s ≡ false → at n s ms ≡ none
  unfolding at
  at_miss (node k v cs) s [] h = rw h
  at_miss (node k v cs) s (_ ∷ _) h = rw h

  at-leaf : (u s : Text) (ms : List Text) → at {V = V} (leaf u) s ms ≡ none
  unfolding at
  at-leaf u s [] = ground arith
  at-leaf u s (_ ∷ _) = ground arith

  at_children_miss :
      (cs : Forest V) (s : Text) (ms : List Text)
      → has_key s cs ≡ false
      → at_children cs s ms ≡ none
  unfolding at
  at_children_miss nil s ms h = refl
  at_children_miss (grow n cs) s ms h = ground (arith, at_miss n s ms, at_children_miss cs s ms)

  or_else-none : (o : Option V) → or_else o none ≡ o
  or_else-none none = refl
  or_else-none (some v) = refl

module _ {ℓ} {V : Type ℓ} (u : Text) (more : List Text) (val : Option V) (s : Text) (ms : List Text)
    (here : (n : Node V)
      → text_eq (key_token n) u ≡ true
      → WellFormed n
      → at (changed n (insert u more val n)) s ms
        ≡ (if same_path u more s ms then val else at n s ms)) where
  abbrev put_at : Option V → Option V
  put_at o = if same_path u more s ms then val else o

  at_children-first :
      (n : Node V) (cs : Forest V)
      → text_eq (key_token n) u ≡ true
      → WellFormed n
      → has_key (key_token n) cs ≡ false
      → or_else (at (changed n (insert u more val n)) s ms) (at_children cs s ms)
        ≡ put_at (or_else (at n s ms) (at_children cs s ms))
  at_children-first n cs e w fresh = elim (Bool-cases (same_path u more s ms)) [
    | inl same ↦
        let us = (text_eq_iff u s).0 (same_path_token u more s ms same) in
        let ku = (text_eq_iff (key_token n) u).0 e in
        rw (here n e w) (
          rw same (
            rw (at_children_miss cs s ms (subst (λ k. has_key k cs ≡ false) (ku ∙ us) fresh))
              (or_else-none val)))
    | inr other ↦ rw (here n e w) (rw other refl)
  ]

  pub at_children-insert_child :
      (cs : Forest V)
      → Distinct cs
      → at_children (insert_child (insert u more val) u cs) s ms ≡ put_at (at_children cs s ms)
  unfolding at
  at_children-insert_child nil _ =
      rw (insert_child-nil u more val)
        (rw (here (leaf u) (text_eq_refl u) tt) (rw (at-leaf u s ms) (or_else-none _)))
  at_children-insert_child (grow n cs) (w, fresh, d) = elim (Bool-cases (text_eq (key_token n) u)) [
    | inl e ↦ rw (insert_child_here u more val n cs e) (at_children-first n cs e w fresh)
    | inr e ↦
        rw (insert_child_behind u more val n cs e)
          (rw (at_children-insert_child cs d) (behind n cs e))
  ]
    where
      behind :
          (n : Node V) (cs : Forest V)
          → text_eq (key_token n) u ≡ false
          → or_else (at n s ms) (put_at (at_children cs s ms))
            ≡ put_at (or_else (at n s ms) (at_children cs s ms))
      behind n cs e = ground (
        arith,
        at_miss n s ms,
        same_path_token u more s ms,
        text_eq_iff u s,
        text_eq_iff (key_token n) u,
        text_eq_iff (key_token n) s,
      )

-- After an insertion at a node of that key, the inserted path has the inserted value, also where that
-- is none, and every other path has the value that it had.
pub at-insert {ℓ} :
    {V : Type ℓ} (t : Text) (more : List Text) (val : Option V) (s : Text) (ms : List Text)
    (n : Node V)
    → text_eq (key_token n) t ≡ true
    → WellFormed n
    → at (changed n (insert t more val n)) s ms ≡ (if same_path t more s ms then val else at n s ms)
unfolding at insert
at-insert t [] val s [] (node k v cs) e w =
    ground (arith, text_eq_iff k t, text_eq_iff k s, text_eq_iff t s)
at-insert t [] val s (_ ∷ _) (node k v cs) e w = rw e refl
at-insert t (next ∷ more) val s [] (node k v cs) e w = rw e refl
at-insert t (next ∷ more) val s (w' ∷ ms) (node k v cs) e w =
    let rest = at_children-insert_child next more val w' ms (at-insert next more val w' ms) cs w in
    ground (arith, text_eq_iff k t, text_eq_iff k s, text_eq_iff t s)

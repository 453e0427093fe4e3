-- ===== src/PathTree/Paths.antt =====
-- The operations on whole paths: insertion and lookup, construction from a list, the wildcard lookup.
use siesta.Prelude.{
  Text, text_eq, text_eq_iff, text_eq_refl, Bool, true, false, List, [], ◌∷◌, Option, none, some,
  ◌≡◌, refl, arith, ◌&&◌, Bool-cases, inl, inr, if◌then◌else◌, ap, sym, ◌==◌, ◌∙◌,
}
use siesta.PathTree.{
  Node, node, key_token, leaf, at, segments, const_at, insert_path, from_list, at_wildcard,
  wildcard,
}
use siesta.PathTree.Split.{segments_injective}
use siesta.PathTree.WellFormed.{WellFormed}
use siesta.PathTree.Children.{insert_miss, key_token-insert, insert-WellFormed}
use siesta.PathTree.Lookup.{same_path, at-insert}

same_path_sound :
    (t : Text) (more : List Text) (s : Text) (ms : List Text)
    → same_path t more s ms ≡ true
    → (t ≡ s) × (more ≡ ms)
same_path_sound t [] s [] h = ((text_eq_iff t s).0 h, refl)
same_path_sound t [] s (_ ∷ _) h = cc
same_path_sound t (_ ∷ _) s [] h = cc
same_path_sound t (u ∷ more) s (w ∷ ms) h =
    let rest = same_path_sound u more w ms in ground (arith, text_eq_iff t s)

same_path_refl : (t : Text) (more : List Text) → same_path t more t more ≡ true
same_path_refl t [] = text_eq_refl t
same_path_refl t (u ∷ more) = rw (text_eq_refl t) (same_path_refl u more)

pub same_path-segments :
    (p q : Text)
    → same_path (segments p).token (segments p).more (segments q).token (segments q).more
      ≡ text_eq p q
same_path-segments p q = elim (Bool-cases (text_eq p q)) [
  | inl e ↦ rw e (rw ((text_eq_iff p q).0 e) (same_path_refl (segments q).token (segments q).more))
  | inr e ↦
      elim (Bool-cases
        (same_path (segments p).token (segments p).more (segments q).token (segments q).more)) [
          | inl same ↦ cc ((text_eq_iff p q).1 (equal_paths same))
          | inr other ↦ other ∙ sym e
        ]
]
  where
    equal_paths :
        same_path (segments p).token (segments p).more (segments q).token (segments q).more ≡ true
        → p ≡ q
    equal_paths same =
        let (t, m) = same_path_sound _ _ _ _ same in
        segments_injective p q (λ i. record { token = t i; more = m i })

-- A path that the root takes: its first segment is the root's key.
abbrev pub takes {ℓ} : {V : Type ℓ} → Node V → Text → Bool
takes n p = text_eq (key_token n) (segments p).token

module _ {ℓ} {V : Type ℓ} where
  -- An insertion is an assignment in the dictionary of paths: a path that the root takes gets the given
  -- value, also where that is none, every other path keeps its own, and a path that the root does not
  -- take changes nothing.
  pub const_at-insert_path :
      (p q : Text) (val : Option V) (n : Node V)
      → WellFormed n
      → const_at (insert_path p val n) q ≡ (if takes n p && text_eq p q then val else const_at n q)
  unfolding insert_path
  const_at-insert_path p q val n w = elim (Bool-cases (takes n p)) [
    | inl e ↦ rw e (
        rw
          (at-insert (segments p).token (segments p).more val (segments q).token (segments q).more n
            e w)
          (rw (same_path-segments p q) refl))
    | inr e ↦ rw e (rw (insert_miss (segments p).token (segments p).more val n e) refl)
  ]

  -- Insertions keep the keys of siblings apart.
  pub insert_path-WellFormed :
      (p : Text) (val : Option V) (n : Node V) → WellFormed n → WellFormed (insert_path p val n)
  unfolding insert_path
  insert_path-WellFormed p val n w = insert-WellFormed (segments p).token (segments p).more val n w

  pub key_token-insert_path :
      (p : Text) (val : Option V) (n : Node V) → key_token (insert_path p val n) ≡ key_token n
  unfolding insert_path
  key_token-insert_path p val n = key_token-insert (segments p).token (segments p).more val n

-- The empty path and the paths with a leading slash: a root with an empty key takes these.
abbrev pub is_rooted : Text → Bool
is_rooted [] = true
is_rooted (c ∷ _) = c == b'/'

-- The last value that a list gives to a path, if the path is empty or begins with a slash.
abbrev pub last_value {ℓ} : {V : Type ℓ} → Text → List (Text × V) → Option V → Option V
last_value q [] o = o
last_value q ((p, v) ∷ entries) o =
    last_value q entries (if is_rooted p && text_eq p q then some v else o)

takes-is_rooted : (p : Text) → text_eq [] (segments p).token ≡ is_rooted p
unfolding segments text_eq
takes-is_rooted [] = refl
takes-is_rooted (c ∷ s) = ground arith

module _ {ℓ} {V : Type ℓ} where
  from_list-last_value :
      (q : Text) (entries : List (Text × V)) (n : Node V)
      → WellFormed n
      → key_token n ≡ []
      → const_at (from_list entries n) q ≡ last_value q entries (const_at n q)
  unfolding from_list
  from_list-last_value q [] n w k = refl
  from_list-last_value q ((p, v) ∷ entries) n w k =
      from_list-last_value q entries (insert_path p (some v) n)
        (insert_path-WellFormed p (some v) n w) (key_token-insert_path p (some v) n ∙ k)
      ∙ ap (last_value q entries)
          (const_at-insert_path p q (some v) n w ∙ rw k (rw (takes-is_rooted p) refl))

  const_at-leaf : (q : Text) → const_at {V = V} (leaf []) q ≡ none
  unfolding at
  const_at-leaf q = go (segments q).token (segments q).more
    where
      go : (t : Text) (more : List Text) → at {V = V} (leaf []) t more ≡ none
      go t [] = ground arith
      go t (_ ∷ _) = ground arith

  -- The tree built from a list of paths and values gives a path the last value that the list gives it,
  -- and none to any other. Entries whose path is not empty and has no leading slash are dropped.
  pub const_at-from_list :
      (q : Text) (entries : List (Text × V))
      → const_at (from_list entries (leaf [])) q ≡ last_value q entries none
  const_at-from_list q entries =
      from_list-last_value q entries (leaf []) tt refl ∙ ap (last_value q entries) (const_at-leaf q)

  -- Under a root whose key is no wildcard the wildcard lookup returns what the exact lookup returns:
  -- wildcards below the root are not followed.
  pub at_wildcard_exact :
      (n : Node V) (t : Text) (more : List Text)
      → text_eq (key_token n) wildcard ≡ false
      → (at_wildcard n t more).0 ≡ at n t more
  unfolding at_wildcard at
  at_wildcard_exact (node k v cs) t [] e = ground arith
  at_wildcard_exact (node k v cs) t (_ ∷ _) e = ground arith

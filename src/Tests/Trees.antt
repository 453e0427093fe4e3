-- ===== src/Tests/Trees.antt =====
-- include/siesta/path_tree.hpp on a small tree.
use siesta.Prelude.{
  true, ℕ, ◌+◌, ◌≤◌, Text, lit, text_eq, List, [], ◌∷◌, none, some, if◌then◌else◌, ◌&&◌, ◌≡◌, refl,
}
use siesta.PathTree.{
  Node, node, nil, grow, wildcard, const_at, at, size, changed, at_wildcard, insert, insert_path,
  from_list, leaf,
}
use siesta.PathTree.WellFormed.{WellFormed}
use siesta.PathTree.Coverage.{covers}
use siesta.PathTree.Size.{size-insert}
use siesta.PathTree.Paths.{
  takes, last_value, const_at-insert_path, insert_path-WellFormed, const_at-from_list,
  at_wildcard_exact,
}

-- A root with the pets, and below them a wildcard.
abbrev pets_tree : Node ℕ
pets_tree =
    node [] none (grow (node (lit "pets") (some 1) (grow (node wildcard (some 2) nil) nil)) nil)

abbrev below_pets : List Text
below_pets = lit "pets" ∷ lit "7" ∷ []

pets_tree-WellFormed : WellFormed pets_tree
pets_tree-WellFormed = ((tt, refl, tt), refl, tt)

const_at-insert_path_example :
    const_at (insert_path (lit "/pets/7") (some 3) pets_tree) (lit "/pets") ≡ (
      if takes pets_tree (lit "/pets/7") && text_eq (lit "/pets/7") (lit "/pets")
      then some 3
      else const_at pets_tree (lit "/pets"))
const_at-insert_path_example =
    const_at-insert_path (lit "/pets/7") (lit "/pets") (some 3) pets_tree pets_tree-WellFormed

insert_path-WellFormed_example : WellFormed (insert_path (lit "/pets/7") (some 3) pets_tree)
insert_path-WellFormed_example =
    insert_path-WellFormed (lit "/pets/7") (some 3) pets_tree pets_tree-WellFormed

abbrev three_entries : List (Text × ℕ)
three_entries = (lit "/a/b", 1) ∷ (lit "a", 2) ∷ (lit "/a/b", 3) ∷ []

const_at-from_list_example :
    const_at (from_list three_entries (leaf [])) (lit "/a/b")
    ≡ last_value (lit "/a/b") three_entries none
const_at-from_list_example = const_at-from_list (lit "/a/b") three_entries

-- A path with a wildcard, which covers any segment in its place.
abbrev star_x : List Text
star_x = lit "*" ∷ lit "x" ∷ []

star_x-covers : covers [] star_x [] (lit "foo" ∷ lit "x" ∷ []) ≡ true
unfolding text_eq
star_x-covers = refl

size-insert_example :
    (size pets_tree ≤ size (changed pets_tree (insert [] below_pets (some 3) pets_tree)))
    × (size (changed pets_tree (insert [] below_pets (some 3) pets_tree)) ≤ size pets_tree + 1)
size-insert_example = size-insert [] below_pets (some 3) pets_tree (unfold text_eq in refl)

at_wildcard_exact_example : (at_wildcard pets_tree [] below_pets).0 ≡ at pets_tree [] below_pets
at_wildcard_exact_example = at_wildcard_exact pets_tree [] below_pets (unfold text_eq in refl)

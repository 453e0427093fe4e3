-- ===== src/PathTree.antt =====
-- include/siesta/path_tree.hpp: a tree of path segments with optional values (`basic_node`).
-- A node's operations split their path at the first slash and pass the rest on; here the path is
-- split once, by `segments`, and each call takes the first segment and those behind it.
mod Split
pub mod WellFormed
mod Children
pub mod Lookup
pub mod Coverage
pub mod Size
pub mod Paths
use siesta.Prelude.{
  ℕ, suc, ◌+◌, Text, lit, text_eq, Bool, true, false, List, [], ◌∷◌, Option, none, some,
  if◌then◌else◌, ◌&&◌, ◌||◌, ◌==◌,
}

mutual
  pub data Node {ℓ} (V : Type ℓ) : Type ℓ where
    node : Text → Option V → Forest V → Node V

  pub data Forest {ℓ} (V : Type ℓ) : Type ℓ where
    nil : Forest V
    grow : Node V → Forest V → Forest V

-- A path is never without a segment: the text before the first slash, and the segments behind it.
pub record Segments : Type 0 where
  pub token : Text
  pub more : List Text

unfoldable pub segments : Text → Segments
segments [] = record { token = []; more = [] }
segments (c ∷ s) =
    let rest = segments s in
    if c == b'/'
    then record { token = []; more = rest.token ∷ rest.more }
    else record { token = c ∷ rest.token; more = rest.more }

abbrev pub wildcard : Text
wildcard = lit "*"

module _ {ℓ} {V : Type ℓ} where
  abbrev pub key_token : Node V → Text
  key_token (node k v cs) = k

  abbrev pub value_of : Node V → Option V
  value_of (node k v cs) = v

  abbrev pub children_of : Node V → Forest V
  children_of (node k v cs) = cs

  -- basic_node(key)
  abbrev pub leaf : Text → Node V
  leaf k = node k none nil

  abbrev pub or_else : Option V → Option V → Option V
  or_else (some v) _ = some v
  or_else none o = o

unfoldable mutual
  pub at {ℓ} : {V : Type ℓ} → Node V → Text → List Text → Option V
  at (node k v cs) token [] = if text_eq k token then v else none
  at (node k v cs) token (next ∷ more) = if text_eq k token then at_children cs next more else none

  pub at_children {ℓ} : {V : Type ℓ} → Forest V → Text → List Text → Option V
  at_children nil token more = none
  at_children (grow n cs) token more = or_else (at n token more) (at_children cs token more)

unfoldable mutual
  pub contains {ℓ} : {V : Type ℓ} → Node V → Text → List Text → Bool
  contains (node k v cs) token [] = text_eq k token || text_eq k wildcard
  contains (node k v cs) token (next ∷ more) =
      (text_eq k token || text_eq k wildcard) && children_contain cs next more

  pub children_contain {ℓ} : {V : Type ℓ} → Forest V → Text → List Text → Bool
  children_contain nil token more = false
  children_contain (grow n cs) token more = contains n token more || children_contain cs token more

unfoldable mutual
  pub size {ℓ} : {V : Type ℓ} → Node V → ℕ
  size (node k v cs) = let leaves = size_children cs in if leaves == 0 then 1 else leaves

  pub size_children {ℓ} : {V : Type ℓ} → Forest V → ℕ
  size_children nil = 0
  size_children (grow n cs) = size n + size_children cs

module _ {ℓ} {V : Type ℓ} where
  -- std::any_of over the children, with a callback that may change the child it returns true for
  unfoldable pub insert_any : (Node V → Option (Node V)) → Forest V → Option (Forest V)
  insert_any ins nil = none
  insert_any ins (grow n cs) = elim (ins n) [
    | some n' ↦ some (grow n' cs)
    | none ↦ elim (insert_any ins cs) [ some cs' ↦ some (grow n cs') | none ↦ none ]
  ]

  unfoldable pub push_back : Forest V → Node V → Forest V
  push_back nil m = grow m nil
  push_back (grow n cs) m = grow n (push_back cs m)

  abbrev pub changed : Node V → Option (Node V) → Node V
  changed n none = n
  changed n (some n') = n'

  -- The first child that takes the path; if none does, a new last child.
  unfoldable pub insert_child : (Node V → Option (Node V)) → Text → Forest V → Forest V
  unfolding insert_any push_back
  insert_child ins token cs = elim (insert_any ins cs) [
    | some cs' ↦ cs'
    | none ↦ push_back cs (changed (leaf token) (ins (leaf token)))
  ]

-- `none` is the result false, with the tree unchanged; `some` is the result true.
unfoldable pub insert {ℓ} : {V : Type ℓ} → Text → List Text → Option V → Node V → Option (Node V)
unfolding insert_child
insert token [] val (node k v cs) = if text_eq k token then some (node k val cs) else none
insert token (next ∷ more) val (node k v cs) =
    if text_eq k token then some (node k v (insert_child (insert next more val) next cs)) else none

module _ {ℓ} {V : Type ℓ} where
  -- The root's segment is compared with the wildcard too and handed to the callback; the children are
  -- asked by `at`. The list holds the callback's arguments.
  unfoldable pub at_wildcard : Node V → Text → List Text → Option V × List Text
  unfolding at
  at_wildcard (node k v cs) token [] =
      if text_eq k token || text_eq k wildcard then (v, token ∷ []) else (none, [])
  at_wildcard (node k v cs) token (next ∷ more) =
      if text_eq k token || text_eq k wildcard
      then (at_children cs next more, token ∷ [])
      else (none, [])

  -- The operations on a whole path.
  abbrev pub const_at : Node V → Text → Option V
  const_at n path = at n (segments path).token (segments path).more

  abbrev pub contains_path : Node V → Text → Bool
  contains_path n path = contains n (segments path).token (segments path).more

  unfoldable pub insert_path : Text → Option V → Node V → Node V
  unfolding insert segments
  insert_path path val n = changed n (insert (segments path).token (segments path).more val n)

  -- basic_node(initializer_list)
  unfoldable pub from_list : List (Text × V) → Node V → Node V
  unfolding insert_path
  from_list [] n = n
  from_list ((path, v) ∷ entries) n = from_list entries (insert_path path (some v) n)

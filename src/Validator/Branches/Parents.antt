-- ===== src/Validator/Branches/Parents.antt =====
-- jsonschema/src/schema_types.cpp, `validate_node`: the keywords that look at the parent of their node, and
-- references.
use siesta.Prelude.{
  ℕ, Text, lit, Bool, true, false, List, [], ◌∷◌, ◌++◌, Option, none, some, if◌then◌else◌, length,
  leb,
}
use siesta.Validator.Json.{Json, get_string}
use siesta.Validator.Node.{
  Keyword, Parent, no_parent, root_parent, dangling, SchemaNode, info, children,
}
use siesta.Validator.Refs.{Compiled, found, stale, missing, find_ref}
use siesta.Validator.Run.{Outcome, done, undefined, ◌>>=◌, Step, skip, report_error, for_each}
use siesta.Validator.Branches.{with_first, indexed, items_in, attempt}
use siesta.Validator.Branches.Items.{enter_item}
use siesta.Validator.Locations.{location_below}

abbrev pub is_then_word : Keyword → Bool
is_then_word Keyword.then_schema = true
is_then_word _ = false

abbrev pub is_else_word : Keyword → Bool
is_else_word Keyword.else_schema = true
is_else_word _ = false

module _ {D : Type 0} where
  abbrev pub is_then : SchemaNode D → Bool
  is_then n = is_then_word (info n).keyword

  abbrev pub is_else : SchemaNode D → Bool
  is_else n = is_else_word (info n).keyword

  -- The last node that passes the test.
  unfoldable pub last_with : (SchemaNode D → Bool) → List (SchemaNode D) → Option (SchemaNode D)
  last_with p [] = none
  last_with p (m ∷ ms) = elim (last_with p ms) [
    | some k ↦ some k
    | none ↦ if p m then some m else none
  ]

  -- node.parent->children, where the code tests the pointer first, and where it does not
  abbrev pub siblings : SchemaNode D → Parent → Outcome (List (SchemaNode D))
  siblings root no_parent = done []
  siblings root root_parent = done (children root)
  siblings root dangling = undefined

  abbrev pub sibling_count : SchemaNode D → Parent → Outcome ℕ
  sibling_count root no_parent = undefined
  sibling_count root root_parent = done (length (children root))
  sibling_count root dangling = undefined

module _ {D : Type 0} (enter : SchemaNode D → Json D → Text → Step) where
  abbrev pub enter_option : Option (SchemaNode D) → Json D → Text → Step
  enter_option none v place = skip
  enter_option (some m) v place = enter m v place

  unfoldable pub check_if : SchemaNode D → SchemaNode D → Json D → Text → Step
  unfolding last_with
  check_if root n v place = with_first n λ m. attempt (enter m v place) λ matched st.
      siblings root (info n).parent >>= λ ns.
      enter_option (last_with (if matched then is_then else is_else) ns) v place st

  unfoldable pub check_ref : Compiled D → SchemaNode D → Json D → Text → Text → Step
  unfolding find_ref
  check_ref c n v loc place = elim (get_string (info n).value) [
    | none ↦ skip
    | some target ↦ elim (find_ref c target) [
      | found t ↦ enter t v place
      | stale ↦ λ st. undefined
      | missing ↦ report_error loc (lit "Cannot resolve $ref: " ++ target)
    ]
  ]

  unfoldable pub check_additional_items :
      (ℕ → Text) → SchemaNode D → SchemaNode D → Json D → Text → Step
  unfolding for_each location_below
  check_additional_items print_nat root n v place = with_first n λ m.
      for_each (indexed 0 (items_in v)) λ x st. sibling_count root (info n).parent >>= λ k.
      if leb k x.0 then enter_item enter print_nat m place x st else done st

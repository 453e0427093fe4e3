-- ===== src/Validator/Branches.antt =====
-- jsonschema/src/schema_types.cpp, `validate_node`: the keywords that visit other nodes, with the visit
-- of a node as an argument. The callback is left out, and the locations in instances only reach visits.
pub mod Items
pub mod Parents
pub mod Names
use siesta.Prelude.{
  ℕ, zero, suc, ◌+◌, Text, lit, text_eq, Bool, true, false, List, [], ◌∷◌, ◌++◌, Option, none, some,
  if◌then◌else◌, ◌&&◌, ◌||◌, not, length, get_or, ltb, leb, has, ◌==◌, any_of, map,
}
use siesta.Validator.Json
use siesta.Validator.Json.{
  Json, null, bool, int64, uint64, double, string, array, object, Fields, Outside, get_string,
  get_int64, items_of, fields_of,
}
use siesta.Validator.Uri.{uri_text, no_location}
use siesta.Validator.Values.{find_field}
use siesta.Validator.Node
use siesta.Validator.Node.{
  Keyword, Parent, no_parent, root_parent, dangling, SchemaNode, node, Nodes, info, child_nodes,
  children,
}
use siesta.Validator.Refs.{Compiled, Target, found, stale, missing, find_ref}
use siesta.Validator.Run.{
  Outcome, done, threw, undefined, ◌>>=◌, State, Step, ◌>>>◌, skip, fail_with, report_error, when,
  resize, for_each, to_size, below_int, above_int,
}
use siesta.Validator.Locations.{last_segment, location_below}
use siesta.Validator.Leaves.{complain, with_text, is_present, matches, validate_pattern}

-- validate_node(node, instance, schema_location, instance_location, ctx)
abbrev pub Visit : Type 0 → Type 0
Visit D = SchemaNode D → Json D → Text → Text → Step

abbrev pub report_all : Text → List Text → Step
report_all loc [] = skip
report_all loc (m ∷ ms) = report_error loc m >>> report_all loc ms

abbrev pub note_property : Text → Step
note_property name st = done (record st {
  evaluated_properties =
      if has name st.evaluated_properties
      then st.evaluated_properties
      else name ∷ st.evaluated_properties;
})

abbrev pub note_item : Step
note_item st = done (record st { evaluated_items = st.evaluated_items ++ true ∷ [] })

-- Whether no error came up between two states.
abbrev pub as_clean : State → State → Bool
as_clean before st = length st.errors == length before.errors

abbrev pub schema_name : {D : Type 0} → SchemaNode D → Text
schema_name n = last_segment (uri_text (info n).uri)

-- node.children[0], if there is one
abbrev pub first_child : {D : Type 0} → SchemaNode D → Option (SchemaNode D)
first_child n = elim (child_nodes n) [ Nodes.nil ↦ none | Nodes.cons m _ ↦ some m ]

module _ {D : Type 0} where
  abbrev pub with_first : SchemaNode D → (SchemaNode D → Step) → Step
  with_first n f = elim (first_child n) [ none ↦ skip | some m ↦ f m ]

  abbrev pub fields_in : Json D → Option (Fields D)
  fields_in (object fs) = some fs
  fields_in _ = none

  abbrev pub items_in : Json D → List (Json D)
  items_in (array xs) = items_of xs
  items_in _ = []

  abbrev pub has_name : Text → Fields D → Bool
  has_name name fs = is_present (find_field name fs)

module _ {ℓ} {A : Type ℓ} where
  -- A list with the index of each element, from a first one on.
  abbrev pub indexed : ℕ → List A → List (ℕ × A)
  indexed i [] = []
  indexed i (x ∷ xs) = (i, x) ∷ indexed (suc i) xs

  abbrev pub nth : List A → ℕ → Option A
  nth [] i = none
  nth (x ∷ xs) zero = some x
  nth (x ∷ xs) (suc i) = nth xs i

  abbrev pub last_of : List A → Option A
  last_of [] = none
  last_of (x ∷ []) = some x
  last_of (_ ∷ y ∷ ys) = last_of (y ∷ ys)

  -- How many steps report nothing; the errors of the others are taken back.
  unfoldable pub count_clean : (A → Step) → List A → ℕ → State → Outcome (ℕ × State)
  count_clean f [] k st = done (k, st)
  count_clean f (x ∷ xs) k st = f x st >>= λ after.
      if as_clean st after
      then count_clean f xs (suc k) after
      else count_clean f xs k (resize (length st.errors) after)

  -- Whether some step reports nothing; the steps behind it are not taken.
  unfoldable pub any_clean : (A → Step) → List A → State → Outcome (Bool × State)
  any_clean f [] st = done (false, st)
  any_clean f (x ∷ xs) st =
      f x st >>= λ after. if as_clean st after then done (true, after) else any_clean f xs after

-- The node for an item: the last one serves for all items behind the others.
abbrev pub node_at {ℓ} : {A : Type ℓ} → List A → ℕ → Option A
node_at ns i = if ltb i (length ns) then nth ns i else last_of ns

abbrev pub not_message : Text
not_message = lit "Value must not match the \"not\" schema"

abbrev pub contains_message : Text
contains_message = lit "Array does not contain any items matching the \"contains\" schema"

-- A run of `f` whose errors are taken back, and what follows on whether there were any.
abbrev pub attempt : Step → (Bool → Step) → Step
attempt f next st = f st >>= λ after. next (as_clean st after) (resize (length st.errors) after)

module _ {D : Type 0} (enter : SchemaNode D → Json D → Text → Step) where
  abbrev pub visit_all : List (SchemaNode D) → Json D → Text → Step
  visit_all ms v place = for_each ms λ m. enter m v place

  unfoldable pub check_all_of : SchemaNode D → Json D → Text → Step
  unfolding for_each
  check_all_of n v place = visit_all (children n) v place

  unfoldable pub check_any_of : SchemaNode D → Json D → Text → Text → Step
  unfolding any_clean
  check_any_of n v loc place st = any_clean (λ m. enter m v place) (children n) st >>= λ r.
      when (not r.0) (report_error loc (lit "Value does not match any of the anyOf schemas"))
        (resize (length st.errors) r.1)

  unfoldable pub check_not : SchemaNode D → Json D → Text → Text → Step
  check_not n v loc place = with_first n λ m st. enter m v place st >>= λ after.
      if as_clean st after
      then report_error loc not_message after
      else done (resize (length st.errors) after)

  -- The value of a property, if it is there.
  abbrev pub enter_property : Option (Json D) → SchemaNode D → Text → Step
  enter_property none child place = skip
  enter_property (some w) child place =
      visit_all (children child) w (location_below place (schema_name child))
      >>> note_property (schema_name child)

  -- The properties that have a schema; the text behind the last slash of its URI is the name.
  unfoldable pub check_properties : SchemaNode D → Json D → Text → Step
  unfolding for_each uri_text last_segment find_field location_below
  check_properties n v place = elim (fields_in v) [
    | none ↦ skip
    | some fs ↦
        for_each (children n)
          λ child. enter_property (find_field (schema_name child) fs) child place
  ]

  -- A property that is not among the evaluated ones.
  abbrev pub enter_rest : SchemaNode D → Text → Text × Json D → Step
  enter_rest m place f st =
      if has f.0 st.evaluated_properties then done st else enter m f.1 (location_below place f.0) st

  unfoldable pub check_additional_properties : SchemaNode D → Json D → Text → Step
  unfolding for_each has location_below
  check_additional_properties n v place = elim (fields_in v) [
    | none ↦ skip
    | some fs ↦ with_first n λ m. for_each (fields_of fs) (enter_rest m place)
  ]

  unfoldable pub check_unevaluated_properties : SchemaNode D → Json D → Text → Step
  unfolding for_each has location_below
  check_unevaluated_properties n v place = elim (fields_in v) [
    | none ↦ skip
    | some fs ↦ with_first n λ m. for_each (fields_of fs) (enter_rest m place)
  ]

  unfoldable pub check_dependent_schemas : SchemaNode D → Json D → Text → Step
  unfolding for_each uri_text last_segment find_field
  check_dependent_schemas n v place = elim (fields_in v) [
    | none ↦ skip
    | some fs ↦
        for_each (children n)
          λ child. when (has_name (schema_name child) fs) (visit_all (children child) v place)
  ]

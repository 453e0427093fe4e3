-- ===== src/Validator/Check.antt =====
-- jsonschema/src/schema_types.cpp: `validate_node` and `validate`. The recursion is cut off by a number of
-- nested visits, since references can go round in circles.
pub mod Fine
pub mod Switch
pub mod Errors
pub mod Ending
pub mod Soundness
pub mod Trees
use siesta.Prelude.{
  ℤ, ℕ, zero, suc, ◌⊎◌, inl, inr, Text, lit, Bool, true, false, List, [], ◌∷◌, ◌++◌, Option, none,
  some,
}
use siesta.Validator.Json
use siesta.Validator.Json.{Json, bool, Outside, get_int64}
use siesta.Validator.Uri.{uri_text}
use siesta.Validator.Node
use siesta.Validator.Node.{Keyword, SchemaNode, info, children}
use siesta.Validator.Refs.{Compiled}
use siesta.Validator.Run.{
  Outcome, done, threw, undefined, out_of_fuel, ◌>>=◌, State, Step, ValidationError, skip,
  report_error, fail_with, to_size,
}
use siesta.Validator.Leaves.{
  type_messages, enum_messages, const_messages, multiple_of_messages, maximum_messages,
  minimum_messages, exclusive_maximum_messages, exclusive_minimum_messages, max_length_messages,
  min_length_messages, pattern_messages, max_items_messages, min_items_messages,
  max_properties_messages, min_properties_messages, unique_items_messages, required_messages,
}
use siesta.Validator.Branches.{
  Visit, report_all, check_all_of, check_any_of, check_not, check_properties,
  check_additional_properties, check_unevaluated_properties, check_dependent_schemas,
}
use siesta.Validator.Branches.Items.{
  check_one_of, check_items, check_prefix_items, check_contains, check_unevaluated_items,
}
use siesta.Validator.Branches.Parents.{check_if, check_ref, check_additional_items}
use siesta.Validator.Branches.Names.{
  check_pattern_properties, check_dependent_required, check_property_names,
}

-- maxContains and minContains
abbrev pub set_max : Option ℤ → Step
set_max none st = done st
set_max (some z) st = done (record st { max_contains_count = to_size z })

abbrev pub set_min : Option ℤ → Step
set_min none st = done st
set_min (some z) st = done (record st { min_contains_count = to_size z })

unfoldable pub set_max_contains : {D : Type 0} → Json D → Step
set_max_contains limit = set_max (get_int64 limit)

unfoldable pub set_min_contains : {D : Type 0} → Json D → Step
set_min_contains limit = set_min (get_int64 limit)

-- What the code does with nodes of any other keyword.
unfoldable pub check_boolean : {D : Type 0} → Json D → Text → Step
check_boolean (bool false) loc =
    report_error loc (lit "Value does not match schema (schema is false)")
check_boolean _ loc = skip

-- The messages of a keyword that looks at the instance only; none for the other keywords.
unfoldable pub leaf_messages :
    (o : Outside) → Keyword → Json o.Double → Json o.Double → Option (Outcome (List Text))
unfolding type_messages enum_messages const_messages multiple_of_messages maximum_messages
    minimum_messages exclusive_maximum_messages exclusive_minimum_messages max_length_messages
    min_length_messages pattern_messages max_items_messages min_items_messages
    max_properties_messages min_properties_messages unique_items_messages required_messages
leaf_messages o Keyword.type limit v = some (done (type_messages o limit v))
leaf_messages o Keyword.enum limit v = some (enum_messages o limit v)
leaf_messages o Keyword.const limit v = some (done (const_messages o limit v))
leaf_messages o Keyword.multiple_of limit v = some (done (multiple_of_messages o limit v))
leaf_messages o Keyword.maximum limit v = some (done (maximum_messages o limit v))
leaf_messages o Keyword.minimum limit v = some (done (minimum_messages o limit v))
leaf_messages o Keyword.exclusive_maximum limit v =
    some (done (exclusive_maximum_messages o limit v))
leaf_messages o Keyword.exclusive_minimum limit v =
    some (done (exclusive_minimum_messages o limit v))
leaf_messages o Keyword.max_length limit v = some (done (max_length_messages o limit v))
leaf_messages o Keyword.min_length limit v = some (done (min_length_messages o limit v))
leaf_messages o Keyword.pattern limit v = some (done (pattern_messages o limit v))
leaf_messages o Keyword.max_items limit v = some (done (max_items_messages o limit v))
leaf_messages o Keyword.min_items limit v = some (done (min_items_messages o limit v))
leaf_messages o Keyword.unique_items limit v = some (done (unique_items_messages o limit v))
leaf_messages o Keyword.max_properties limit v = some (done (max_properties_messages o limit v))
leaf_messages o Keyword.min_properties limit v = some (done (min_properties_messages o limit v))
leaf_messages o Keyword.required limit v = some (required_messages o limit v)
leaf_messages o _ limit v = none

abbrev pub report_messages : Text → Outcome (List Text) → Step
report_messages loc messages st = messages >>= λ ms. report_all loc ms st

module _ (o : Outside) (c : Compiled o.Double) where
  abbrev pub enter_by : Visit o.Double → SchemaNode o.Double → Json o.Double → Text → Step
  enter_by visit m v place = visit m v (uri_text (info m).uri) place

  -- The switch over the keywords that do not only look at the instance.
  unfoldable pub check_branch :
      (SchemaNode o.Double → Json o.Double → Text → Step) → Keyword → Visit o.Double
  unfolding check_all_of check_any_of check_one_of check_not check_properties
      check_additional_properties check_unevaluated_properties check_items check_prefix_items
      check_contains check_unevaluated_items check_dependent_schemas check_if check_ref
      check_additional_items check_pattern_properties check_dependent_required check_property_names
      set_max_contains set_min_contains check_boolean
  check_branch enter Keyword.schema n v loc place = check_all_of enter n v place
  check_branch enter Keyword.max_contains n v loc place = set_max_contains (info n).value
  check_branch enter Keyword.min_contains n v loc place = set_min_contains (info n).value
  check_branch enter Keyword.all_of n v loc place = check_all_of enter n v place
  check_branch enter Keyword.any_of n v loc place = check_any_of enter n v loc place
  check_branch enter Keyword.one_of n v loc place = check_one_of enter o.print_nat n v loc place
  check_branch enter Keyword.not_schema n v loc place = check_not enter n v loc place
  check_branch enter Keyword.if_schema n v loc place = check_if enter c.root n v place
  check_branch enter Keyword.properties n v loc place = check_properties enter n v place
  check_branch enter Keyword.additional_properties n v loc place =
      check_additional_properties enter n v place
  check_branch enter Keyword.items n v loc place = check_items enter o.print_nat n v place
  check_branch enter Keyword.prefix_items n v loc place =
      check_prefix_items enter o.print_nat n v place
  check_branch enter Keyword.contains n v loc place = check_contains enter o.print_nat n v loc place
  check_branch enter Keyword.ref n v loc place = check_ref enter c n v loc place
  check_branch enter Keyword.pattern_properties n v loc place =
      check_pattern_properties o enter n v place
  check_branch enter Keyword.dependent_required n v loc place = check_dependent_required o n v loc
  check_branch enter Keyword.dependent_schemas n v loc place =
      check_dependent_schemas enter n v place
  check_branch enter Keyword.property_names n v loc place = check_property_names o n v loc
  check_branch enter Keyword.additional_items n v loc place =
      check_additional_items enter o.print_nat c.root n v place
  check_branch enter Keyword.unevaluated_properties n v loc place =
      check_unevaluated_properties enter n v place
  check_branch enter Keyword.unevaluated_items n v loc place =
      check_unevaluated_items enter o.print_nat n v place
  check_branch enter _ n v loc place = check_boolean (info n).value loc

  abbrev pub or_branch : Option (Outcome (List Text)) → Text → Step → Step
  or_branch none loc branch = branch
  or_branch (some messages) loc branch = report_messages loc messages

  unfoldable pub validate_node : ℕ → Visit o.Double
  unfolding leaf_messages check_branch uri_text
  validate_node zero n v loc place = λ st. out_of_fuel
  validate_node (suc fuel) n v loc place =
      or_branch (leaf_messages o (info n).keyword (info n).value v) loc
        (check_branch (enter_by (validate_node fuel)) (info n).keyword n v loc place)

  abbrev pub no_context : List ValidationError → State
  no_context errors = record {
    errors = errors;
    evaluated_items = [];
    evaluated_properties = [];
    min_contains_count = 0;
    max_contains_count = 0;
  }

  abbrev pub passed : State → Bool × List ValidationError
  passed st = (elim st.errors [ [] ↦ true | _ ∷ _ ↦ false ], st.errors)

  -- The answer and `errors_`. A text that simdjson does not parse comes with simdjson's error message.
  unfoldable pub validate : ℕ → Text ⊎ Json o.Double → Outcome (Bool × List ValidationError)
  unfolding validate_node
  validate fuel (inl error) =
      report_error (lit "#") (lit "Invalid JSON instance: " ++ error) (no_context []) >>= λ st.
      done (passed st)
  validate fuel (inr v) =
      validate_node fuel c.root v (lit "#") [] (no_context []) >>= λ st. done (passed st)

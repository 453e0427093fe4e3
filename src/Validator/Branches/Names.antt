-- ===== src/Validator/Branches/Names.antt =====
-- jsonschema/src/schema_types.cpp, `validate_node`: patternProperties, dependentRequired, propertyNames.
use siesta.Prelude.{
  Text, lit, text_eq, Bool, false, List, [], ◌++◌, Option, none, some, not, length, ltb, any_of,
}
use siesta.Validator.Json.{Json, string, array, Outside, get_string, get_int64, items_of, fields_of}
use siesta.Validator.Uri.{uri_text}
use siesta.Validator.Node.{Keyword, SchemaNode, info, children}
use siesta.Validator.Run.{
  Outcome, done, threw, ◌>>=◌, Step, ◌>>>◌, skip, report_error, when, for_each, below_int,
  above_int,
}
use siesta.Validator.Locations.{last_segment, location_below}
use siesta.Validator.Leaves.{complain, with_text, matches, validate_pattern}
use siesta.Validator.Values.{find_field}
use siesta.Validator.Branches.{
  report_all, with_first, schema_name, fields_in, has_name, visit_all, note_property,
}

module _ (o : Outside) where
  unfoldable pub check_pattern_properties :
      (SchemaNode o.Double → Json o.Double → Text → Step)
      → SchemaNode o.Double
      → Json o.Double
      → Text
      → Step
  unfolding for_each matches uri_text last_segment location_below
  check_pattern_properties enter n v place = elim (fields_in v) [
    | none ↦ skip
    | some fs ↦ for_each (children n) λ child. for_each (fields_of fs) λ f.
        when (matches o (schema_name child) f.0)
          (visit_all enter (children child) f.1 (location_below place f.0) >>> note_property f.0)
  ]

  -- For a property that is there, the names of the nodes below its first node.
  unfoldable pub check_dependent_required : SchemaNode o.Double → Json o.Double → Text → Step
  unfolding for_each uri_text last_segment find_field
  check_dependent_required n v loc = elim (fields_in v) [
    | none ↦ skip
    | some fs ↦ for_each (children n) λ child. when (has_name (schema_name child) fs) (
        with_first child λ required. for_each (children required) λ r.
          when (not (has_name (schema_name r) fs)) (
            report_error loc (
              lit "Missing required property '"
              ++ (schema_name r
                  ++ (lit "' due to dependency '" ++ (schema_name child ++ lit "'"))))))
  ]

  abbrev pub name_message : Text → Text → Text
  name_message key says = lit "Property name \"" ++ (key ++ says)

  abbrev pub is_text : Text → Json o.Double → Bool
  is_text s (string t) = text_eq t s
  is_text s _ = false

  abbrev pub size_message : Text → Text → Text → Text
  size_message key s says = name_message key (lit "\" (length " ++ (o.print_nat (length s) ++ says))

  -- What a keyword below `propertyNames` says of a property `key` with the text `s` as its value.
  unfoldable pub name_messages : Keyword → Json o.Double → Text → Text → Outcome (List Text)
  unfolding validate_pattern text_eq
  name_messages Keyword.pattern limit key s =
      done (with_text (get_string limit) λ p. validate_pattern o p (string s))
  name_messages Keyword.max_length limit key s = done (
      with_text (get_int64 limit) λ z.
        complain (above_int (length s) z)
          (size_message key s (lit ") exceeds maxLength of " ++ o.print_int z)))
  name_messages Keyword.min_length limit key s = done (
      with_text (get_int64 limit) λ z.
        complain (below_int (length s) z)
          (size_message key s (lit ") is below minLength of " ++ o.print_int z)))
  name_messages Keyword.const limit key s = done (
      with_text (get_string limit) λ c.
        complain (not (text_eq s c))
          (name_message key (lit "\" does not match const \"" ++ (c ++ lit "\""))))
  name_messages Keyword.enum (array xs) key s =
      done (
        complain (not (any_of (is_text s) (items_of xs))) (name_message key (lit "\" not in enum")))
  name_messages Keyword.enum _ key s = threw
  name_messages _ limit key s = done []

  unfoldable pub check_name : Text → Text → SchemaNode o.Double → Step
  unfolding name_messages uri_text
  check_name key s sub st = name_messages (info sub).keyword (info sub).value key s >>= λ ms.
      report_all (uri_text (info sub).uri) ms st

  abbrev pub check_name_by : Option Text → Text → List (SchemaNode o.Double) → Step
  check_name_by none key subs = skip
  check_name_by (some s) key subs = for_each subs (check_name key s)

  -- Only the properties whose value is a text are looked at.
  unfoldable pub check_property_names : SchemaNode o.Double → Json o.Double → Text → Step
  unfolding for_each check_name
  check_property_names n v loc = elim (fields_in v) [
    | none ↦ skip
    | some fs ↦ with_first n λ m. for_each (fields_of fs) λ f st.
        check_name_by (get_string f.1) f.0 (children m) st >>= λ after.
        when (ltb (length st.errors) (length after.errors))
          (report_error loc (name_message f.0 (lit "\" does not match propertyNames schema"))) after
  ]

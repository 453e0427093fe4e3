-- ===== src/Validator/Leaves.antt =====
-- jsonschema/src/schema_types.cpp, `validate_node`: the keywords that look at the instance only. Each gives
-- the messages of the errors it reports; an array that is none throws.
pub mod Required
use siesta.Prelude.{
  ℕ, suc, Text, lit, text_eq, Bool, true, false, List, [], ◌∷◌, ◌++◌, Option, none, some,
  if◌then◌else◌, ◌&&◌, ◌||◌, not, ℤ, pos, length, any_of, has, ltb, ◌^◌, ◌==◌,
}
use siesta.Validator.Json
use siesta.Validator.Json.{
  Json, null, bool, int64, uint64, double, string, array, object, Items, Fields, Outside,
  get_string, get_bool, get_int64, get_double, items_of, fields_of,
}
use siesta.Validator.Values.{type_to_string, check_type_match, json_equal, find_field}
use siesta.Validator.Run.{Outcome, done, threw, ◌>>=◌, to_size, below_int, above_int}
use siesta.Validator.Locations.{contains_text}

abbrev pub complain : Bool → Text → List Text
complain b message = if b then message ∷ [] else []

abbrev pub with_text {ℓ} : {A : Type ℓ} → Option A → (A → List Text) → List Text
with_text none f = []
with_text (some a) f = f a

abbrev pub is_present {ℓ} : {A : Type ℓ} → Option A → Bool
is_present none = false
is_present (some _) = true

module _ (o : Outside) where
  -- Some text of a list names a type of the instance.
  abbrev pub is_type : Json o.Double → Json o.Double → Bool
  is_type v (string t) = check_type_match o v t
  is_type v _ = false

  unfoldable pub type_messages : Json o.Double → Json o.Double → List Text
  unfolding check_type_match type_to_string
  type_messages (string t) v = complain (not (check_type_match o v t)) (
      lit "Type mismatch: expected \""
      ++ (t ++ (lit "\", got \"" ++ (type_to_string v ++ lit "\""))))
  type_messages (array ts) v =
      complain (not (any_of (is_type v) (items_of ts)))
        (lit "Type mismatch: expected one of array types, got \"" ++ (type_to_string v ++ lit "\""))
  type_messages _ v = []

  -- A value as the messages of `enum` and `const` show it.
  unfoldable pub show_value : Json o.Double → Text
  unfolding type_to_string
  show_value (string s) = lit "\"" ++ (s ++ lit "\"")
  show_value (int64 z) = o.print_int z
  show_value (uint64 n) = if ltb n (2 ^ 63) then o.print_int (pos n) else o.print_nat n
  show_value (double d) = o.stream_double d
  show_value (bool b) = if b then lit "true" else lit "false"
  show_value v = lit "<" ++ (type_to_string v ++ lit ">")

  -- The list of the allowed values, with ", " in front of each but the first.
  unfoldable pub show_values : Bool → List (Json o.Double) → Text
  unfolding show_value
  show_values first [] = []
  show_values first (v ∷ vs) =
      (if first then [] else lit ", ") ++ (show_value v ++ show_values false vs)

  unfoldable pub enum_messages : Json o.Double → Json o.Double → Outcome (List Text)
  unfolding json_equal show_values
  enum_messages (array vs) v = done (
      complain (not (any_of (json_equal o v) (items_of vs))) (
        lit "Value not in enum: allowed values are ["
        ++ (show_values true (items_of vs) ++ lit "]")))
  enum_messages _ v = threw

  unfoldable pub const_messages : Json o.Double → Json o.Double → List Text
  unfolding json_equal show_value type_to_string
  const_messages c v = complain (not (json_equal o v c)) (
      lit "Value does not match const: expected "
      ++ (show_value c ++ (lit ", got " ++ type_to_string v)))

  -- The limit of a keyword and the instance, where both are numbers.
  abbrev pub both_doubles :
      Json o.Double → Json o.Double → (o.Double → o.Double → List Text) → List Text
  both_doubles limit v f = with_text (get_double o limit) (λ d. with_text (get_double o v) (f d))

  abbrev pub value_message : o.Double → Text → o.Double → Text
  value_message x says d = lit "Value " ++ (o.print_double x ++ (says ++ o.print_double d))

  unfoldable pub multiple_of_messages : Json o.Double → Json o.Double → List Text
  multiple_of_messages limit v = both_doubles limit v λ d x.
      let remainder = o.fmod x d in
      complain
        (not (o.equal d o.zero_double)
          && o.less o.tolerance (o.abs remainder)
          && o.less o.tolerance (o.abs (o.sub remainder d)))
        (value_message x (lit " is not a multiple of ") d)

  unfoldable pub maximum_messages : Json o.Double → Json o.Double → List Text
  maximum_messages limit v =
      both_doubles limit v
        λ d x. complain (o.less d x) (value_message x (lit " exceeds maximum of ") d)

  unfoldable pub minimum_messages : Json o.Double → Json o.Double → List Text
  minimum_messages limit v =
      both_doubles limit v
        λ d x. complain (o.less x d) (value_message x (lit " is below minimum of ") d)

  unfoldable pub exclusive_maximum_messages : Json o.Double → Json o.Double → List Text
  exclusive_maximum_messages limit v = both_doubles limit v λ d x.
      complain (o.less_eq d x) (value_message x (lit " must be less than exclusiveMaximum of ") d)

  unfoldable pub exclusive_minimum_messages : Json o.Double → Json o.Double → List Text
  exclusive_minimum_messages limit v = both_doubles limit v λ d x.
      complain (o.less_eq x d)
        (value_message x (lit " must be greater than exclusiveMinimum of ") d)

  abbrev pub size_message : Text → ℕ → Text → ℤ → Text
  size_message what n says z = what ++ (o.print_nat n ++ (says ++ o.print_int z))

  -- The sizes of strings are compared as signed numbers. No string has 2 ^ 63 bytes.
  unfoldable pub max_length_messages : Json o.Double → Json o.Double → List Text
  max_length_messages limit v = with_text (get_int64 limit) λ z. with_text (get_string v) λ s.
      complain (above_int (length s) z)
        (size_message (lit "String length ") (length s) (lit " exceeds maxLength of ") z)

  unfoldable pub min_length_messages : Json o.Double → Json o.Double → List Text
  min_length_messages limit v = with_text (get_int64 limit) λ z. with_text (get_string v) λ s.
      complain (below_int (length s) z)
        (size_message (lit "String length ") (length s) (lit " is below minLength of ") z)

  -- A search for a regular expression, or for the text where it is none.
  unfoldable pub matches : Text → Text → Bool
  unfolding contains_text
  matches pattern s = elim (o.regex pattern) [
    | some search ↦ search s
    | none ↦ contains_text s pattern
  ]

  unfoldable pub validate_pattern : Text → Json o.Double → List Text
  unfolding matches
  validate_pattern pattern v = with_text (get_string v) λ s.
      complain (not (matches pattern s))
        (lit "String \"" ++ (s ++ (lit "\" does not match pattern /" ++ (pattern ++ lit "/"))))

  unfoldable pub pattern_messages : Json o.Double → Json o.Double → List Text
  unfolding validate_pattern
  pattern_messages limit v = with_text (get_string limit) (λ pattern. validate_pattern pattern v)

  abbrev pub array_size : Json o.Double → Option ℕ
  array_size (array xs) = some (length (items_of xs))
  array_size _ = none

  abbrev pub object_size : Json o.Double → Option ℕ
  object_size (object fs) = some (length (fields_of fs))
  object_size _ = none

  -- The sizes of arrays and objects are compared as unsigned numbers.
  unfoldable pub max_items_messages : Json o.Double → Json o.Double → List Text
  max_items_messages limit v = with_text (get_int64 limit) λ z. with_text (array_size v) λ n.
      complain (ltb (to_size z) n)
        (size_message (lit "Array length ") n (lit " exceeds maxItems of ") z)

  unfoldable pub min_items_messages : Json o.Double → Json o.Double → List Text
  min_items_messages limit v = with_text (get_int64 limit) λ z. with_text (array_size v) λ n.
      complain (ltb n (to_size z))
        (size_message (lit "Array length ") n (lit " is below minItems of ") z)

  unfoldable pub max_properties_messages : Json o.Double → Json o.Double → List Text
  max_properties_messages limit v = with_text (get_int64 limit) λ z. with_text (object_size v) λ n.
      complain (ltb (to_size z) n)
        (size_message (lit "Object has ") n (lit " properties, exceeds maxProperties of ") z)

  unfoldable pub min_properties_messages : Json o.Double → Json o.Double → List Text
  min_properties_messages limit v = with_text (get_int64 limit) λ z. with_text (object_size v) λ n.
      complain (ltb n (to_size z))
        (size_message (lit "Object has ") n (lit " properties, below minProperties of ") z)

  -- The index of the first item that prints as an earlier one.
  unfoldable pub duplicate_index : List Text → ℕ → List (Json o.Double) → Option ℕ
  unfolding has
  duplicate_index seen index [] = none
  duplicate_index seen index (v ∷ vs) =
      let rest = duplicate_index (o.minify v ∷ seen) (suc index) vs in
      if has (o.minify v) seen then some index else rest

  abbrev pub is_unique : Option Bool → Bool
  is_unique (some b) = b
  is_unique none = false

  unfoldable pub unique_items_messages : Json o.Double → Json o.Double → List Text
  unfolding duplicate_index
  unique_items_messages limit (array xs) =
      if is_unique (get_bool limit)
      then with_text (duplicate_index [] 0 (items_of xs))
          (λ index. (lit "Array contains duplicate items at index " ++ o.print_nat index) ∷ [])
      else []
  unique_items_messages limit _ = []

  unfoldable pub missing_messages : List (Json o.Double) → Fields o.Double → List Text
  unfolding find_field
  missing_messages [] fs = []
  missing_messages (string name ∷ names) fs =
      complain (not (is_present (find_field name fs))) (lit "Missing required property: " ++ name)
      ++ missing_messages names fs
  missing_messages (_ ∷ names) fs = missing_messages names fs

  unfoldable pub required_messages : Json o.Double → Json o.Double → Outcome (List Text)
  unfolding missing_messages
  required_messages (array names) (object fs) = done (missing_messages (items_of names) fs)
  required_messages _ (object fs) = threw
  required_messages _ _ = done []

-- ===== src/Validator/Json.antt =====
-- The JSON values that jsonschema/src/schema_types.cpp reads by simdjson, and what it takes from outside:
-- simdjson's accessors as its documentation gives them, floating-point numbers, regular expressions
-- and the printing of numbers.
use siesta.Prelude.{
  ℕ, ◌^◌, Text, Bool, true, false, List, Option, none, some, if◌then◌else◌, ltb, ℤ, pos,
}

-- dom::element; doubles are a parameter.
mutual
  pub data Json (D : Type 0) : Type 0 where
    null : Json D
    bool : Bool → Json D
    int64 : ℤ → Json D
    uint64 : ℕ → Json D
    double : D → Json D
    string : Text → Json D
    array : Items D → Json D
    object : Fields D → Json D

  pub data Items (D : Type 0) : Type 0 where
    nil : Items D
    cons : Json D → Items D → Items D

  pub data Fields (D : Type 0) : Type 0 where
    end : Fields D
    field : Text → Json D → Fields D → Fields D

-- What the program does not implement. `regex` is none if the pattern is no regular expression; a search by
-- one that is does not throw.
pub record Outside : Type 1 where
  pub Double : Type 0
  pub of_int : ℤ → Double
  pub of_nat : ℕ → Double
  pub zero_double : Double
  pub tolerance : Double
  pub sub : Double → Double → Double
  pub abs : Double → Double
  pub floor : Double → Double
  pub fmod : Double → Double → Double
  pub less : Double → Double → Bool
  pub less_eq : Double → Double → Bool
  pub equal : Double → Double → Bool
  pub print_double : Double → Text
  pub stream_double : Double → Text
  pub print_int : ℤ → Text
  pub print_nat : ℕ → Text
  pub regex : Text → Option (Text → Bool)
  pub minify : Json Double → Text

module _ {D : Type 0} where
  abbrev pub get_string : Json D → Option Text
  get_string (string s) = some s
  get_string _ = none

  abbrev pub get_bool : Json D → Option Bool
  get_bool (bool b) = some b
  get_bool _ = none

  -- The two integer types are one where the value fits.
  abbrev pub get_int64 : Json D → Option ℤ
  get_int64 (int64 z) = some z
  get_int64 (uint64 n) = if ltb n (2 ^ 63) then some (pos n) else none
  get_int64 _ = none

  abbrev pub is_object : Json D → Bool
  is_object (object _) = true
  is_object _ = false

  abbrev pub items_of : Items D → List (Json D)
  items_of nil = List.[]
  items_of (cons x xs) = List.◌∷◌ x (items_of xs)

  abbrev pub fields_of : Fields D → List (Text × Json D)
  fields_of end = List.[]
  fields_of (field k v fs) = List.◌∷◌ (k, v) (fields_of fs)

-- get<double>: any number.
abbrev pub get_double : (o : Outside) → Json o.Double → Option o.Double
get_double o (int64 z) = some (o.of_int z)
get_double o (uint64 n) = some (o.of_nat n)
get_double o (double d) = some d
get_double o _ = none

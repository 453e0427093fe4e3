-- ===== src/Validator/Values.antt =====
-- jsonschema/src/schema_types.cpp: types of JSON values, and when two of them count as equal.
pub mod Types
pub mod Equality
use siesta.Prelude.{
  Text, lit, text_eq, Bool, true, false, Option, none, some, if◌then◌else◌, ◌&&◌, ◌||◌, ℤ, ◌==◌,
}
use siesta.Validator.Json.{
  Json, null, bool, int64, uint64, double, string, array, object, Items, nil, cons, Fields, end,
  field, Outside, get_double,
}

unfoldable pub type_to_string : {D : Type 0} → Json D → Text
type_to_string (array _) = lit "array"
type_to_string (object _) = lit "object"
type_to_string (int64 _) = lit "integer"
type_to_string (uint64 _) = lit "integer"
type_to_string (double _) = lit "number"
type_to_string (string _) = lit "string"
type_to_string (bool _) = lit "boolean"
type_to_string null = lit "null"

unfoldable pub check_type_match : (o : Outside) → Json o.Double → Text → Bool
unfolding text_eq
check_type_match o (array _) type = text_eq type (lit "array")
check_type_match o (object _) type = text_eq type (lit "object")
check_type_match o (string _) type = text_eq type (lit "string")
check_type_match o (bool _) type = text_eq type (lit "boolean")
check_type_match o null type = text_eq type (lit "null")
check_type_match o (int64 _) type = text_eq type (lit "integer") || text_eq type (lit "number")
check_type_match o (uint64 _) type = text_eq type (lit "integer") || text_eq type (lit "number")
check_type_match o (double d) type =
    if text_eq type (lit "number")
    then true
    else if text_eq type (lit "integer")
    then o.equal (o.floor d) d
    else false

-- The first value of a name; `emplace` keeps the first, too.
unfoldable pub find_field : {D : Type 0} → Text → Fields D → Option (Json D)
unfolding text_eq
find_field k end = none
find_field k (field j v fs) = if text_eq j k then some v else find_field k fs

-- `std::abs(da - db) < 1e-10`
abbrev pub close : (o : Outside) → o.Double → o.Double → Bool
close o a b = o.less (o.abs (o.sub a b)) o.tolerance

abbrev pub bool_eq : Bool → Bool → Bool
bool_eq true b = b
bool_eq false true = false
bool_eq false false = true

-- Two values of one type. The fields of an object are looked up in the other, which may have more.
module _ (o : Outside) where
  unfoldable mutual
    unfolding text_eq find_field

    pub json_equal : Json o.Double → Json o.Double → Bool
    json_equal (array xs) (array ys) = items_equal xs ys
    json_equal (object fs) (object gs) = fields_equal fs gs
    json_equal (string s) (string t) = text_eq s t
    json_equal (bool b) (bool c) = bool_eq b c
    json_equal null null = true
    json_equal (int64 a) (int64 b) = close o (o.of_int a) (o.of_int b)
    json_equal (uint64 a) (uint64 b) = close o (o.of_nat a) (o.of_nat b)
    json_equal (double a) (double b) = close o a b
    json_equal _ _ = false

    pub items_equal : Items o.Double → Items o.Double → Bool
    items_equal nil nil = true
    items_equal nil (cons _ _) = false
    items_equal (cons _ _) nil = false
    items_equal (cons x xs) (cons y ys) = json_equal x y && items_equal xs ys

    pub fields_equal : Fields o.Double → Fields o.Double → Bool
    fields_equal end gs = true
    fields_equal (field k v fs) gs =
        (elim (find_field k gs) [ none ↦ false | some w ↦ json_equal v w ]) && fields_equal fs gs

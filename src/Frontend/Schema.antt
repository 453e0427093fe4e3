-- ===== src/Frontend/Schema.antt =====
-- generator/src/Frontend/openapi.hpp, openapi.cpp: the schemas of a document, as the accessors of
-- `JsonSchema`, `Object` and `Array` present them. A schema whose type is `array` has its items; one
-- without them, where the program reads an object that is not there, is no value of this type.
use siesta.Prelude.{
  Text, lit, text_eq, Bool, true, false, Option, none, some, if◌then◌else◌, ℤ, List, [], ◌∷◌,
}

-- JsonSchema::Type, without `array`.
pub data Kind : Type 0 where
  unknown string number integer boolean object null : Kind

-- An element of `enum`: a string, an integer of 64 bits, or anything else.
pub data EnumJson : Type 0 where
  string : Text → EnumJson
  integer : ℤ → EnumJson
  other : EnumJson

pub record Head : Type 0 where
  pub ref : Text
  pub format : Text
  pub description : Text
  pub enum : List EnumJson
  pub has_properties : Bool
  pub has_all_of : Bool
  pub has_additional_properties : Bool

mutual
  pub data JsonSchema : Type 0 where
    plain : Kind → Head → (one_of any_of all_of : Schemas) → Properties → JsonSchema
    array : Head → JsonSchema → JsonSchema

  pub data Schemas : Type 0 where
    nil : Schemas
    cons : JsonSchema → Schemas → Schemas

  pub data Properties : Type 0 where
    end : Properties
    property : Text → JsonSchema → Properties → Properties

abbrev pub head : JsonSchema → Head
head (plain kind h one_of any_of all_of props) = h
head (array h items) = h

abbrev pub is_given : Text → Bool
is_given [] = false
is_given (_ ∷ _) = true

-- IsRef(): the reference is not empty
abbrev pub is_ref : JsonSchema → Bool
is_ref s = is_given (head s).ref

-- Type_(): the kind that a text names, `none` for `array`
unfoldable pub kind_of : Text → Option Kind
unfolding text_eq
kind_of sv =
    if text_eq sv (lit "string")
    then some string
    else if text_eq sv (lit "number")
    then some number
    else if text_eq sv (lit "integer")
    then some integer
    else if text_eq sv (lit "boolean")
    then some boolean
    else if text_eq sv (lit "object")
    then some object
    else if text_eq sv (lit "array")
    then none
    else if text_eq sv (lit "null")
    then some null
    else some unknown

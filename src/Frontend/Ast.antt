-- ===== src/Frontend/Ast.antt =====
-- generator/src/Frontend/AST.hpp, AST.cpp: the normalized schema, its tables and their validation.
pub mod Validation
use siesta.Prelude.{
  ℕ, Text, lit, Bool, true, false, List, [], ◌∷◌, ◌++◌, Option, none, some, not, ◌&&◌,
  if◌then◌else◌, Dict, find, assign, length, HashOrder,
}

pub record TypeRef : Type 0 where
  pub name : Text
  pub is_inline : Bool

pub data PrimitiveKind : Type 0 where
  string integer number boolean null : PrimitiveKind

pub data IntegerFormat : Type 0 where
  int32 int64 uint32 uint64 : IntegerFormat

pub data NumberFormat : Type 0 where
  float double : NumberFormat

pub data StringFormat : Type 0 where
  no_format date date_time email uuid uri base64 : StringFormat

pub record PrimitiveType : Type 0 where
  pub kind : PrimitiveKind
  pub int_format : Option IntegerFormat
  pub num_format : Option NumberFormat
  pub str_format : Option StringFormat
  pub enum_values : List Text
  pub description : Text

pub record ArrayType : Type 0 where
  pub element_type : TypeRef
  pub description : Text

pub record MapType : Type 0 where
  pub value_type : TypeRef
  pub description : Text

pub record EnumValue : Type 0 where
  pub name : Text
  pub value : Text
  pub description : Text

pub record EnumType : Type 0 where
  pub name : Text
  pub values : List EnumValue
  pub is_string : Bool
  pub description : Text

pub record Member : Type 0 where
  pub name : Text
  pub type : TypeRef
  pub required : Bool
  pub default_value : Option Text
  pub description : Text

pub record StructType : Type 0 where
  pub name : Text
  pub fields : List Member
  pub all_of_bases : List TypeRef
  pub description : Text

pub record VariantType : Type 0 where
  pub name : Text
  pub alternatives : List TypeRef
  pub is_nullable : Bool
  pub discriminator_property : Option Text
  pub description : Text

pub data SchemaType : Type 0 where
  struct : StructType → SchemaType
  variant : VariantType → SchemaType
  array : ArrayType → SchemaType
  map_of : MapType → SchemaType
  enumeration : EnumType → SchemaType
  primitive : PrimitiveType → SchemaType

pub record PathItem : Type 0 where
  pub path : Text
  pub operations : Dict Text
  pub parameters : List Member
  pub description : Text

pub record NormalizedAst : Type 0 where
  pub types : Dict SchemaType
  pub paths : Dict PathItem

abbrev pub empty_ast : NormalizedAst
empty_ast = record { types = []; paths = [] }

unfoldable pub add_type : Text → SchemaType → NormalizedAst → NormalizedAst
unfolding assign
add_type name type ast = record ast { types = assign name type ast.types }

unfoldable pub add_path : Text → PathItem → NormalizedAst → NormalizedAst
unfolding assign
add_path path item ast = record ast { paths = assign path item ast.paths }

unfoldable pub get_type : Text → NormalizedAst → Option SchemaType
unfolding find
get_type name ast = find name ast.types

abbrev pub is_some {ℓ} : {A : Type ℓ} → Option A → Bool
is_some none = false
is_some (some _) = true

unfoldable pub has_type : NormalizedAst → Text → Bool
unfolding find
has_type ast name = is_some (find name ast.types)

abbrev pub get_type_count : NormalizedAst → ℕ
get_type_count ast = length ast.types

abbrev quoted : Text → Text
quoted name = lit "'" ++ (name ++ lit "'")

-- The errors of `validateType`, in the order in which they are pushed.
module _ (known : Text → Bool) (context : Text) where
  unfoldable pub field_errors : List Member → List Text
  field_errors [] = []
  field_errors (f ∷ fs) =
      if not f.type.is_inline && not (known f.type.name)
      then (context
          ++ (lit ": field "
              ++ (quoted f.name ++ (lit " references unknown type " ++ quoted f.type.name))))
        ∷ field_errors fs
      else field_errors fs

  unfoldable pub base_errors : List TypeRef → List Text
  base_errors [] = []
  base_errors (b ∷ bs) =
      if not (known b.name)
      then (context ++ (lit ": base type " ++ (quoted b.name ++ lit " not found"))) ∷ base_errors bs
      else base_errors bs

  -- One reference that may be inline: an alternative, an element or a value.
  unfoldable pub ref_errors : Text → TypeRef → List Text
  ref_errors what r =
      if not r.is_inline && not (known r.name)
      then (context ++ (what ++ (quoted r.name ++ lit " not found"))) ∷ []
      else []

  unfoldable pub alternative_errors : List TypeRef → List Text
  unfolding ref_errors
  alternative_errors [] = []
  alternative_errors (r ∷ rs) = ref_errors (lit ": variant alternative ") r ++ alternative_errors rs

  unfoldable pub validate_type : SchemaType → List Text
  unfolding field_errors base_errors ref_errors alternative_errors
  validate_type (struct t) = field_errors t.fields ++ base_errors t.all_of_bases
  validate_type (variant t) = alternative_errors t.alternatives
  validate_type (array t) = ref_errors (lit ": array element type ") t.element_type
  validate_type (map_of t) = ref_errors (lit ": map value type ") t.value_type
  validate_type (enumeration t) = []
  validate_type (primitive t) = []

unfoldable pub validate_types : (Text → Bool) → Dict SchemaType → List Text
unfolding validate_type
validate_types known [] = []
validate_types known ((name, type) ∷ types) =
    validate_type known name type ++ validate_types known types

unfoldable pub validate : HashOrder → NormalizedAst → List Text
unfolding validate_types has_type
validate order ast = validate_types (has_type ast) (order.arrange ast.types)

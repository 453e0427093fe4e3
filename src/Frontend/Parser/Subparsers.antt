-- ===== src/Frontend/Parser/Subparsers.antt =====
-- generator/src/Frontend/SchemaParser.cpp: the sub-parsers, given what their loops find.
use siesta.Prelude.{Text, Bool, true, false, List, [], ◌∷◌, none, if◌then◌else◌, ◌||◌, ◌&&◌}
use siesta.Frontend.Ast.{
  TypeRef, PrimitiveKind, PrimitiveType, Member, StructType, VariantType, SchemaType, struct,
  variant, primitive,
}
use siesta.Frontend.CppTypes.{parse_integer_format, parse_number_format, parse_string_format}
use siesta.Frontend.Schema.{Kind, EnumJson, Head, Schemas, nil, cons, is_ref, is_given}
use siesta.Frontend.Parser.Fields.{Printing, ParseState, extract_type_ref}

abbrev pub plain_primitive : PrimitiveKind → Text → PrimitiveType
plain_primitive kind desc = record {
  kind = kind;
  int_format = none;
  num_format = none;
  str_format = none;
  enum_values = [];
  description = desc;
}

-- The enum values of a string schema are its strings; of an integer schema its integers too, printed.
unfoldable pub string_values : List EnumJson → List Text
string_values [] = []
string_values (EnumJson.string s ∷ vs) = s ∷ string_values vs
string_values (EnumJson.integer n ∷ vs) = string_values vs
string_values (EnumJson.other ∷ vs) = string_values vs

unfoldable pub integer_values : Printing → List EnumJson → List Text
integer_values std [] = []
integer_values std (EnumJson.string s ∷ vs) = s ∷ integer_values std vs
integer_values std (EnumJson.integer n ∷ vs) = std.int n ∷ integer_values std vs
integer_values std (EnumJson.other ∷ vs) = integer_values std vs

unfoldable pub parse_primitive_schema : Printing → Kind → Head → PrimitiveType
unfolding string_values integer_values parse_integer_format parse_number_format parse_string_format
parse_primitive_schema std Kind.string h =
    record (plain_primitive PrimitiveKind.string h.description) {
      str_format = parse_string_format h.format;
      enum_values = string_values h.enum;
    }
parse_primitive_schema std Kind.integer h =
    record (plain_primitive PrimitiveKind.integer h.description) {
      int_format = parse_integer_format h.format;
      enum_values = integer_values std h.enum;
    }
parse_primitive_schema std Kind.number h =
    record (plain_primitive PrimitiveKind.number h.description) {
      num_format = parse_number_format h.format;
    }
parse_primitive_schema std Kind.boolean h = plain_primitive PrimitiveKind.boolean h.description
parse_primitive_schema std _ h = plain_primitive PrimitiveKind.string []

abbrev pub is_nil : Schemas → Bool
is_nil nil = true
is_nil (cons _ _) = false

-- The bases of an object schema: its references in `allOf`.
unfoldable pub ref_bases : Schemas → List TypeRef
unfolding extract_type_ref
ref_bases nil = []
ref_bases (cons s ss) =
    if is_ref s && is_given (extract_type_ref s).name
    then extract_type_ref s ∷ ref_bases ss
    else ref_bases ss

abbrev pub struct_named : Text → Text → List TypeRef → List Member → StructType
struct_named name desc bases fields = record {
  name = name;
  fields = fields;
  all_of_bases = bases;
  description = desc;
}

abbrev pub variant_named : Text → Text → List TypeRef → VariantType
variant_named name desc alternatives = record {
  name = name;
  alternatives = alternatives;
  is_nullable = false;
  discriminator_property = none;
  description = desc;
}

-- What the loops of the sub-parsers give: the alternatives of `oneOf` and `anyOf`, the bases of an object
-- schema, and the fields. The fields of an implicit object come after its bases, which may be written
-- in place.
pub record Parts : Type 0 where
  pub one_of : List TypeRef × ParseState
  pub any_of : List TypeRef × ParseState
  pub refs : List TypeRef
  pub fields : List Member × ParseState
  pub bases : List TypeRef × ParseState

abbrev pub as_variant : Text → Text → List TypeRef × ParseState → SchemaType × ParseState
as_variant name desc (alternatives, st) = (variant (variant_named name desc alternatives), st)

unfoldable pub parse_object_schema : Head → Text → Bool → Bool → Parts → SchemaType × ParseState
parse_object_schema h name has_oneof has_anyof p =
    if has_oneof || has_anyof
    then as_variant name h.description (if has_oneof then p.one_of else p.any_of)
    else (struct (struct_named name h.description p.refs p.fields.0), p.fields.1)

unfoldable pub parse_implicit_object : Head → Text → Parts → SchemaType × ParseState
parse_implicit_object h name p =
    (struct (struct_named name h.description p.bases.0 p.fields.0), p.fields.1)

unfoldable pub parse_unknown_schema :
    Head → Text → Bool → Bool → Parts → ParseState → SchemaType × ParseState
unfolding parse_implicit_object
parse_unknown_schema h name has_oneof has_anyof p st =
    if has_oneof
    then as_variant name h.description p.one_of
    else if has_anyof
    then as_variant name h.description p.any_of
    else if h.has_properties || h.has_all_of || h.has_additional_properties
    then parse_implicit_object h name p
    else (primitive (plain_primitive PrimitiveKind.string h.description), st)

-- The `switch` of `parseSchema`.
unfoldable pub dispatch :
    Printing → Kind → Head → Text → Bool → Bool → Parts → ParseState → SchemaType × ParseState
unfolding parse_object_schema parse_unknown_schema parse_primitive_schema
dispatch std Kind.object h name o a p st = parse_object_schema h name o a p
dispatch std Kind.unknown h name o a p st = parse_unknown_schema h name o a p st
dispatch std Kind.null h name o a p st =
    (primitive (plain_primitive PrimitiveKind.string h.description), st)
dispatch std kind h name o a p st = (primitive (parse_primitive_schema std kind h), st)

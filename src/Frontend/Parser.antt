-- ===== src/Frontend/Parser.antt =====
-- generator/src/Frontend/SchemaParser.cpp: from the schemas of a document to normalized types.
-- `Printing` is std::to_string. Each sub-parser takes what the recursive calls give for its parts; they
-- depend on one another through the state, which is passed on in the order of the source.
mod Fields
mod Subparsers
pub mod Resolution
unfoldable pub use Fields.{
  extract_type_ref, cpp_type_from_type_ref, add_once, field_type, element_type,
}
pub use Fields.*
unfoldable pub use Subparsers.{
  string_values, integer_values, parse_primitive_schema, ref_bases, parse_object_schema,
  parse_implicit_object, parse_unknown_schema, dispatch,
}
pub use Subparsers.*
use siesta.Prelude.{
  Text, lit, Bool, true, false, List, [], ◌∷◌, ◌++◌, none, if◌then◌else◌, length, not,
}
use siesta.Support.Sanitize.{sanitize}
use siesta.Frontend.Ast.{
  TypeRef, Member, SchemaType, struct, variant, map_of, enumeration, primitive, get_type_count,
}
use siesta.Frontend.Ast
use siesta.Frontend.CppTypes.{primitive_to_cpp}
use siesta.Frontend.Schema
use siesta.Frontend.Schema.{
  Kind, Head, JsonSchema, plain, Schemas, nil, cons, Properties, end, property, head, is_ref,
  is_given,
}

-- The name of the items of an array.
unfoldable pub element_name : Printing → Text → ParseState → Text
element_name std [] st = lit "ArrayEntry_" ++ std.nat (get_type_count st.ast)
element_name std (c ∷ s) st = (c ∷ s) ++ lit "_entry"

abbrev pub array_of : Text → TypeRef → SchemaType
array_of desc r = Ast.SchemaType.array (record { element_type = r; description = desc })

-- An array whose items are written in place: their type, parsed under their name.
unfoldable pub inline_array : Head → Text → SchemaType × ParseState → SchemaType × ParseState
unfolding element_type sanitize
inline_array h elem_name (t, st) =
    let (cpp, st') = element_type (sanitize elem_name) t st in
    (array_of h.description (record { name = cpp; is_inline = true }), st')

-- An alternative that is written in place, given its type: what it adds to the alternatives so far.
unfoldable pub alternative_of :
    Printing → Text → List TypeRef → SchemaType × ParseState → List TypeRef × ParseState
unfolding primitive_to_cpp cpp_type_from_type_ref add_once sanitize
alternative_of std name alts (primitive t, st) =
    (alts ++ record { name = cpp_of_primitive t; is_inline = true } ∷ [], st)
alternative_of std name alts (Ast.SchemaType.array t, st) =
    (alts ++ record { name = vector_of t.element_type; is_inline = true } ∷ [], st)
alternative_of std name alts (struct t, st) =
    let mangled = sanitize (name ++ (lit "_alt_" ++ std.nat (length alts))) in
    (alts ++ record { name = mangled; is_inline = true } ∷ [], add_once mangled t st)
alternative_of std name alts (variant t, st) = (alts ++ t.alternatives, st)
alternative_of std name alts (map_of t, st) =
    (alts ++ record { name = lit "std::string"; is_inline = true } ∷ [], st)
alternative_of std name alts (enumeration t, st) =
    (alts ++ record { name = lit "std::string"; is_inline = true } ∷ [], st)

-- A base that is written in place, given its type: only a struct is one.
unfoldable pub base_of : List TypeRef → SchemaType × ParseState → List TypeRef × ParseState
unfolding add_once sanitize
base_of bases (struct t, st) =
    let mangled = sanitize t.name in
    (bases ++ record { name = mangled; is_inline = false } ∷ [], add_once mangled t st)
base_of bases (_, st) = (bases, st)

abbrev pub member : Text → Text → TypeRef → Member
member prop_name desc type = record {
  name = sanitize prop_name;
  type = type;
  required = false;
  default_value = none;
  description = desc;
}

-- A property that is written in place, given its type.
unfoldable pub inline_member :
    Text → Text → JsonSchema → SchemaType × ParseState → Member × ParseState
unfolding field_type sanitize
inline_member name prop_name s (t, st) =
    let (cpp, st') = field_type (sanitize (name ++ (lit "_" ++ prop_name))) t st in
    (member prop_name (head s).description (record { name = cpp; is_inline = true }), st')

abbrev pub cons_member : Member → List Member × ParseState → List Member × ParseState
cons_member m (ms, st) = (m ∷ ms, st)

abbrev pub is_unknown : Kind → Bool
is_unknown Kind.unknown = true
is_unknown _ = false

module _ (std : Printing) where
  unfoldable mutual
    unfolding extract_type_ref

    pub parse_schema : JsonSchema → Text → ParseState → SchemaType × ParseState
    parse_schema (JsonSchema.array h items) name st =
        let elem_name = element_name std name st in
        let parsed = inline_array h elem_name (parse_schema items elem_name st) in
        if is_ref items then (array_of h.description (extract_type_ref items), st) else parsed
    parse_schema (plain kind h one_of any_of all_of props) name st =
        let bases = implicit_bases all_of name [] st in
        let parts : Parts = record {
          one_of = build_variant one_of name [] st;
          any_of = build_variant any_of name [] st;
          refs = ref_bases all_of;
          fields =
              parse_properties (is_unknown kind) props name
                (if is_unknown kind then bases.1 else st);
          bases = bases;
        } in
        dispatch std kind h name (not (is_nil one_of)) (not (is_nil any_of)) parts st

    -- The loop over the properties; an implicit object parses them under no name.
    pub parse_properties : Bool → Properties → Text → ParseState → List Member × ParseState
    parse_properties implicit end name st = ([], st)
    parse_properties implicit (property prop_name s props) name st =
        let by_ref = member prop_name (head s).description (extract_type_ref s) in
        let under = if implicit then [] else name ++ (lit "_" ++ prop_name) in
        let parsed = inline_member name prop_name s (parse_schema s under st) in
        let here = if is_ref s then (by_ref, st) else parsed in
        cons_member here.0 (parse_properties implicit props name here.1)

    -- The loop over the alternatives, with those so far.
    pub build_variant : Schemas → Text → List TypeRef → ParseState → List TypeRef × ParseState
    build_variant nil name alts st = (alts, st)
    build_variant (cons s ss) name alts st =
        let parsed = alternative_of std name alts (parse_schema s (name ++ lit "_inline") st) in
        let here =
          if is_given (extract_type_ref s).name
          then (alts ++ extract_type_ref s ∷ [], st)
          else parsed in
        build_variant ss name here.0 here.1

    -- The loop over `allOf` of an implicit object, with the bases so far.
    pub implicit_bases : Schemas → Text → List TypeRef → ParseState → List TypeRef × ParseState
    implicit_bases nil name bases st = (bases, st)
    implicit_bases (cons s ss) name bases st =
        let under = name ++ (lit "_base_" ++ std.nat (length bases)) in
        let parsed = base_of bases (parse_schema s under st) in
        let by_ref =
          if is_given (extract_type_ref s).name then bases ++ extract_type_ref s ∷ [] else bases in
        let here = if is_ref s then (by_ref, st) else parsed in implicit_bases ss name here.0 here.1

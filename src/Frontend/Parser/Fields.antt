-- ===== src/Frontend/Parser/Fields.antt =====
-- generator/src/Frontend/SchemaParser.cpp: references, and the C++ types of properties and items.
-- `Printing` is std::to_string.
use siesta.Prelude.{ℕ, ℤ, Text, lit, has, false, List, [], ◌∷◌, ◌++◌, none, some, if◌then◌else◌}
use siesta.Support.Names.{behind_last}
use siesta.Support.Sanitize.{sanitize}
use siesta.Frontend.Ast.{
  TypeRef, PrimitiveKind, PrimitiveType, ArrayType, MapType, EnumType, Member, StructType,
  VariantType, SchemaType, struct, variant, map_of, enumeration, primitive, NormalizedAst, add_type,
  get_type_count,
}
use siesta.Frontend.Ast
use siesta.Frontend.CppTypes.{primitive_to_cpp}
use siesta.Frontend.Schema.{JsonSchema, head, is_ref, is_given}

pub record Printing : Type 0 where
  pub nat : ℕ → Text
  pub int : ℤ → Text

pub record ParseState : Type 0 where
  pub ast : NormalizedAst
  pub added_types : List Text

abbrev pub no_ref : TypeRef
no_ref = record { name = []; is_inline = false }

-- The sanitized name behind the last slash; the empty reference if there is no slash.
unfoldable pub extract_type_ref : JsonSchema → TypeRef
unfolding behind_last sanitize
extract_type_ref s =
    if is_ref s
    then (elim (behind_last b'/' (head s).ref) [
      | some raw ↦ record { name = sanitize raw; is_inline = false }
      | none ↦ no_ref
    ])
    else no_ref

unfoldable pub cpp_type_from_type_ref : TypeRef → Text
cpp_type_from_type_ref r = if is_given r.name then r.name else lit "std::string"

abbrev pub vector_of : TypeRef → Text
vector_of r = lit "std::vector<" ++ (cpp_type_from_type_ref r ++ lit ">")

abbrev pub map_to : TypeRef → Text
map_to r = lit "std::map<std::string, " ++ (cpp_type_from_type_ref r ++ lit ">")

abbrev pub cpp_of_primitive : PrimitiveType → Text
cpp_of_primitive t = primitive_to_cpp t.kind t.int_format t.num_format

-- A struct is entered under its mangled name, unless a name was entered before.
unfoldable pub add_once : Text → StructType → ParseState → ParseState
unfolding add_type has
add_once mangled t st = if has mangled st.added_types then st else record {
  ast = add_type mangled (struct (record t { name = mangled })) st.ast;
  added_types = mangled ∷ st.added_types;
}

-- The C++ type of a property that is written in place, and the state with its struct.
unfoldable pub field_type : Text → SchemaType → ParseState → Text × ParseState
unfolding primitive_to_cpp cpp_type_from_type_ref add_once
field_type mangled (primitive t) st = (cpp_of_primitive t, st)
field_type mangled (Ast.SchemaType.array t) st = (vector_of t.element_type, st)
field_type mangled (map_of t) st = (map_to t.value_type, st)
field_type mangled (struct t) st = (mangled, add_once mangled t st)
field_type mangled (variant t) st = (lit "std::string", st)
field_type mangled (enumeration t) st = (lit "std::string", st)

-- The same for the items of an array.
unfoldable pub element_type : Text → SchemaType → ParseState → Text × ParseState
unfolding primitive_to_cpp add_once
element_type mangled (primitive t) st = (cpp_of_primitive t, st)
element_type mangled (struct t) st = (mangled, add_once mangled t st)
element_type mangled _ st = (lit "std::string", st)

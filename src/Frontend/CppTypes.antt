-- ===== src/Frontend/CppTypes.antt =====
-- The C++ types of primitive schemas: `primitiveToCpp` of generator/src/Support/Utils.cpp, the formats of
-- generator/src/Frontend/SchemaParser.cpp and the kinds of generator/src/Frontend/openapi.cpp.
use siesta.Prelude.{Text, lit, text_eq, Option, none, some, if◌then◌else◌, ◌||◌}
use siesta.Frontend.Ast.{
  PrimitiveKind, string, integer, number, boolean, null, IntegerFormat, int32, int64, uint32,
  uint64, NumberFormat, float, double, StringFormat, date, date_time, email, uuid, uri, base64,
}

unfoldable pub primitive_to_cpp : PrimitiveKind → Option IntegerFormat → Option NumberFormat → Text
primitive_to_cpp string fmt num_fmt = lit "std::string"
primitive_to_cpp integer none num_fmt = lit "int32_t"
primitive_to_cpp integer (some int64) num_fmt = lit "int64_t"
primitive_to_cpp integer (some uint64) num_fmt = lit "uint64_t"
primitive_to_cpp integer (some uint32) num_fmt = lit "uint32_t"
primitive_to_cpp integer (some int32) num_fmt = lit "int32_t"
primitive_to_cpp number fmt (some double) = lit "double"
primitive_to_cpp number fmt (some float) = lit "float"
primitive_to_cpp number fmt none = lit "float"
primitive_to_cpp boolean fmt num_fmt = lit "bool"
primitive_to_cpp null fmt num_fmt = lit "std::nullptr_t"

unfoldable pub parse_integer_format : Text → Option IntegerFormat
unfolding text_eq
parse_integer_format format =
    if text_eq format (lit "int32")
    then some int32
    else if text_eq format (lit "int64")
    then some int64
    else if text_eq format (lit "uint32")
    then some uint32
    else if text_eq format (lit "uint64")
    then some uint64
    else none

unfoldable pub parse_number_format : Text → Option NumberFormat
unfolding text_eq
parse_number_format format =
    if text_eq format (lit "float")
    then some float
    else if text_eq format (lit "double")
    then some double
    else none

unfoldable pub parse_string_format : Text → Option StringFormat
unfolding text_eq
parse_string_format format =
    if text_eq format (lit "date")
    then some date
    else if text_eq format (lit "date-time")
    then some date_time
    else if text_eq format (lit "email")
    then some email
    else if text_eq format (lit "uuid")
    then some uuid
    else if text_eq format (lit "uri")
    then some uri
    else if text_eq format (lit "byte") || text_eq format (lit "base64")
    then some base64
    else none

-- ===== src/Ir/Endpoint.antt =====
-- generator/src/IR/EndpointIR.hpp: parameters and endpoints, and the helpers that name them. Schemas and
-- parameters are the values of their accessors, which the documents here let them read.
pub mod Template
pub mod Collect
pub mod Build
pub mod Groups
pub mod Order
pub mod Paths
use siesta.Prelude.{
  ℕ, ◌+◌, Text, lit, text_eq, has, Bool, true, false, List, [], ◌∷◌, ◌++◌, Option, none, some,
  if◌then◌else◌, ◌==◌, ◌&&◌, ◌||◌, any_of, map, Dict, find, leb,
}
use siesta.Support.Names.{component_path, starts_with}
use siesta.Frontend.Schema.{is_given}

pub record ClientParam : Type 0 where
  pub name : Text
  pub wire_name : Text
  pub cpp_type : Text
  pub required : Bool
  pub description : Text
  pub location : Text
  pub schema_type : Text
  pub format : Text
  pub is_string_type : Bool
  pub is_vector_type : Bool
  pub is_vector_string_type : Bool

pub data AuthType : Type 0 where
  no_auth api_key http_bearer : AuthType

pub record AuthInfo : Type 0 where
  pub type : AuthType
  pub name : Text

pub record Endpoint : Type 0 where
  pub method : Text
  pub path : Text
  pub path_template : Text
  pub function_name : Text
  pub summary : Text
  pub description : Text
  pub cpp_verb : Text
  pub params : List ClientParam
  pub has_request_body : Bool
  pub body_type : Text
  pub body_content_type : Text
  pub auth_type : AuthType
  pub auth_header_name : Text

-- The name for the first endpoint that is secured.
unfoldable pub detect_auth : List Endpoint → AuthInfo
detect_auth [] = record { type = AuthType.no_auth; name = [] }
detect_auth (ep ∷ eps) = elim ep.auth_type [
  | no_auth ↦ detect_auth eps
  | api_key ↦ record { type = AuthType.api_key; name = lit "api_key" }
  | http_bearer ↦ record { type = AuthType.http_bearer; name = lit "bearer_token" }
]

abbrev pub avoided_names : List Text
avoided_names = map lit (
    "token" ∷ "result" ∷ "error" ∷ "next" ∷ "type" ∷ "metadata" ∷ "include" ∷ "order"
    ∷ "event_types" ∷ [])

abbrev pub is_bracket : ℕ → Bool
is_bracket c = any_of (λ d. c == d) (lit "[](){}.,")

unfoldable pub replace_brackets : Text → Text
replace_brackets [] = []
replace_brackets (c ∷ s) = (if is_bracket c then b'_' else c) ∷ replace_brackets s

unfoldable pub sanitize_param_name : Text → Text
unfolding has replace_brackets
sanitize_param_name name =
    replace_brackets (if has name avoided_names then lit "param_" ++ name else name)

abbrev pub supported_methods : List Text
supported_methods = map lit ("get" ∷ "post" ∷ "put" ∷ "delete" ∷ "patch" ∷ "head" ∷ "options" ∷ [])

unfoldable pub is_supported_method : Text → Bool
unfolding has
is_supported_method method = has method supported_methods

-- The bytes that separate the parts of a path.
abbrev pub is_separator : ℕ → Bool
is_separator c = any_of (λ d. c == d) (lit "/{}:-")

-- The loop over the path; the flag is true until a byte is copied, which is one that separates nothing.
unfoldable pub name_of_path : Bool → Text → Text
name_of_path first_char [] = []
name_of_path first_char (c ∷ path) =
    let rest = name_of_path (first_char && is_separator c) path in
    if c == b'/'
    then (if first_char then rest else b'_' ∷ rest)
    else if c == b'{'
    then b'_' ∷ rest
    else if c == b'}'
    then rest
    else if c == b':' || c == b'-'
    then b'_' ∷ rest
    else c ∷ rest

unfoldable pub generate_function_name : Text → Text → Text
unfolding name_of_path
generate_function_name method path = method ++ (lit "__" ++ name_of_path true path)

-- What is read of a schema here.
pub record SchemaView : Type 0 where
  pub ref : Text
  pub type : Text
  pub format : Text

unfoldable pub integer_type : Text → Text
unfolding text_eq
integer_type f =
    if text_eq f (lit "int32")
    then lit "int32_t"
    else if text_eq f (lit "uint32")
    then lit "uint32_t"
    else if text_eq f (lit "uint64")
    then lit "uint64_t"
    else lit "int64_t"

unfoldable pub schema_to_cpp_type : SchemaView → Text
unfolding component_path text_eq integer_type
schema_to_cpp_type s =
    if is_given s.ref
    then component_path s.ref
    else if text_eq s.type (lit "string")
    then lit "std::string"
    else if text_eq s.type (lit "integer")
    then integer_type s.format
    else if text_eq s.type (lit "number")
    then (if text_eq s.format (lit "float") then lit "float" else lit "double")
    else if text_eq s.type (lit "boolean")
    then lit "bool"
    else if text_eq s.type (lit "array")
    then lit "std::vector<boost::json::value>"
    else lit "std::string"

-- s.find(part) != npos
unfoldable pub has_part : Text → Text → Bool
unfolding starts_with
has_part part [] = starts_with part []
has_part part (c ∷ s) = starts_with part (c ∷ s) || has_part part s

-- A parameter of a document.
pub record ParamDoc : Type 0 where
  pub ref : Text
  pub name : Text
  pub location : Text
  pub required : Bool
  pub description : Text
  pub schema : SchemaView

unfoldable pub inline_parameter : ParamDoc → ClientParam
unfolding schema_to_cpp_type has_part
inline_parameter p =
    let cpp = schema_to_cpp_type p.schema in
    record {
      name = p.name;
      wire_name = p.name;
      cpp_type = cpp;
      required = p.required;
      description = p.description;
      location = p.location;
      schema_type = p.schema.type;
      format = p.schema.format;
      is_string_type = has_part (lit "string") cpp;
      is_vector_type = has_part (lit "vector") cpp;
      is_vector_string_type = has_part (lit "vector") cpp && has_part (lit "string") cpp;
    }

-- A reference is looked up among the components; one that is not there is read in place.
unfoldable pub resolve_parameter : ParamDoc → Dict ClientParam → ClientParam
unfolding component_path find inline_parameter
resolve_parameter p fetched =
    if is_given p.ref
    then (elim (find (component_path p.ref) fetched) [ some cp ↦ cp | none ↦ inline_parameter p ])
    else inline_parameter p

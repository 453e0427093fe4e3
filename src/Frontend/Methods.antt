-- ===== src/Frontend/Methods.antt =====
-- generator/src/Frontend/openapi.hpp, openapi.cpp: request methods and their names.
pub mod Parsing
use siesta.Prelude.{
  ℕ, ◌+◌, Text, lit, text_eq, Bool, true, false, List, [], ◌∷◌, ◌++◌, if◌then◌else◌, ◌==◌, ◌&&◌,
  ◌||◌, leb,
}
use siesta.Support.Sanitize.{sanitize}

pub data RequestMethod : Type 0 where
  post put get delete patch head connect options trace unknown : RequestMethod

abbrev pub lower_case : ℕ → ℕ
lower_case c = if leb b'A' c && leb c b'Z' then c + 32 else c

-- `0 == strncasecmp(key.data(), name, key.size())`: at most as many bytes as the key has are compared,
-- and none behind a byte 0 in both. The name has none but the one that ends it.
unfoldable pub same_prefix : Text → Text → Bool
same_prefix [] name = true
same_prefix (c ∷ key) [] = c == 0
same_prefix (c ∷ key) (m ∷ name) = lower_case c == lower_case m && same_prefix key name

unfoldable pub request_method_from_string : Text → RequestMethod
unfolding same_prefix
request_method_from_string key =
    if same_prefix key (lit "POST")
    then post
    else if same_prefix key (lit "PUT")
    then put
    else if same_prefix key (lit "GET")
    then get
    else if same_prefix key (lit "DELETE")
    then delete
    else if same_prefix key (lit "PATCH")
    then patch
    else if same_prefix key (lit "HEAD")
    then head
    else if same_prefix key (lit "CONNECT")
    then connect
    else if same_prefix key (lit "OPTIONS")
    then options
    else if same_prefix key (lit "TRACE")
    then trace
    else unknown

unfoldable pub request_method_to_string : RequestMethod → Text
request_method_to_string post = lit "post"
request_method_to_string put = lit "put"
request_method_to_string get = lit "get"
request_method_to_string delete = lit "delete"
request_method_to_string patch = lit "patch"
request_method_to_string head = lit "head"
request_method_to_string connect = lit "connect"
request_method_to_string options = lit "options"
request_method_to_string trace = lit "trace"
request_method_to_string unknown = lit "unknown"

unfoldable pub json_type_to_cpp_type : Text → Text → Text
unfolding text_eq
json_type_to_cpp_type type format =
    if text_eq type (lit "string")
    then lit "std::string"
    else if text_eq type (lit "number")
    then (if text_eq format (lit "double") then lit "double" else lit "float")
    else if text_eq type (lit "boolean")
    then lit "bool"
    else if text_eq type (lit "integer")
    then (if text_eq format (lit "int64") then lit "int64_t" else lit "int32_t")
    else lit "boost::json::value"

unfoldable pub replace_braces : Text → Text
replace_braces [] = []
replace_braces (c ∷ s) = (if c == b'{' || c == b'}' then b'_' else c) ∷ replace_braces s

unfoldable pub synthesize_function_name : Text → RequestMethod → Text
unfolding sanitize replace_braces request_method_to_string
synthesize_function_name path verb =
    request_method_to_string verb ++ (lit "_" ++ replace_braces (sanitize path))

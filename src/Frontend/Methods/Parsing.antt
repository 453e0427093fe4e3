-- ===== src/Frontend/Methods/Parsing.antt =====
-- Reading the names of request methods.
use siesta.Prelude.{Text, lit, true, [], ◌∷◌, ◌++◌, ◌≡◌, refl, arith}
use siesta.Frontend.Methods.{
  RequestMethod, post, put, get, delete, patch, head, connect, options, trace, unknown, same_prefix,
  request_method_from_string, request_method_to_string,
}

-- Every method, the unknown one too, is read back from its name.
pub request_method_from_string-to_string :
    (m : RequestMethod) → request_method_from_string (request_method_to_string m) ≡ m
unfolding request_method_from_string request_method_to_string same_prefix
request_method_from_string-to_string post = refl
request_method_from_string-to_string put = refl
request_method_from_string-to_string get = refl
request_method_from_string-to_string delete = refl
request_method_from_string-to_string patch = refl
request_method_from_string-to_string head = refl
request_method_from_string-to_string connect = refl
request_method_from_string-to_string options = refl
request_method_from_string-to_string trace = refl
request_method_from_string-to_string unknown = refl

same_prefix-append :
    (key more name : Text) → same_prefix (key ++ more) name ≡ true → same_prefix key name ≡ true
unfolding same_prefix
same_prefix-append [] more name h = refl
same_prefix-append (c ∷ key) more [] h = h
same_prefix-append (c ∷ key) more (m ∷ name) h = ground (arith, same_prefix-append key more name)

-- A key that is read as unknown stays unknown with any bytes behind it: the beginnings of a method's name,
-- the empty one included, are all read as methods.
pub request_method_from_string-prefix :
    (key more : Text)
    → request_method_from_string key ≡ unknown
    → request_method_from_string (key ++ more) ≡ unknown
unfolding request_method_from_string
request_method_from_string-prefix key more h = ground (
  arith,
  same_prefix-append key more (lit "POST"),
  same_prefix-append key more (lit "PUT"),
  same_prefix-append key more (lit "GET"),
  same_prefix-append key more (lit "DELETE"),
  same_prefix-append key more (lit "PATCH"),
  same_prefix-append key more (lit "HEAD"),
  same_prefix-append key more (lit "CONNECT"),
  same_prefix-append key more (lit "OPTIONS"),
  same_prefix-append key more (lit "TRACE"),
)

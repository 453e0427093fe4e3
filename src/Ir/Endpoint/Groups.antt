-- ===== src/Ir/Endpoint/Groups.antt =====
-- generator/src/IR/EndpointIR.cpp: the endpoints of a document, one for each operation of a supported
-- method, and the parameters of each.
use siesta.Prelude.{
  Text, lit, text_eq, true, false, List, [], ◌∷◌, ◌++◌, Option, none, some, if◌then◌else◌, map,
  Dict, find, keys, count, ◌≡◌,
}
use siesta.Frontend.Ast.{is_some}
use siesta.Ir.Endpoint.{ClientParam, Endpoint, is_supported_method}
use siesta.Ir.Endpoint.Collect.{ColOp}
use siesta.Ir.Endpoint.Build.{renamed, Tables, to_lower}
use siesta.Ir.Endpoint.Order.{last_named}

-- The parameters of a table that are at a location, in the table's order.
abbrev pub at_location : Text → Dict ClientParam → List ClientParam
at_location location [] = []
at_location location ((_, p) ∷ d) =
    if text_eq p.location location then p ∷ at_location location d else at_location location d

-- Each name that the paths or the operation have a parameter for, once, with the operation's last parameter
-- of the name, or else the paths'.
pub record IsMerged (from_paths : Dict ClientParam) (op_params : List ClientParam)
    (merged : Dict ClientParam) : Type 0 where
  pub once :
      (x : Text)
      → count x (keys merged)
        ≡ (if is_some (last_named x op_params (find x from_paths)) then 1 else 0)
  pub found : (x : Text) → find x merged ≡ last_named x op_params (find x from_paths)

-- All merged parameters in the path, then all in the query, then all in headers, and no others.
pub record IsGrouped (from_paths : Dict ClientParam) (op_params params : List ClientParam)
    : Type 0 where
  pub merged : Dict ClientParam
  pub is_merged : IsMerged from_paths op_params merged
  pub grouped :
      params
      ≡ map renamed (
          at_location (lit "path") merged
          ++ (at_location (lit "query") merged ++ at_location (lit "header") merged))

abbrev put_found : Option ClientParam → Text → Dict ClientParam → Dict ClientParam
put_found none name d = d
put_found (some p) name d = (name, p) ∷ d

abbrev found_in : (Text → Option ClientParam) → List Text → Dict ClientParam
found_in f [] = []
found_in f (name ∷ names) = put_found (f name) name (found_in f names)

-- The endpoint of an operation.
pub record IsEndpoint (t : Tables) (co : ColOp) (e : Endpoint) : Type 0 where
  pub method : e.method ≡ to_lower co.method
  pub path : e.path ≡ co.path
  pub params : IsGrouped t.from_paths co.op_params e.params

-- One endpoint for each operation whose method, in small letters, is supported, in their order.
pub data Builds (t : Tables) : List ColOp → List Endpoint → Type 0 where
  no_more : Builds t [] []
  passed_over :
      {co : ColOp} {cos : List ColOp} {es : List Endpoint}
      → is_supported_method (to_lower co.method) ≡ false
      → Builds t cos es
      → Builds t (co ∷ cos) es
  built :
      {co : ColOp} {cos : List ColOp} {e : Endpoint} {es : List Endpoint}
      → is_supported_method (to_lower co.method) ≡ true
      → IsEndpoint t co e
      → Builds t cos es
      → Builds t (co ∷ cos) (e ∷ es)

-- ===== src/Ir/Endpoint/Build.antt =====
-- generator/src/IR/EndpointIR.cpp: the second loop of `parseEndpoints`, from what was collected to
-- endpoints.
use siesta.Prelude.{
  ℕ, ◌+◌, Text, lit, text_eq, Bool, true, false, List, [], ◌∷◌, ◌++◌, Option, none, some,
  if◌then◌else◌, ◌&&◌, ◌||◌, not, leb, Dict, find, assign, keys, HashOrder, map,
}
use siesta.Frontend.Ast.{is_some}
use siesta.Ir.Endpoint.{
  ClientParam, AuthType, Endpoint, ParamDoc, SchemaView, sanitize_param_name, is_supported_method,
  generate_function_name,
}
use siesta.Ir.Endpoint.Template.{path_template}
use siesta.Ir.Endpoint.Collect.{
  ColOp, Body, no_body, of_ref, of_type, PathDoc, SchemeDoc, fetch_params, body_schema_names,
  security_schemes, path_params, collect,
}

-- tolower on each byte
abbrev pub lower : ℕ → ℕ
lower c = if leb b'A' c && leb c b'Z' then c + 32 else c

unfoldable pub to_lower : Text → Text
to_lower [] = []
to_lower (c ∷ s) = lower c ∷ to_lower s

pub record Merge : Type 0 where
  pub overrides : Dict ClientParam
  pub param_order : List Text

-- The loop over the operation's parameters: a name that is new goes to the end of the order.
unfoldable pub merge_params : Dict ClientParam → List ClientParam → Merge → Merge
unfolding find assign
merge_params from_paths [] m = m
merge_params from_paths (p ∷ ps) m = merge_params from_paths ps (record {
  overrides = assign p.name p m.overrides;
  param_order =
      if not (is_some (find p.name from_paths)) && not (is_some (find p.name m.overrides))
      then m.param_order ++ p.name ∷ []
      else m.param_order;
})

-- The parameter of a name: the operation's, or else the path's.
unfoldable pub lookup : Dict ClientParam → Dict ClientParam → Text → Option ClientParam
unfolding find
lookup overrides from_paths name = elim (find name overrides) [
  | some cp ↦ some cp
  | none ↦ find name from_paths
]

-- One of the three loops over the order. A name that is in neither map, at which the source throws,
-- is passed over.
unfoldable pub located : (Text → Option ClientParam) → Text → List Text → List ClientParam
unfolding text_eq
located find_param location [] = []
located find_param location (name ∷ names) =
    let rest = located find_param location names in
    elim (find_param name) [
      | some cp ↦ if text_eq cp.location location then cp ∷ rest else rest
      | none ↦ rest
    ]

abbrev pub renamed : ClientParam → ClientParam
renamed p = record p { name = sanitize_param_name p.name }

abbrev pub initial_merge : HashOrder → Dict ClientParam → Merge
initial_merge order from_paths = record {
  overrides = [];
  param_order = keys (order.arrange from_paths);
}

unfoldable pub ordered_params : HashOrder → Dict ClientParam → List ClientParam → List ClientParam
unfolding merge_params lookup located sanitize_param_name
ordered_params order from_paths op_params =
    let m = merge_params from_paths op_params (initial_merge order from_paths) in
    let find_param = lookup m.overrides from_paths in
    map renamed (
      located find_param (lit "path") m.param_order
      ++ (located find_param (lit "query") m.param_order
          ++ located find_param (lit "header") m.param_order))

-- Whether there is a body, its type, and its content type.
unfoldable pub endpoint_body : Dict Text → Body → Bool × Text × Text
unfolding find
endpoint_body names no_body = (false, [], [])
endpoint_body names (of_ref ref) = elim (find ref names) [
  | some t ↦ (true, t, [])
  | none ↦ (false, [], [])
]
endpoint_body names (of_type ct t) = (true, t, ct)

-- The first scheme in the order of the table.
unfoldable pub scheme_auth : Dict SchemeDoc → AuthType × Text
unfolding text_eq
scheme_auth [] = (AuthType.no_auth, [])
scheme_auth ((_, s) ∷ schemes) =
    if text_eq s.type (lit "apiKey") && text_eq s.location (lit "header")
    then (AuthType.api_key, s.name)
    else if text_eq s.type (lit "http") && text_eq s.scheme (lit "bearer")
    then (AuthType.http_bearer, lit "Authorization")
    else (AuthType.no_auth, [])

unfoldable pub endpoint_auth : HashOrder → Bool → Dict SchemeDoc → Bool → AuthType × Text
unfolding scheme_auth
endpoint_auth order global schemes has_security =
    if has_security || not has_security && global
    then scheme_auth (order.arrange schemes)
    else (AuthType.no_auth, [])

-- The tables that the document gives.
pub record Tables : Type 0 where
  pub from_paths : Dict ClientParam
  pub bodies : Dict Text
  pub schemes : Dict SchemeDoc
  pub global_security : Bool

unfoldable pub build_endpoint : HashOrder → Tables → ColOp → Endpoint
unfolding ordered_params generate_function_name endpoint_body endpoint_auth path_template to_lower
build_endpoint order t co =
    let method = to_lower co.method in
    let params = ordered_params order t.from_paths co.op_params in
    let (has_body, body_type, content_type) = endpoint_body t.bodies co.body in
    let (auth, auth_header) = endpoint_auth order t.global_security t.schemes co.has_security in
    record {
      method = method;
      path = co.path;
      path_template = path_template params co.path;
      function_name = generate_function_name method co.path;
      summary = co.summary;
      description = co.description;
      cpp_verb = if text_eq method (lit "delete") then lit "delete_" else method;
      params = params;
      has_request_body = has_body;
      body_type = body_type;
      body_content_type = content_type;
      auth_type = auth;
      auth_header_name = auth_header;
    }

unfoldable pub build_endpoints : HashOrder → Tables → List ColOp → List Endpoint
unfolding is_supported_method build_endpoint to_lower
build_endpoints order t [] = []
build_endpoints order t (co ∷ cos) =
    let rest = build_endpoints order t cos in
    if is_supported_method (to_lower co.method) then build_endpoint order t co ∷ rest else rest

-- The parts of a document that are read.
pub record SpecDoc : Type 0 where
  pub parameters : List (Text × ParamDoc)
  pub request_bodies : List (Text × List (Text × SchemaView))
  pub security : List (Text × SchemeDoc)
  pub has_global_security : Bool
  pub paths : List PathDoc

abbrev pub document_tables : SpecDoc → Tables
document_tables spec = record {
  from_paths = path_params (fetch_params spec.parameters []) spec.paths [];
  bodies = body_schema_names spec.request_bodies [];
  schemes = security_schemes spec.security [];
  global_security = spec.has_global_security;
}

unfoldable pub parse_endpoints : HashOrder → SpecDoc → List Endpoint
unfolding fetch_params body_schema_names security_schemes path_params collect build_endpoints
parse_endpoints order spec =
    build_endpoints order (document_tables spec)
      (collect (fetch_params spec.parameters []) spec.paths)

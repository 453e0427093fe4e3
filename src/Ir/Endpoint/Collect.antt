-- ===== src/Ir/Endpoint/Collect.antt =====
-- generator/src/IR/EndpointIR.cpp: what `parseEndpoints` takes from the document before it builds
-- endpoints.
use siesta.Prelude.{
  Text, lit, text_eq, Bool, false, List, [], ◌∷◌, ◌++◌, Option, none, some, if◌then◌else◌, Dict,
  assign,
}
use siesta.Support.Names.{component_path}
use siesta.Frontend.Schema.{is_given}
use siesta.Ir.Endpoint.{ClientParam, SchemaView, ParamDoc, schema_to_cpp_type, resolve_parameter}

-- A request body: a reference, or its content types with their schemas. `operator bool` of a schema says
-- whether it is there.
pub data BodyDoc : Type 0 where
  body_ref : Text → BodyDoc
  body_content : List (Text × Option SchemaView) → BodyDoc

pub record OperationDoc : Type 0 where
  pub summary : Text
  pub description : Text
  pub operation_id : Text
  pub parameters : List ParamDoc
  pub body : Option BodyDoc
  pub has_security : Bool

pub record PathDoc : Type 0 where
  pub path : Text
  pub parameters : List ParamDoc
  pub operations : List (Text × OperationDoc)

-- A parameter among the components. The flags of its type are left as they are.
unfoldable pub fetched_param : ParamDoc → ClientParam
unfolding schema_to_cpp_type
fetched_param p = record {
  name = p.name;
  wire_name = p.name;
  cpp_type = schema_to_cpp_type p.schema;
  required = p.required;
  description = p.description;
  location = p.location;
  schema_type = p.schema.type;
  format = p.schema.format;
  is_string_type = false;
  is_vector_type = false;
  is_vector_string_type = false;
}

unfoldable pub fetch_params : List (Text × ParamDoc) → Dict ClientParam → Dict ClientParam
unfolding fetched_param assign
fetch_params [] fetched = fetched
fetch_params ((n, p) ∷ ps) fetched = fetch_params ps (assign n (fetched_param p) fetched)

abbrev pub body_name : SchemaView → Text
body_name s = if is_given s.ref then component_path s.ref else schema_to_cpp_type s

-- The bodies among the components: the name of the first content type's schema, if there is one.
unfoldable pub body_schema_names : List (Text × List (Text × SchemaView)) → Dict Text → Dict Text
unfolding assign component_path schema_to_cpp_type
body_schema_names [] names = names
body_schema_names ((n, []) ∷ bs) names = body_schema_names bs names
body_schema_names ((n, (ct, s) ∷ content) ∷ bs) names =
    body_schema_names bs (assign n (body_name s) names)

pub record SchemeDoc : Type 0 where
  pub type : Text
  pub name : Text
  pub location : Text
  pub scheme : Text

-- What is kept of a scheme depends on its type.
unfoldable pub scheme_info : SchemeDoc → SchemeDoc
unfolding text_eq
scheme_info s =
    if text_eq s.type (lit "apiKey")
    then record { type = s.type; name = s.name; location = s.location; scheme = [] }
    else if text_eq s.type (lit "http")
    then record { type = s.type; name = []; location = []; scheme = s.scheme }
    else record { type = s.type; name = []; location = []; scheme = [] }

unfoldable pub security_schemes : List (Text × SchemeDoc) → Dict SchemeDoc → Dict SchemeDoc
unfolding assign scheme_info
security_schemes [] schemes = schemes
security_schemes ((n, s) ∷ ss) schemes = security_schemes ss (assign n (scheme_info s) schemes)

-- ColOp: what is kept of an operation. A body that is no reference has its content type and its type.
pub data Body : Type 0 where
  no_body : Body
  of_ref : Text → Body
  of_type : (content_type type : Text) → Body

pub record ColOp : Type 0 where
  pub path : Text
  pub method : Text
  pub summary : Text
  pub description : Text
  pub op_params : List ClientParam
  pub body : Body
  pub has_security : Bool

abbrev pub or_string : Text → Text
or_string t = if is_given t then t else lit "std::string"

unfoldable pub collect_body : Option BodyDoc → Body
unfolding component_path schema_to_cpp_type
collect_body none = no_body
collect_body (some (body_ref ref)) = of_ref (component_path ref)
collect_body (some (body_content [])) = of_type [] []
collect_body (some (body_content ((ct, none) ∷ content))) = of_type ct (lit "std::string")
collect_body (some (body_content ((ct, some s) ∷ content))) =
    of_type ct (or_string (schema_to_cpp_type s))

unfoldable pub resolve_all : List ParamDoc → Dict ClientParam → List ClientParam
unfolding resolve_parameter
resolve_all [] fetched = []
resolve_all (p ∷ ps) fetched = resolve_parameter p fetched ∷ resolve_all ps fetched

unfoldable pub collect_operations :
    Dict ClientParam → Text → List (Text × OperationDoc) → List ColOp
unfolding resolve_all collect_body
collect_operations fetched path [] = []
collect_operations fetched path ((method, op) ∷ ops) =
    record {
      path = path;
      method = method;
      summary = op.summary;
      description = op.description;
      op_params = resolve_all op.parameters fetched;
      body = collect_body op.body;
      has_security = op.has_security;
    }
    ∷ collect_operations fetched path ops

-- `path_params_map[cp.name] = cp` for each parameter of a path.
unfoldable pub add_path_params : List ClientParam → Dict ClientParam → Dict ClientParam
unfolding assign
add_path_params [] m = m
add_path_params (p ∷ ps) m = add_path_params ps (assign p.name p m)

-- The loop over the paths. One map takes the parameters of all paths, and nothing is taken out of it.
unfoldable pub path_params : Dict ClientParam → List PathDoc → Dict ClientParam → Dict ClientParam
unfolding add_path_params resolve_all
path_params fetched [] m = m
path_params fetched (p ∷ ps) m =
    path_params fetched ps (add_path_params (resolve_all p.parameters fetched) m)

unfoldable pub collect : Dict ClientParam → List PathDoc → List ColOp
unfolding collect_operations
collect fetched [] = []
collect fetched (p ∷ ps) = collect_operations fetched p.path p.operations ++ collect fetched ps

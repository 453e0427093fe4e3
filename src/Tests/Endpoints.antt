-- ===== src/Tests/Endpoints.antt =====
-- generator/src/IR/EndpointIR.cpp and Driver.cpp on a path with two parameters.
use siesta.Prelude.{
  ◌≤◌, Text, lit, text_eq, true, false, List, [], ◌∷◌, ◌++◌, none, some, if◌then◌else◌, keys, find,
  count, as_listed, ◌≡◌, refl, arith,
}
use siesta.Frontend.Ast.{empty_ast, is_some}
use siesta.Frontend.Methods.{unknown, patch, request_method_from_string, request_method_to_string}
use siesta.Frontend.Methods.Parsing.{
  request_method_from_string-to_string, request_method_from_string-prefix,
}
use siesta.Ir.Endpoint.{
  ClientParam, SchemaView, ParamDoc, is_bracket, sanitize_param_name, generate_function_name,
  is_separator,
}
use siesta.Ir.Endpoint.Template.{path_template}
use siesta.Ir.Endpoint.Paths.{Piece, byte, hole, show, IsName, erase_all, path_template-show}
use siesta.Ir.Endpoint.Collect.{PathDoc, OperationDoc}
use siesta.Ir.Endpoint.Build.{SpecDoc, parse_endpoints, merge_params, initial_merge, lookup}
use siesta.Ir.Endpoint.Order.{last_named, merge_params-lookup}
use siesta.Ir.Graph.{build_from_ast}
use siesta.Driver.{build_ast, Outcome, both, generate, mode_endpoints, parse_paths}
use siesta.Driver.Paths.{OneOperation, parse_paths-OneOperation}
use siesta.Driver.Results.{IsEnd, generate-IsEnd}
use siesta.Tests.Schemas.{unary, document, document-EachScoped}

abbrev id_doc : ParamDoc
id_doc = record {
  ref = [];
  name = lit "id";
  location = lit "path";
  required = true;
  description = [];
  schema = record { ref = []; type = lit "string"; format = [] };
}

abbrev id_param : ClientParam
id_param = record {
  name = lit "id";
  wire_name = lit "id";
  cpp_type = lit "std::string";
  required = true;
  description = [];
  location = lit "path";
  schema_type = lit "string";
  format = [];
  is_string_type = true;
  is_vector_type = false;
  is_vector_string_type = false;
}

abbrev read_pet : OperationDoc
read_pet = record {
  summary = [];
  description = [];
  operation_id = lit "readPet";
  parameters = id_doc ∷ [];
  body = none;
  has_security = false;
}

-- A path with two operations.
abbrev pet_path : PathDoc
pet_path = record {
  path = lit "/pets/{id}";
  parameters = [];
  operations = (lit "get", read_pet) ∷ (lit "DELETE", read_pet) ∷ [];
}

abbrev pet_spec : SpecDoc
pet_spec = record {
  parameters = [];
  request_bodies = [];
  security = [];
  has_global_security = false;
  paths = pet_path ∷ [];
}

id_table : (y : Text) → count y (keys ((lit "id", id_param) ∷ [])) ≤ 1
unfolding count
id_table y = ground arith

merge_params-lookup_example :
    (count
        (lit "id")
        (merge_params
          ((lit "id", id_param) ∷ [])
          (id_param ∷ [])
          (initial_merge as_listed ((lit "id", id_param) ∷ []))).param_order
      ≡ (if is_some
            (last_named (lit "id") (id_param ∷ []) (find (lit "id") ((lit "id", id_param) ∷ [])))
          then 1
          else 0))
    × (lookup
          (merge_params
            ((lit "id", id_param) ∷ [])
            (id_param ∷ [])
            (initial_merge as_listed ((lit "id", id_param) ∷ []))).overrides
          ((lit "id", id_param) ∷ [])
          (lit "id")
        ≡ last_named (lit "id") (id_param ∷ []) (find (lit "id") ((lit "id", id_param) ∷ [])))
merge_params-lookup_example =
    merge_params-lookup as_listed ((lit "id", id_param) ∷ []) (id_param ∷ []) (lit "id") id_table

-- `/p{id}{type}`
abbrev two_holes : List Piece
two_holes = byte b'/' ∷ byte b'p' ∷ hole (lit "id") ∷ hole (lit "type") ∷ []

id-IsName : IsName (lit "id")
id-IsName = record { no_open = (refl, (refl, tt)); no_close = (refl, (refl, tt)) }

type-IsName : IsName (lit "type")
type-IsName = record {
  no_open = (refl, (refl, (refl, (refl, tt))));
  no_close = (refl, (refl, (refl, (refl, tt))));
}

path_template-show_example :
    path_template (id_param ∷ []) (show two_holes) ≡ show (erase_all (id_param ∷ []) two_holes)
path_template-show_example =
    path_template-show (id_param ∷ []) two_holes (id-IsName, tt)
      (refl, (refl, (id-IsName, (type-IsName, tt))))

request_method_from_string-to_string_example :
    request_method_from_string (request_method_to_string patch) ≡ patch
request_method_from_string-to_string_example = request_method_from_string-to_string patch

request_method_from_string-prefix_example :
    request_method_from_string (lit "x" ++ lit "post") ≡ unknown
request_method_from_string-prefix_example =
    request_method_from_string-prefix (lit "x") (lit "post")
      (unfold request_method_from_string in refl)

parse_paths-OneOperation_example : OneOperation (parse_paths (pet_path ∷ []) empty_ast).paths
parse_paths-OneOperation_example = parse_paths-OneOperation (pet_path ∷ []) empty_ast tt

generate-IsEnd_example :
    (o : Outcome) × (generate unary as_listed both document pet_spec ≡ some o)
    × IsEnd
        (build_from_ast as_listed (build_ast unary document pet_spec.paths)).adjacency
        (keys (build_ast unary document pet_spec.paths).types)
        (mode_endpoints both (parse_endpoints as_listed pet_spec))
        o
generate-IsEnd_example = generate-IsEnd unary as_listed both document pet_spec document-EachScoped

-- A name with a full stop becomes one of those that are avoided.
event_types_avoided : sanitize_param_name (lit "event.types") ≡ lit "event_types"
unfolding sanitize_param_name text_eq
event_types_avoided = refl

-- The two endpoints of the document, by their paths.
endpoint_templates : List Text
unfolding parse_endpoints
endpoint_templates = templates (parse_endpoints as_listed pet_spec)
  where
    templates : List siesta.Ir.Endpoint.Endpoint → List Text
    templates [] = []
    templates (e ∷ es) = e.path_template ∷ e.function_name ∷ templates es

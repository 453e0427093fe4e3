-- ===== src/Driver.antt =====
-- generator/src/Driver/Driver.cpp: from a document to the order of emission and the endpoints. A
-- schema that the parser cannot read makes it throw; the schemas here are those that it can read. The
-- counts that are printed are not modelled, nor the generators that write the code.
pub mod Resolution
pub mod Paths
pub mod Results
use siesta.Prelude.{
  Text, List, [], ◌∷◌, Bool, true, false, Option, none, some, if◌then◌else◌, HashOrder,
}
use siesta.Support.Sanitize.{sanitize}
use siesta.Frontend.Ast.{SchemaType, PathItem, NormalizedAst, add_type, add_path, validate}
use siesta.Frontend.Schema.{JsonSchema, is_given}
use siesta.Frontend.Parser.{Printing, ParseState, parse_schema}
use siesta.Ir.Endpoint.{Endpoint}
use siesta.Ir.Endpoint.Collect.{PathDoc, OperationDoc}
use siesta.Ir.Endpoint.Build.{SpecDoc, to_lower, parse_endpoints}
use siesta.Ir.Graph.Types.{TopologicalOrder, sort_types}

abbrev pub no_types : ParseState
no_types = record { ast = record { types = []; paths = [] }; added_types = [] }

-- A parsed schema enters under its own name, whatever stands there.
abbrev pub enter_schema : Text → SchemaType × ParseState → ParseState
enter_schema safe_name (type, st) = record st { ast = add_type safe_name type st.ast }

unfoldable pub parse_schemas : Printing → List (Text × JsonSchema) → ParseState → ParseState
unfolding sanitize add_type parse_schema
parse_schemas std [] st = st
parse_schemas std ((name, schema) ∷ schemas) st =
    let safe_name = sanitize name in
    parse_schemas std schemas (enter_schema safe_name (parse_schema std schema safe_name st))

-- The item that an operation of a path gives. The accessors are read without failing.
abbrev pub path_item : Text → Text → OperationDoc → PathItem
path_item path method op = record {
  path = path;
  operations =
      (to_lower method, if is_given op.operation_id then op.operation_id else op.summary) ∷ [];
  parameters = [];
  description = op.description;
}

-- Each operation of a path enters its item under the path, whatever stands there.
unfoldable pub enter_operations : Text → List (Text × OperationDoc) → NormalizedAst → NormalizedAst
unfolding add_path to_lower
enter_operations path [] ast = ast
enter_operations path ((method, op) ∷ ops) ast =
    enter_operations path ops (add_path path (path_item path method op) ast)

unfoldable pub parse_paths : List PathDoc → NormalizedAst → NormalizedAst
unfolding enter_operations
parse_paths [] ast = ast
parse_paths (p ∷ ps) ast = parse_paths ps (enter_operations p.path p.operations ast)

unfoldable pub build_ast : Printing → List (Text × JsonSchema) → List PathDoc → NormalizedAst
unfolding parse_schemas parse_paths
build_ast std schemas paths = parse_paths paths (parse_schemas std schemas no_types).ast

-- How `generateFromOpenAPI` ends: with the errors of the validation, with cycles, or with the order in
-- which the types are emitted and the endpoints for which code is generated.
pub data Outcome : Type 0 where
  invalid : List Text → Outcome
  cyclic : List (List Text) → Outcome
  generated : TopologicalOrder → List Endpoint → Outcome

pub data GenMode : Type 0 where
  client server both : GenMode

-- Each mode has a client or a server to generate, and so the endpoints are always parsed.
abbrev pub mode_endpoints : GenMode → List Endpoint → List Endpoint
mode_endpoints client eps = eps
mode_endpoints server eps = eps
mode_endpoints both eps = eps

-- A document that has been loaded, of version 3 and for the backend that there is. `none` stands for fuel
-- that has run out.
unfoldable pub generate :
    Printing → HashOrder → GenMode → List (Text × JsonSchema) → SpecDoc → Option Outcome
unfolding build_ast validate sort_types parse_endpoints
generate std order mode schemas spec =
    let ast = build_ast std schemas spec.paths in
    elim (validate order ast) [
      | e ∷ errors ↦ some (invalid (e ∷ errors))
      | [] ↦ elim (sort_types order ast) [
        | none ↦ none
        | some t ↦ some (
            if t.has_cycles
            then cyclic t.cycles
            else generated t (mode_endpoints mode (parse_endpoints order spec)))
      ]
    ]

-- ===== src/Driver/Paths.antt =====
-- What the table of paths holds, and that the loop over the paths leaves the types alone.
use siesta.Prelude.{Text, List, [], ◌∷◌, Dict, HashOrder, length, All, All-assign, ◌≡◌, refl, ◌∙◌}
use siesta.Frontend.Ast.{PathItem, NormalizedAst, add_path, has_type, validate}
use siesta.Ir.Endpoint.Collect.{PathDoc, OperationDoc}
use siesta.Driver.{path_item, enter_operations, parse_paths}

-- Each item of a table of paths has one operation.
abbrev pub OneOperation : Dict PathItem → Type 0
OneOperation = All (λ (e : Text × PathItem). length e.1.operations ≡ 1)

enter_operations-OneOperation :
    (path : Text) (ops : List (Text × OperationDoc)) (ast : NormalizedAst)
    → OneOperation ast.paths
    → OneOperation (enter_operations path ops ast).paths
unfolding enter_operations add_path
enter_operations-OneOperation path [] ast h = h
enter_operations-OneOperation path ((method, op) ∷ ops) ast h =
    enter_operations-OneOperation path ops (add_path path (path_item path method op) ast) (
      All-assign (λ (e : Text × PathItem). length e.1.operations ≡ 1) path
        (path_item path method op) ast.paths h (λ j. refl))

-- However many operations the paths have, each item that the loop leaves in the table has one.
pub parse_paths-OneOperation :
    (paths : List PathDoc) (ast : NormalizedAst)
    → OneOperation ast.paths
    → OneOperation (parse_paths paths ast).paths
unfolding parse_paths
parse_paths-OneOperation [] ast h = h
parse_paths-OneOperation (p ∷ ps) ast h =
    parse_paths-OneOperation ps (enter_operations p.path p.operations ast)
      (enter_operations-OneOperation p.path p.operations ast h)

enter_operations-types :
    (path : Text) (ops : List (Text × OperationDoc)) (ast : NormalizedAst)
    → (enter_operations path ops ast).types ≡ ast.types
unfolding enter_operations add_path
enter_operations-types path [] ast = refl
enter_operations-types path ((method, op) ∷ ops) ast =
    enter_operations-types path ops (add_path path (path_item path method op) ast)

pub parse_paths-types :
    (paths : List PathDoc) (ast : NormalizedAst) → (parse_paths paths ast).types ≡ ast.types
unfolding parse_paths
parse_paths-types [] ast = refl
parse_paths-types (p ∷ ps) ast =
    parse_paths-types ps (enter_operations p.path p.operations ast)
    ∙ enter_operations-types p.path p.operations ast

-- Validation looks at the types only.
pub validate-parse_paths :
    (order : HashOrder) (paths : List PathDoc) (ast : NormalizedAst)
    → validate order (parse_paths paths ast) ≡ validate order ast
unfolding validate has_type
validate-parse_paths order paths ast = rw (parse_paths-types paths ast) refl

-- ===== src/Driver/Results.antt =====
-- What the driver does with a document whose references lead to components.
use siesta.Prelude.{
  Text, List, [], some, HashOrder, keys, count, All, ◌≡◌, ◌≢◌, ◌⊎◌, ◌≤◌, inl, inr, refl, ◌∙◌,
}
use siesta.Frontend.Ast.{NormalizedAst, validate}
use siesta.Frontend.Schema.{JsonSchema}
use siesta.Frontend.Parser.{Printing}
use siesta.Ir.Endpoint.{Endpoint}
use siesta.Ir.Endpoint.Build.{SpecDoc, parse_endpoints}
use siesta.Ir.Graph.{build_from_ast}
use siesta.Ir.Graph.Sort.Counting.{Adjacency}
use siesta.Ir.Graph.Cycles.Walks.{IsCycle}
use siesta.Ir.Graph.Types.{TopologicalOrder, sort_types}
use siesta.Ir.Graph.Types.Results.{IsEmission, IsVerdict, sort_types-IsEmission}
use siesta.Driver.{
  no_types, parse_schemas, build_ast, Outcome, cyclic, generated, GenMode, mode_endpoints, generate,
}
use siesta.Driver.Resolution.{
  EachScoped, component_names, validate-parse_schemas, parse_schemas-once,
}
use siesta.Driver.Paths.{parse_paths-types, validate-parse_paths}

-- How a run may end: with the endpoints and an order of emission, or with cycles of the graph.
abbrev pub IsEnd : Adjacency → List Text → List Endpoint → Outcome → Type 0
IsEnd adj names endpoints o =
    ((t : TopologicalOrder) × (o ≡ generated t endpoints) × IsEmission adj names t.ordered_types)
    ⊎ ((cycles : List (List Text)) × (o ≡ cyclic cycles) × (cycles ≢ []) × All (IsCycle adj) cycles)

module _ (std : Printing) (order : HashOrder) (mode : GenMode) (schemas : List (Text × JsonSchema))
    (spec : SpecDoc) where
  abbrev ast : NormalizedAst
  ast = build_ast std schemas spec.paths

  abbrev IsRun : Outcome → Type 0
  IsRun =
      IsEnd (build_from_ast order ast).adjacency (keys ast.types)
        (mode_endpoints mode (parse_endpoints order spec))

  -- After a valid table the sort decides.
  generate-sorted :
      (t : TopologicalOrder)
      → validate order ast ≡ []
      → sort_types order ast ≡ some t
      → IsVerdict (build_from_ast order ast).adjacency (keys ast.types) t
      → (o : Outcome) × (generate std order mode schemas spec ≡ some o) × IsRun o
  unfolding generate
  generate-sorted t valid sorted (inl (found, nonempty, cycles)) = (
    cyclic t.cycles,
    rw (valid, generate) (rw (sorted, generate) (rw (found, generate) refl)),
    inr (t.cycles, refl, nonempty, cycles),
  )
  generate-sorted t valid sorted (inr (none_found, emission)) = (
    generated t (mode_endpoints mode (parse_endpoints order spec)),
    rw (valid, generate) (rw (sorted, generate) (rw (none_found, generate) refl)),
    inl (t, refl, emission),
  )

-- A document in which each `$ref` of the schemas, at any depth, leads to the name of a component is never
-- rejected by the validation, and no loop of the run is cut off: the run ends with the endpoints of the
-- document and an order that has every type of the table once, behind the types it depends on, or with
-- cycles of the dependency graph, at least one.
pub generate-IsEnd :
    (std : Printing) (order : HashOrder) (mode : GenMode) (schemas : List (Text × JsonSchema))
    (spec : SpecDoc)
    → EachScoped (component_names schemas) schemas
    → (o : Outcome) × (generate std order mode schemas spec ≡ some o)
      × IsEnd
          (build_from_ast order (build_ast std schemas spec.paths)).adjacency
          (keys (build_ast std schemas spec.paths).types)
          (mode_endpoints mode (parse_endpoints order spec))
          o
generate-IsEnd std order mode schemas spec h =
    let parsed = (parse_schemas std schemas no_types).ast in
    let once : (x : Text) → count x (keys (build_ast std schemas spec.paths).types) ≤ 1 = λ x.
      unfold build_ast in
      rw (parse_paths-types spec.paths parsed) (parse_schemas-once std schemas x h) in
    let valid : validate order (build_ast std schemas spec.paths) ≡ [] =
      unfold build_ast in
      (validate-parse_paths order spec.paths parsed ∙ validate-parse_schemas std order schemas h) in
    let (t, sorted, verdict) =
      sort_types-IsEmission order (build_ast std schemas spec.paths) once in
    generate-sorted std order mode schemas spec t valid sorted verdict

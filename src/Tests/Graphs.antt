-- ===== src/Tests/Graphs.antt =====
-- generator/src/IR/DependencyGraph.cpp on small graphs and schemas.
use siesta.Prelude.{
  ℕ, ◌≤◌, Text, lit, text_eq, text_eq_iff, List, [], ◌∷◌, some, keys, as_listed, count, ◌≡◌, arith,
  sym, true, false, ◌⊎◌, ◌↔◌, All, none,
}
use siesta.Frontend.Ast.{
  TypeRef, SchemaType, struct, primitive, PrimitiveKind, NormalizedAst, validate, has_type,
}
use siesta.Frontend.Ast.Validation
use siesta.Frontend.Ast.Validation.{validate_iff}
use siesta.Ir.Graph.{build_from_ast}
use siesta.Ir.Graph.Build.{IsGraph, build_from_ast-IsGraph}
use siesta.Ir.Graph.Sort.{topological_sort}
use siesta.Ir.Graph.Sort.Counting.{Adjacency, edges}
use siesta.Ir.Graph.Sort.Results.{
  IsTable, IsClosed, IsOrder, IsRank, topological_sort_complete, topological_sort-IsOrder,
}
use siesta.Ir.Graph.Cycles.{detect_cycles}
use siesta.Ir.Graph.Cycles.Walks.{IsCycle}
use siesta.Ir.Graph.Cycles.Results.{detect_cycles_lem}
use siesta.Ir.Graph.Types.{TopologicalOrder, sort_types}
use siesta.Ir.Graph.Types.Results.{IsVerdict, sort_types-IsEmission}

-- A pet has an owner.
abbrev pet_graph : Adjacency
pet_graph = (lit "Pet", lit "Owner" ∷ []) ∷ (lit "Owner", []) ∷ []

abbrev pet_rank : Text → ℕ
pet_rank x = count x (lit "Pet" ∷ [])

pet_graph-IsTable : IsTable pet_graph
unfolding count text_eq
pet_graph-IsTable x = ground (arith, text_eq_iff (lit "Pet") x, text_eq_iff (lit "Owner") x)

pet_graph-edge :
    (x y : Text)
    → 1 ≤ edges x y pet_graph
    → (text_eq (lit "Pet") x ≡ true) × (text_eq y (lit "Owner") ≡ true)
unfolding edges count
pet_graph-edge x y e = (
  ground (
    arith,
    text_eq_iff (lit "Pet") x,
    text_eq_iff x (lit "Pet"),
    text_eq_iff (lit "Owner") x,
    text_eq_iff x (lit "Owner"),
  ),
  ground (arith, text_eq_iff y (lit "Owner")),
)

pet_graph-IsClosed : IsClosed pet_graph
pet_graph-IsClosed x y e =
    rw ((text_eq_iff y (lit "Owner")).0 (pet_graph-edge x y e).1)
      (unfold count text_eq in omega arith)

pet_graph-IsRank : IsRank pet_graph pet_rank
pet_graph-IsRank x y e =
    rw
      (
        (text_eq_iff y (lit "Owner")).0 (pet_graph-edge x y e).1,
        sym ((text_eq_iff (lit "Pet") x).0 (pet_graph-edge x y e).0),
      )
      (unfold count text_eq in omega arith)

topological_sort_complete_example :
    (result : List Text) × (topological_sort as_listed pet_graph ≡ some result)
    × IsOrder pet_graph result
topological_sort_complete_example =
    topological_sort_complete pet_graph as_listed pet_rank pet_graph-IsTable pet_graph-IsClosed
      pet_graph-IsRank

topological_sort-IsOrder_example :
    (result : List Text) × (topological_sort as_listed pet_graph ≡ some result)
    × ((result ≡ []) ⊎ IsOrder pet_graph result)
topological_sort-IsOrder_example = topological_sort-IsOrder pet_graph as_listed pet_graph-IsTable

detect_cycles_lem_example :
    (cycles : List (List Text)) × (detect_cycles as_listed pet_graph ≡ some cycles)
    × All (IsCycle pet_graph) cycles
    × ((cycles ≡ []) ↔ ((rank : Text → ℕ) × IsRank pet_graph rank))
detect_cycles_lem_example =
    detect_cycles_lem pet_graph as_listed pet_graph-IsTable pet_graph-IsClosed

-- The same as a schema: a struct with a field, and a primitive type.
abbrev owner_ref : TypeRef
owner_ref = record { name = lit "Owner"; is_inline = false }

abbrev pet : SchemaType
pet = struct (record {
  name = lit "Pet";
  fields =
      record {
        name = lit "owner";
        type = owner_ref;
        required = false;
        default_value = none;
        description = [];
      }
      ∷ [];
  all_of_bases = [];
  description = [];
})

abbrev owner : SchemaType
owner = primitive (record {
  kind = PrimitiveKind.string;
  int_format = none;
  num_format = none;
  str_format = none;
  enum_values = [];
  description = [];
})

abbrev pets : NormalizedAst
pets = record { types = (lit "Pet", pet) ∷ (lit "Owner", owner) ∷ []; paths = [] }

build_from_ast-IsGraph_example : IsGraph (build_from_ast as_listed pets)
build_from_ast-IsGraph_example = build_from_ast-IsGraph as_listed pets

sort_types-IsEmission_example :
    (t : TopologicalOrder) × (sort_types as_listed pets ≡ some t)
    × IsVerdict (build_from_ast as_listed pets).adjacency (keys pets.types) t
sort_types-IsEmission_example = sort_types-IsEmission as_listed pets pet_graph-IsTable

validate_iff_example :
    (validate as_listed pets ≡ []) ↔ All (Validation.IsResolved (has_type pets)) pets.types
validate_iff_example = validate_iff as_listed pets

-- The owner is emitted first.
emitted_first : List Text
unfolding sort_types
emitted_first = elim (sort_types as_listed pets) [ some t ↦ t.ordered_types | none ↦ [] ]

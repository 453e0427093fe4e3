-- ===== src/Ir/Graph/Types.antt =====
-- generator/src/IR/DependencyGraph.cpp: `sortTypes`, from the normalized schema to the order in which
-- its types are emitted.
mod Filtering
pub mod Results
use siesta.Prelude.{
  Text, has, Bool, true, false, List, [], ◌∷◌, ◌++◌, Option, none, some, not, if◌then◌else◌, keys,
  HashOrder,
}
use siesta.Frontend.Ast.{NormalizedAst}
use siesta.Ir.Graph.{build_from_ast}
use siesta.Ir.Graph.Sort.{topological_sort}
use siesta.Ir.Graph.Cycles.{detect_cycles}

pub record TopologicalOrder : Type 0 where
  pub ordered_types : List Text
  pub has_cycles : Bool
  pub cycles : List (List Text)

-- The members of a list that are in a set, and those that are not.
unfoldable pub keep_in : List Text → List Text → List Text
unfolding has
keep_in set [] = []
keep_in set (x ∷ xs) = if has x set then x ∷ keep_in set xs else keep_in set xs

unfoldable pub keep_out : List Text → List Text → List Text
unfolding has
keep_out set [] = []
keep_out set (x ∷ xs) = if has x set then keep_out set xs else x ∷ keep_out set xs

-- All names if the sort has left none, and otherwise those that it misses at the end.
unfoldable pub complete : List Text → List Text → List Text
unfolding keep_out
complete [] names = names
complete (x ∷ xs) names = (x ∷ xs) ++ keep_out (x ∷ xs) names

-- `none` stands for fuel that has run out.
unfoldable pub sort_types : HashOrder → NormalizedAst → Option TopologicalOrder
unfolding build_from_ast detect_cycles topological_sort keep_in complete
sort_types order ast =
    let graph = build_from_ast order ast in
    let names = keys (order.arrange ast.types) in
    elim (detect_cycles order graph.adjacency) [
      | none ↦ none
      | some (c ∷ cs) ↦ some (record { ordered_types = []; has_cycles = true; cycles = c ∷ cs })
      | some [] ↦ elim (topological_sort order graph.adjacency) [
        | none ↦ none
        | some sorted ↦ some (record {
          ordered_types = complete (keep_in names sorted) names;
          has_cycles = false;
          cycles = [];
        })
      ]
    ]

-- ===== src/Ir/Graph/Types/Results.antt =====
-- What `sortTypes` guarantees of every schema.
use siesta.Prelude.{
  ℕ, ◌≤◌, ◌<◌, Text, has, true, false, List, [], ◌∷◌, some, keys, HashOrder, count, count-has,
  has-count, has_of_count, count-arrange, ◌≡◌, ◌≢◌, ◌⊎◌, refl, arith, inl, inr, All,
}
use siesta.Frontend.Ast.{NormalizedAst}
use siesta.Ir.Graph.{build_from_ast}
use siesta.Ir.Graph.Build.{build_from_ast-IsGraph}
use siesta.Ir.Graph.Sort.Counting.{Adjacency, edges, edges-key}
use siesta.Ir.Graph.Sort.Results.{IsTable, IsClosed, IsOrder, IsRank, topological_sort_complete}
use siesta.Ir.Graph.Cycles.{detect_cycles}
use siesta.Ir.Graph.Cycles.Walks.{IsCycle}
use siesta.Ir.Graph.Cycles.Ranks.{index, Ordered-index}
use siesta.Ir.Graph.Cycles.Results.{detect_cycles_lem}
use siesta.Ir.Graph.Types.{TopologicalOrder, sort_types, keep_in, complete}
use siesta.Ir.Graph.Types.Filtering.{count-keep_in, index-keep_in, count-complete, index-complete}

-- An order of emission: each name once, and each type behind the types that it depends on.
pub record IsEmission (adj : Adjacency) (names ordered : List Text) : Type 0 where
  pub each_once : (x : Text) → count x ordered ≡ count x names
  pub behind :
      (x y : Text)
      → 1 ≤ edges x y adj
      → 1 ≤ count x names
      → 1 ≤ count y names
      → index y ordered < index x ordered

-- Cycles, at least one, each a walk that comes back to its start; or an order of emission.
abbrev pub IsVerdict : Adjacency → List Text → TopologicalOrder → Type 0
IsVerdict adj names t =
    ((t.has_cycles ≡ true) × (t.cycles ≢ []) × All (IsCycle adj) t.cycles)
    ⊎ ((t.has_cycles ≡ false) × IsEmission adj names t.ordered_types)

module _ (adj : Adjacency) (closed : IsClosed adj) (table : IsTable adj) (names listed : List Text)
    (same : (x : Text) → count x listed ≡ count x names)
    (once : (x : Text) → count x names ≤ 1) where
  kept_key :
      (x : Text) (sorted : List Text)
      → IsOrder adj sorted
      → 1 ≤ count x names
      → 1 ≤ count x (keys adj)
      → has x (keep_in listed sorted) ≡ true
  kept_key x sorted o named node = has_of_count x (keep_in listed sorted) (
      rw (count-keep_in listed x sorted)
        (rw (has_of_count x listed (omega (arith, same x))) (omega (arith, o.each_once x))))

  complete-IsEmission :
      (sorted : List Text)
      → IsOrder adj sorted
      → IsEmission adj names (complete (keep_in listed sorted) listed)
  complete-IsEmission sorted o = record {
    each_once = λ x. ground (
      arith,
      count-complete x (keep_in listed sorted) listed,
      count-keep_in listed x sorted,
      same x,
      once x,
      o.each_once x,
      table x,
      count-has x listed,
      has-count x listed,
      count-has x (keep_in listed sorted),
      has-count x (keep_in listed sorted),
    );
    behind = λ x y edge named_x named_y.
        let node_x = edges-key x y adj edge in
        let node_y = closed x y edge in
        let sorted_x = has_of_count x sorted (omega (arith, o.each_once x)) in
        index-complete x y (keep_in listed sorted) listed (kept_key x sorted o named_x node_x)
          (kept_key y sorted o named_y node_y)
          (index-keep_in listed x y sorted (has_of_count x listed (omega (arith, same x)))
            (has_of_count y listed (omega (arith, same y)))
            (Ordered-index adj [] sorted x y o.ordered (unfold has in refl) sorted_x edge));
  }

-- Sorting the types of a schema ends, for every order in which the tables are iterated. Either it
-- reports cycles, at least one, each a walk of the dependency graph that comes back to its start; or
-- it gives every type of the schema once, each behind all types of the schema that it depends on.
pub sort_types-IsEmission :
    (order : HashOrder) (ast : NormalizedAst)
    → ((x : Text) → count x (keys ast.types) ≤ 1)
    → (t : TopologicalOrder) × (sort_types order ast ≡ some t)
      × IsVerdict (build_from_ast order ast).adjacency (keys ast.types) t
unfolding sort_types complete
sort_types-IsEmission order ast once =
    let g = build_from_ast order ast in
    let i = build_from_ast-IsGraph order ast in
    let (cycles, found, sound, acyclic) = detect_cycles_lem g.adjacency order i.table i.closed in
    with_cycles cycles found sound (acyclic.0)
  where
    names : List Text
    names = keys (order.arrange ast.types)

    with_cycles :
        (cycles : List (List Text))
        → detect_cycles order (build_from_ast order ast).adjacency ≡ some cycles
        → All (IsCycle (build_from_ast order ast).adjacency) cycles
        → (cycles ≡ [] → (rank : Text → ℕ) × IsRank (build_from_ast order ast).adjacency rank)
        → (t : TopologicalOrder) × (sort_types order ast ≡ some t)
          × IsVerdict (build_from_ast order ast).adjacency (keys ast.types) t
    with_cycles (c ∷ cs) found sound ranked = (
      record { ordered_types = []; has_cycles = true; cycles = c ∷ cs },
      rw (found, sort_types) refl,
      inl (refl, (λ e. cc), sound),
    )
    with_cycles [] found sound ranked =
        let g = build_from_ast order ast in
        let i = build_from_ast-IsGraph order ast in
        let (rank, down) = ranked refl in
        let (sorted, done, o) =
          topological_sort_complete g.adjacency order rank i.table i.closed down in
        (
          record {
            ordered_types = complete (keep_in names sorted) names;
            has_cycles = false;
            cycles = [];
          },
          rw (found, sort_types) (rw (done, sort_types) refl),
          inr (
            refl,
            complete-IsEmission g.adjacency i.closed i.table (keys ast.types) names
                (count-arrange order ast.types) once sorted o,
          ),
        )

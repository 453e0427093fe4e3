-- ===== src/Ir/Graph/Sort.antt =====
-- generator/src/IR/DependencyGraph.cpp: `topologicalSort` (Kahn's algorithm). The tables are iterated
-- in an order that the standard library chooses; the in-degrees are C++ `int`s.
pub mod Counting
pub mod Degrees
pub mod Invariant
pub mod Results
use siesta.Prelude.{
  ℕ, zero, suc, Text, text_eq, Bool, true, false, List, [], ◌∷◌, ◌++◌, Option, none, some,
  if◌then◌else◌, ◌==◌, Dict, find, assign, keys, HashOrder, length, ℤ, pos, negsuc, pred_ℤ, add_ℕ,
}
use siesta.Ir.Graph.{list_at, push_at}

abbrev pub is_zero : ℤ → Bool
is_zero (pos zero) = true
is_zero (pos (suc n)) = false
is_zero (negsuc n) = false

-- reverse_adj[to].push_back(from), for each neighbour
unfoldable pub reverse_neighbors : Text → List Text → Dict (List Text) → Dict (List Text)
unfolding push_at
reverse_neighbors from [] rev = rev
reverse_neighbors from (to ∷ tos) rev = reverse_neighbors from tos (push_at to from rev)

unfoldable pub reverse_adjacency : Dict (List Text) → Dict (List Text) → Dict (List Text)
unfolding reverse_neighbors
reverse_adjacency [] rev = rev
reverse_adjacency ((from, tos) ∷ adj) rev = reverse_adjacency adj (reverse_neighbors from tos rev)

abbrev pub degree_or_zero : Option ℤ → ℤ
degree_or_zero none = pos 0
degree_or_zero (some z) = z

-- in_degree[k], read
unfoldable pub degree_at : Text → Dict ℤ → ℤ
unfolding find
degree_at k d = degree_or_zero (find k d)

unfoldable pub zero_degrees : Dict (List Text) → Dict ℤ → Dict ℤ
unfolding assign
zero_degrees [] d = d
zero_degrees ((node, _) ∷ adj) d = zero_degrees adj (assign node (pos 0) d)

unfoldable pub add_degrees : Dict (List Text) → Dict ℤ → Dict ℤ
unfolding assign degree_at
add_degrees [] d = d
add_degrees ((from, tos) ∷ adj) d =
    add_degrees adj (assign from (add_ℕ (degree_at from d) (length tos)) d)

-- The nodes that the queue starts with.
unfoldable pub ready : Dict ℤ → List Text
ready [] = []
ready ((node, degree) ∷ d) = if is_zero degree then node ∷ ready d else ready d

pub record Work : Type 0 where
  pub degrees : Dict ℤ
  pub queue : List Text

-- The inner loop, over the dependents of the current node.
unfoldable pub relax : List Text → Work → Work
unfolding assign degree_at
relax [] w = w
relax (d ∷ ds) w =
    let degree = pred_ℤ (degree_at d w.degrees) in
    relax ds (record {
      degrees = assign d degree w.degrees;
      queue = if is_zero degree then w.queue ++ d ∷ [] else w.queue;
    })

-- The outer loop; `none` means that the fuel ran out.
unfoldable pub process : ℕ → Dict (List Text) → Dict ℤ → List Text → List Text → Option (List Text)
unfolding relax list_at
process zero rev degrees queue result = none
process (suc fuel) rev degrees [] result = some result
process (suc fuel) rev degrees (current ∷ queue) result =
    let w = relax (list_at current rev) (record { degrees = degrees; queue = queue }) in
    process fuel rev w.degrees w.queue (result ++ current ∷ [])

abbrev pub initial_work : HashOrder → Dict (List Text) → Work
initial_work order adj =
    let degrees = add_degrees (order.arrange adj) (zero_degrees (order.arrange adj) []) in
    record { degrees = degrees; queue = ready (order.arrange degrees) }

-- What the loop leaves, for as many rounds as there are nodes, and one to see the queue empty.
unfoldable pub processed : HashOrder → Dict (List Text) → Option (List Text)
unfolding process reverse_adjacency zero_degrees add_degrees ready
processed order adj =
    let w = initial_work order adj in
    process (suc (length adj)) (reverse_adjacency (order.arrange adj) []) w.degrees w.queue []

-- A result that lacks a node is thrown away.
unfoldable pub topological_sort : HashOrder → Dict (List Text) → Option (List Text)
unfolding processed
topological_sort order adj = elim (processed order adj) [
  | none ↦ none
  | some result ↦ if length result == length adj then some result else some []
]

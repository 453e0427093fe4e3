-- ===== src/Ir/Graph/Cycles.antt =====
-- generator/src/IR/DependencyGraph.cpp: `detectCycles` and `dfsDetectCycle`. The two sets are lists of
-- their members; the fuel bounds the depth of the recursion.
pub mod Walks
mod Search
mod Leaving
pub mod Ranks
pub mod Results
use siesta.Prelude.{
  ℕ, zero, suc, Text, text_eq, has, Bool, true, false, List, [], ◌∷◌, ◌++◌, Option, none, some, not,
  ◌||◌, if◌then◌else◌, Dict, keys, HashOrder, length, remove,
}
use siesta.Ir.Graph.{list_at}

pub record Dfs : Type 0 where
  pub visited : List Text
  pub rec_stack : List Text
  pub path : List Text
  pub cycles : List (List Text)

-- insert of a set
abbrev pub insert_into : Text → List Text → List Text
insert_into x s = if has x s then s else x ∷ s

unfoldable pub pop_last : List Text → List Text
pop_last [] = []
pop_last (x ∷ []) = []
pop_last (x ∷ y ∷ xs) = x ∷ pop_last (y ∷ xs)

-- The loop that copies the path from the neighbour on, with its flag.
unfoldable pub cycle_from : Bool → Text → List Text → List Text
cycle_from in_cycle neighbor [] = []
cycle_from in_cycle neighbor (n ∷ path) =
    let now = in_cycle || text_eq n neighbor in
    let rest = cycle_from now neighbor path in if now then n ∷ rest else rest

abbrev pub report : Text → Dfs → Dfs
report neighbor st = record st {
  cycles = st.cycles ++ (cycle_from false neighbor st.path ++ neighbor ∷ []) ∷ [];
}

-- The loop over the neighbours, with the recursive call as `visit`.
unfoldable pub visit_neighbors : (Text → Dfs → Option Dfs) → List Text → Dfs → Option Dfs
unfolding cycle_from has
visit_neighbors visit [] st = some st
visit_neighbors visit (n ∷ ns) st =
    if not (has n st.visited)
    then (elim (visit n st) [ none ↦ none | some st' ↦ visit_neighbors visit ns st' ])
    else visit_neighbors visit ns (if has n st.rec_stack then report n st else st)

abbrev pub enter : Text → Dfs → Dfs
enter node st = record st {
  visited = insert_into node st.visited;
  rec_stack = insert_into node st.rec_stack;
  path = st.path ++ node ∷ [];
}

abbrev pub leave : Text → Dfs → Dfs
leave node st = record st { path = pop_last st.path; rec_stack = remove node st.rec_stack }

unfoldable pub dfs_detect_cycle : Dict (List Text) → ℕ → Text → Dfs → Option Dfs
unfolding visit_neighbors list_at pop_last remove
dfs_detect_cycle adj zero node st = none
dfs_detect_cycle adj (suc fuel) node st =
    elim (visit_neighbors (dfs_detect_cycle adj fuel) (list_at node adj) (enter node st)) [
      | none ↦ none
      | some st' ↦ some (leave node st')
    ]

abbrev pub fresh : Dfs
fresh = record { visited = []; rec_stack = []; path = []; cycles = [] }

-- The loop over the nodes.
unfoldable pub detect_from : Dict (List Text) → ℕ → List Text → Dfs → Option Dfs
unfolding dfs_detect_cycle
detect_from adj fuel [] st = some st
detect_from adj fuel (node ∷ nodes) st =
    if not (has node st.visited)
    then (elim (dfs_detect_cycle adj fuel node st) [
      | none ↦ none
      | some st' ↦ detect_from adj fuel nodes st'
    ])
    else detect_from adj fuel nodes st

-- The cycles that are found; the source's result says whether there are any.
unfoldable pub detect_cycles : HashOrder → Dict (List Text) → Option (List (List Text))
unfolding detect_from
detect_cycles order adj =
    elim (detect_from adj (suc (length adj)) (keys (order.arrange adj)) fresh) [
      | none ↦ none
      | some st ↦ some st.cycles
    ]

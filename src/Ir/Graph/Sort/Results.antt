-- ===== src/Ir/Graph/Sort/Results.antt =====
-- What `topologicalSort` guarantees.
use siesta.Prelude.{
  ℕ, zero, suc, ◌≤◌, ◌<◌, Text, List, [], some, if◌then◌else◌, ◌==◌, keys, HashOrder, length, count,
  has_of_count, ◌≡◌, refl, arith, ◌∙◌, Bool-cases, inl, inr, count-ge_of_length, length-le_of_count,
  length-keys, ◌⊎◌,
}
use siesta.Ir.Graph.Sort.{processed, topological_sort}
use siesta.Ir.Graph.Sort.Counting.{Adjacency, edges, remaining, remaining_zero}
use siesta.Ir.Graph.Sort.Invariant.{is_node, Ordered, Inv, processed-Inv}

-- The keys of a table are different.
abbrev pub IsTable : Adjacency → Type 0
IsTable adj = (x : Text) → count x (keys adj) ≤ 1

-- Every target of an edge is a node.
abbrev pub IsClosed : Adjacency → Type 0
IsClosed adj = (x y : Text) → 1 ≤ edges x y adj → 1 ≤ count y (keys adj)

-- A topological order: each node once, behind all that it has edges to.
pub record IsOrder (adj : Adjacency) (result : List Text) : Type 0 where
  pub each_once : (x : Text) → count x result ≡ count x (keys adj)
  pub ordered : Ordered adj [] result

-- The nodes can be numbered so that edges go down: there is no cycle.
abbrev pub IsRank : Adjacency → (Text → ℕ) → Type 0
IsRank adj rank = (x y : Text) → 1 ≤ edges x y adj → rank y < rank x

module _ (adj : Adjacency) (table : IsTable adj) (order : HashOrder) where
  abbrev left_over : List Text
  left_over = (processed-Inv adj table order).0

  processed-some : processed order adj ≡ some left_over
  processed-some = (processed-Inv adj table order).1

  left_over-Inv :
      Inv adj (record { degrees = (processed-Inv adj table order).2.0; queue = [] }) left_over []
  left_over-Inv = (processed-Inv adj table order).2.1

  placed_once :
      (x : Text) → count x left_over ≡ (if remaining left_over x adj == 0 then is_node adj x else 0)
  placed_once x = let placed = left_over-Inv.placed x in unfold count in ground arith

  left_over-le : (x : Text) → count x left_over ≤ count x (keys adj)
  left_over-le x = ground (arith, placed_once x)

  full-IsOrder : length adj ≤ length left_over → IsOrder adj left_over
  full-IsOrder h = record {
    each_once = λ x. omega (
      arith,
      left_over-le x,
      count-ge_of_length left_over (keys adj) left_over-le (omega (arith, length-keys adj)) x,
    );
    ordered = left_over-Inv.ordered;
  }

  module _ (closed : IsClosed adj) (rank : Text → ℕ) (down : IsRank adj rank) where
    -- By induction on the rank, nothing keeps a node back.
    free_below : (n : ℕ) (x : Text) → rank x < n → count x left_over ≡ is_node adj x
    free_below zero x h = absurd (omega arith)
    free_below (suc n) x h =
        let free = remaining_zero left_over x adj (λ y p.
          has_of_count y left_over
            (omega (arith, free_below n y (omega (arith, down x y p)), closed x y p))) in
        placed_once x ∙ (rw free refl)

    ranked_full : length adj ≤ length left_over
    ranked_full = rw (← length-keys adj) (
        length-le_of_count (keys adj) left_over
          (λ x. omega (arith, free_below (suc (rank x)) x (omega arith))))

-- Sorting ends, for every order in which the tables are iterated, and gives no node at all or a
-- topological order of the nodes.
pub topological_sort-IsOrder :
    (adj : Adjacency) (order : HashOrder)
    → IsTable adj
    → (result : List Text) × (topological_sort order adj ≡ some result)
      × ((result ≡ []) ⊎ IsOrder adj result)
unfolding topological_sort
topological_sort-IsOrder adj order table =
    let l = left_over adj table order in
    let done = processed-some adj table order in
    elim (Bool-cases (length l == length adj)) [
      | inl e ↦ (
        l,
        rw (done, topological_sort) (rw e refl),
        inr (full-IsOrder adj table order (ground arith)),
      )
      | inr e ↦ ([], rw (done, topological_sort) (rw e refl), inl refl)
    ]

-- If there is no cycle, then sorting gives a topological order of the nodes.
pub topological_sort_complete :
    (adj : Adjacency) (order : HashOrder) (rank : Text → ℕ)
    → IsTable adj
    → IsClosed adj
    → IsRank adj rank
    → (result : List Text) × (topological_sort order adj ≡ some result) × IsOrder adj result
unfolding topological_sort
topological_sort_complete adj order rank table closed down =
    let l = left_over adj table order in
    let done = processed-some adj table order in
    let full = ranked_full adj table order closed rank down in
    let most = length-le_of_count l (keys adj) (left_over-le adj table order) in
    (
      l,
      rw (done, topological_sort) (ground (arith, length-keys adj)),
      full-IsOrder adj table order full,
    )

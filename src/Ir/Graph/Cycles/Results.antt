-- ===== src/Ir/Graph/Cycles/Results.antt =====
-- What `detectCycles` guarantees.
use siesta.Prelude.{
  ℕ, suc, ◌≤◌, ◌<◌, Text, has, true, List, [], ◌∷◌, ◌++◌, some, keys, HashOrder, length, count,
  count-arrange, length-keys, ◌≡◌, ◌↔◌, refl, arith, ap, sym, ◌∙◌, subst, Bool-cases, inl, inr, All,
}
use siesta.Ir.Graph.Sort.Counting.{Adjacency, edges, edges-key, undone_le}
use siesta.Ir.Graph.Sort.Results.{IsTable, IsClosed, IsRank}
use siesta.Ir.Graph.Cycles.{Dfs, fresh, detect_from, detect_cycles}
use siesta.Ir.Graph.Cycles.Walks.{IsWalk, IsCycle}
use siesta.Ir.Graph.Cycles.Search.{
  Good, Finished, Later, Later-refl, Later-trans, unvisited, unvisited-Later, cons_cases,
  count-head, count-tail,
}
use siesta.Ir.Graph.Cycles.Leaving.{dfs-Promise}
use siesta.Ir.Graph.Cycles.Ranks.{index, Ordered-index, no_cycle}

module _ (adj : Adjacency) (table : IsTable adj) (closed : IsClosed adj) where
  abbrev Searched : ℕ → List Text → Dfs → Type 0
  Searched fuel ns st =
      (st' : Dfs) × (detect_from adj fuel ns st ≡ some st')
      × Later adj table closed st st'
      × ((n : Text) → 1 ≤ count n ns → has n st'.visited ≡ true)

  go_on :
      (fuel : ℕ) (m : Text) (ns : List Text) (st mid : Dfs)
      → Later adj table closed st mid
      → has m mid.visited ≡ true
      → detect_from adj fuel (m ∷ ns) st ≡ detect_from adj fuel ns mid
      → Searched fuel ns mid
      → Searched fuel (m ∷ ns) st
  go_on fuel m ns st mid l now same (st', e, l', rest) = (
    st',
    same ∙ e,
    Later-trans adj table closed l l',
    λ n h. elim (cons_cases adj table closed n m ns h) [
      | inl eq ↦ subst (λ k. has k st'.visited ≡ true) (sym eq) (l'.grown m now)
      | inr h' ↦ rest n h'
    ],
  )

  detect_from-Searched :
      (fuel : ℕ) (ns : List Text) (st : Dfs)
      → Good adj table closed st
      → st.path ≡ []
      → ((n : Text) → 1 ≤ count n ns → 1 ≤ count n (keys adj))
      → unvisited adj table closed st < fuel
      → Searched fuel ns st
  unfolding detect_from
  detect_from-Searched fuel [] st g p nodes bound =
      (st, refl, Later-refl adj table closed st g, λ n h. absurd (unfold count in omega arith))
  detect_from-Searched fuel (m ∷ ns) st g p nodes bound =
      let behind =
        λ (n : Text) (h : 1 ≤ count n ns). nodes n (count-tail adj table closed n m ns h) in
      elim (Bool-cases (has m st.visited)) [
        | inl seen ↦
            go_on fuel m ns st st (Later-refl adj table closed st g) seen
              (rw (seen, detect_from) refl) (detect_from-Searched fuel ns st g p behind bound)
        | inr unseen ↦
            let walk = subst (λ q. IsWalk adj (q ++ m ∷ [])) (sym p) tt in
            let (mid, e, l, now) =
              dfs-Promise adj table closed fuel m st g unseen
                (nodes m (count-head adj table closed m ns)) walk bound in
            go_on fuel m ns st mid l now (rw (unseen, detect_from) (rw e refl)) (
              detect_from-Searched fuel ns mid l.good (l.same_path ∙ p) behind
                (omega (arith, unvisited-Later adj table closed l)))
      ]

  fresh-Good : Good adj table closed fresh
  fresh-Good = record {
    walk = tt;
    in_path = λ x h. h;
    stacked = λ x h. h;
    sound = tt;
    finished = λ h. record { done = []; ordered = tt; split = λ x. unfold has in refl };
  }

  module _ (order : HashOrder) where
    searched : Searched (suc (length adj)) (keys (order.arrange adj)) fresh
    searched =
        detect_from-Searched (suc (length adj)) (keys (order.arrange adj)) fresh fresh-Good refl
          (λ n h. omega (arith, count-arrange order adj n))
          (omega (arith, undone_le [] (keys adj), length-keys adj))

    end : Dfs
    end = searched.0

    detect_cycles-some : detect_cycles order adj ≡ some end.cycles
    unfolding detect_cycles end
    detect_cycles-some = rw (searched.1, detect_cycles) refl

    -- Without a report the finished nodes are all the nodes, and their order numbers them.
    end-IsRank : end.cycles ≡ [] → (rank : Text → ℕ) × IsRank adj rank
    unfolding end
    end-IsRank none_found =
        let f = searched.2.good.finished none_found in
        (
          (λ x. index x f.done),
          λ x y e.
              Ordered-index adj [] f.done x y f.ordered (unfold has in refl) (placed x y e f) e,
        )
      where
        placed :
            (x y : Text)
            → 1 ≤ edges x y adj
            → (f : Finished adj table closed (searched.0)) → has x f.done ≡ true
        placed x y e f =
            let seen =
              searched.3 x (omega (arith, count-arrange order adj x, edges-key x y adj e)) in
            let off = ap (has x) searched.2.same_stack in unfold has in ground (arith, f.split x)

-- The search for cycles ends, for every order in which the tables are iterated; all that it reports are
-- walks of the graph that come back to their start; and it reports nothing exactly when the nodes
-- can be numbered so that all edges go down, that is, when there is no cycle.
pub detect_cycles_lem :
    (adj : Adjacency) (order : HashOrder)
    → IsTable adj
    → IsClosed adj
    → (cycles : List (List Text)) × (detect_cycles order adj ≡ some cycles)
      × All (IsCycle adj) cycles
      × ((cycles ≡ []) ↔ ((rank : Text → ℕ) × IsRank adj rank))
detect_cycles_lem adj order table closed =
    let found = end adj table closed order in
    (
      found.cycles,
      detect_cycles-some adj table closed order,
      (unfold end in (searched adj table closed order).2.good.sound),
      (
        end-IsRank adj table closed order,
        λ (rank, down).
            none_of_rank found.cycles rank down
              (unfold end in (searched adj table closed order).2.good.sound),
      ),
    )
  where
    none_of_rank :
        (cycles : List (List Text)) (rank : Text → ℕ)
        → IsRank adj rank
        → All (IsCycle adj) cycles
        → cycles ≡ []
    none_of_rank [] rank down h = refl
    none_of_rank (c ∷ cs) rank down (i, _) = absurd (no_cycle adj table rank down c i)

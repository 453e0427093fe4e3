-- ===== src/Ir/Graph/Cycles/Search.antt =====
-- The states of the depth-first search, what a call does to them, and the loop over the neighbours.
use siesta.Prelude.{
  ℕ, ◌≤◌, ◌<◌, Text, text_eq, text_eq_iff, text_eq_refl, has, true, false, List, [], ◌∷◌, ◌++◌,
  Option, some, ◌||◌, if◌then◌else◌, keys, count, ◌≡◌, refl, arith, sym, ◌∙◌, Bool-cases, inl, inr,
  All, All-append, subst, append-ne-nil, ◌⊎◌,
}
use siesta.Ir.Graph.Sort.Counting.{Adjacency, undone, undone_mono, edges-list_at}
use siesta.Ir.Graph.Sort.Invariant.{Ordered}
use siesta.Ir.Graph.Sort.Results.{IsTable, IsClosed}
use siesta.Ir.Graph.Cycles.{Dfs, cycle_from, report, visit_neighbors}
use siesta.Ir.Graph.Cycles.Walks.{Edge, IsWalk, IsCycle, IsWalk-append, cycle_from-IsCycle}

module _ (adj : Adjacency) (table : IsTable adj) (closed : IsClosed adj) where
  -- The finished nodes: visited, and no longer on the stack.
  pub record Finished (st : Dfs) : Type 0 where
    pub done : List Text
    pub ordered : Ordered adj [] done
    pub split : (x : Text) → has x st.visited ≡ (has x done || has x st.rec_stack)

  pub record Good (st : Dfs) : Type 0 where
    pub walk : IsWalk adj st.path
    pub in_path : (x : Text) → has x st.rec_stack ≡ true → has x st.path ≡ true
    pub stacked : (x : Text) → has x st.rec_stack ≡ true → has x st.visited ≡ true
    pub sound : All (IsCycle adj) st.cycles
    pub finished : st.cycles ≡ [] → Finished st

  -- What a call does to the state, whatever it visits.
  pub record Later (st st' : Dfs) : Type 0 where
    pub good : Good st'
    pub same_stack : st'.rec_stack ≡ st.rec_stack
    pub same_path : st'.path ≡ st.path
    pub grown : (x : Text) → has x st.visited ≡ true → has x st'.visited ≡ true
    pub kept : st'.cycles ≡ [] → st.cycles ≡ []

  pub Later-refl : (st : Dfs) → Good st → Later st st
  Later-refl st g = record {
    good = g;
    same_stack = refl;
    same_path = refl;
    grown = λ x h. h;
    kept = λ h. h;
  }

  pub Later-trans : {a b c : Dfs} → Later a b → Later b c → Later a c
  Later-trans l m = record {
    good = m.good;
    same_stack = m.same_stack ∙ l.same_stack;
    same_path = m.same_path ∙ l.same_path;
    grown = λ x h. m.grown x (l.grown x h);
    kept = λ h. l.kept (m.kept h);
  }

  abbrev pub unvisited : Dfs → ℕ
  unvisited st = undone st.visited (keys adj)

  pub unvisited-Later : {a b : Dfs} → Later a b → unvisited b ≤ unvisited a
  unvisited-Later {a} {b} l = undone_mono a.visited b.visited (keys adj) l.grown

  -- What the calls on unvisited nodes promise, for a given bound on the nodes left.
  abbrev pub Promise : (Text → Dfs → Option Dfs) → ℕ → Type 0
  Promise visit fuel =
      (n : Text) (st : Dfs)
      → Good st
      → has n st.visited ≡ false
      → 1 ≤ count n (keys adj)
      → IsWalk adj (st.path ++ n ∷ [])
      → unvisited st < fuel
      → (st' : Dfs) × (visit n st ≡ some st') × Later st st' × (has n st'.visited ≡ true)

  report-Later :
      (n node : Text) (p : List Text) (st : Dfs)
      → Good st
      → st.path ≡ p ++ node ∷ []
      → has n st.rec_stack ≡ true
      → Edge adj node n
      → Later st (report n st)
  report-Later n node p st g at_node on_stack edge =
      let cycle =
        cycle_from-IsCycle adj n node p (subst (IsWalk adj) at_node g.walk)
          (subst (λ q. has n q ≡ true) at_node (g.in_path n on_stack)) edge in
      let here = subst (λ q. IsCycle adj (cycle_from false n q ++ n ∷ [])) (sym at_node) cycle in
      record {
        good = record {
          walk = g.walk;
          in_path = g.in_path;
          stacked = g.stacked;
          sound = All-append (IsCycle adj) st.cycles _ g.sound (here, tt);
          finished = λ h. absurd (append-ne-nil st.cycles _ h);
        };
        same_stack = refl;
        same_path = refl;
        grown = λ x h. h;
        kept = λ h. absurd (append-ne-nil st.cycles _ h);
      }

  -- A neighbour is settled if, without a report, it is visited and off the stack.
  abbrev pub Settled : Dfs → Text → Type 0
  Settled st n = st.cycles ≡ [] → (has n st.visited ≡ true) × (has n st.rec_stack ≡ false)

  Settled-Later : {a b : Dfs} (n : Text) → Settled a n → Later a b → Settled b n
  Settled-Later n s l h =
      let (seen, off) = s (l.kept h) in
      (l.grown n seen, subst (λ r. has n r ≡ false) (sym l.same_stack) off)

  pub cons_cases : (n m : Text) (ns : List Text) → 1 ≤ count n (m ∷ ns) → (n ≡ m) ⊎ (1 ≤ count n ns)
  unfolding count
  cons_cases n m ns h = elim (Bool-cases (text_eq n m)) [
    | inl e ↦ inl ((text_eq_iff n m).0 e)
    | inr e ↦ inr (rw e at h)
  ]

  pub count-head : (m : Text) (ns : List Text) → 1 ≤ count m (m ∷ ns)
  unfolding count
  count-head m ns = rw (text_eq_refl m) (omega arith)

  pub count-tail : (n m : Text) (ns : List Text) → 1 ≤ count n ns → 1 ≤ count n (m ∷ ns)
  unfolding count
  count-tail n m ns h = ground arith

  pub off_stack :
      (n : Text) (st : Dfs) → Good st → has n st.visited ≡ false → has n st.rec_stack ≡ false
  off_stack n st g unseen = elim (Bool-cases (has n st.rec_stack)) [
    | inl e ↦ cc (g.stacked n e)
    | inr e ↦ e
  ]

  -- A neighbour that was visited before is reported or settled.
  seen_neighbor :
      (n node : Text) (p : List Text) (st : Dfs)
      → Good st
      → st.path ≡ p ++ node ∷ []
      → has n st.visited ≡ true
      → Edge adj node n
      → Later st (if has n st.rec_stack then report n st else st)
        × Settled (if has n st.rec_stack then report n st else st) n
  seen_neighbor n node p st g at_node seen edge = elim (Bool-cases (has n st.rec_stack)) [
    | inl e ↦
        rw e (report-Later n node p st g at_node e edge, λ h. absurd (append-ne-nil st.cycles _ h))
    | inr e ↦ rw e (Later-refl st g, λ h. (seen, e))
  ]

  module _ (visit : Text → Dfs → Option Dfs) (fuel : ℕ) (promise : Promise visit fuel) (node : Text)
      (p : List Text) where
    -- What the loop over the neighbours leaves.
    abbrev pub Visited : List Text → Dfs → Type 0
    Visited ns st =
        (st' : Dfs) × (visit_neighbors visit ns st ≡ some st')
        × Later st st'
        × ((n : Text) → 1 ≤ count n ns → Settled st' n)

    add_first :
        (m : Text) (ns : List Text) (st mid : Dfs)
        → Later st mid
        → Settled mid m
        → visit_neighbors visit (m ∷ ns) st ≡ visit_neighbors visit ns mid
        → Visited ns mid
        → Visited (m ∷ ns) st
    add_first m ns st mid l settled same (st', e, l', rest) = (
      st',
      same ∙ e,
      Later-trans l l',
      λ n h. elim (cons_cases n m ns h) [
        | inl eq ↦ subst (Settled st') (sym eq) (Settled-Later m settled l')
        | inr h' ↦ rest n h'
      ],
    )

    pub visit_neighbors-Visited :
        (ns : List Text) (st : Dfs)
        → ((n : Text) → 1 ≤ count n ns → Edge adj node n)
        → Good st
        → st.path ≡ p ++ node ∷ []
        → unvisited st < fuel
        → Visited ns st
    unfolding visit_neighbors
    visit_neighbors-Visited [] st edge g at_node bound =
        (st, refl, Later-refl st g, λ n h. absurd (unfold count in omega arith))
    visit_neighbors-Visited (m ∷ ns) st edge g at_node bound =
        let edge_m = edge m (count-head m ns) in
        let edges_behind = λ (n : Text) (h : 1 ≤ count n ns). edge n (count-tail n m ns h) in
        elim (Bool-cases (has m st.visited)) [
          | inl seen ↦
              let (l, settled) = seen_neighbor m node p st g at_node seen edge_m in
              let mid = if has m st.rec_stack then report m st else st in
              add_first m ns st mid l settled (rw (seen, visit_neighbors) refl) (
                visit_neighbors-Visited ns mid edges_behind l.good (l.same_path ∙ at_node)
                  (omega (arith, unvisited-Later l)))
          | inr unseen ↦
              let key =
                closed node m (omega (arith, edges-list_at node m adj (table node), edge_m)) in
              let walk =
                subst (λ q. IsWalk adj (q ++ m ∷ [])) (sym at_node)
                  (IsWalk-append adj p node m (subst (IsWalk adj) at_node g.walk) edge_m) in
              let (mid, e, l, now) = promise m st g unseen key walk bound in
              let off = subst (λ r. has m r ≡ false) (sym l.same_stack) (off_stack m st g unseen) in
              add_first m ns st mid l (λ h. (now, off)) (rw (unseen, visit_neighbors) (rw e refl))
                (visit_neighbors-Visited ns mid edges_behind l.good (l.same_path ∙ at_node)
                  (omega (arith, unvisited-Later l)))
        ]

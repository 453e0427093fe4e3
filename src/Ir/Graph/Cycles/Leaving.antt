-- ===== src/Ir/Graph/Cycles/Leaving.antt =====
-- Entering a node and leaving it: the depth-first search ends, reports cycles only, and without a report
-- leaves the visited nodes in an order in which each comes behind all that it has edges to.
use siesta.Prelude.{
  ℕ, zero, suc, ◌≤◌, Text, text_eq, text_eq_iff, text_eq_refl, has, true, false, List, [], ◌∷◌,
  ◌++◌, ◌||◌, keys, remove, count, ◌≡◌, refl, arith, ap, sym, ◌∙◌, subst,
}
use siesta.Ir.Graph.{list_at}
use siesta.Ir.Graph.Sort.Counting.{
  Adjacency, edges, remaining_zero, has-append_one, undone_insert, edges-list_at,
}
use siesta.Ir.Graph.Sort.Invariant.{Ordered-append}
use siesta.Ir.Graph.Sort.Results.{IsTable, IsClosed}
use siesta.Ir.Graph.Cycles.{Dfs, insert_into, enter, leave, dfs_detect_cycle, pop_last}
use siesta.Ir.Graph.Cycles.Walks.{IsWalk, pop_last-append}
use siesta.Ir.Graph.Cycles.Search.{
  Good, Finished, Later, Settled, Promise, off_stack, visit_neighbors-Visited,
}

has-insert_into : (x y : Text) (s : List Text) → has x (insert_into y s) ≡ (text_eq x y || has x s)
unfolding has
has-insert_into x y s = ground (arith, text_eq_iff x y)

module _ (adj : Adjacency) (table : IsTable adj) (closed : IsClosed adj) where
  module _ (node : Text) (st : Dfs) (g : Good adj table closed st)
      (unseen : has node st.visited ≡ false) where
    enter-Good : IsWalk adj (st.path ++ node ∷ []) → Good adj table closed (enter node st)
    enter-Good walk = record {
      walk = walk;
      in_path = λ x h.
          ground (
            arith,
            has-insert_into x node st.rec_stack,
            has-append_one x node st.path,
            g.in_path x,
          );
      stacked = λ x h. ground (
        arith,
        has-insert_into x node st.rec_stack,
        has-insert_into x node st.visited,
        g.stacked x,
      );
      sound = g.sound;
      finished = λ h.
          let f = g.finished h in
          record {
            done = f.done;
            ordered = f.ordered;
            split = λ x. ground (
              arith,
              has-insert_into x node st.rec_stack,
              has-insert_into x node st.visited,
              f.split x,
            );
          };
    }

    remove-insert_into : remove node (insert_into node st.rec_stack) ≡ st.rec_stack
    unfolding remove
    remove-insert_into =
        let off = off_stack adj table closed node st g unseen in ground (arith, text_eq_refl node)

    module _ (st' : Dfs) (l : Later adj table closed (enter node st) st')
        (settled : (n : Text)
          → 1 ≤ count n (list_at node adj)
          → Settled adj table closed st' n) where
      left_stack : (leave node st').rec_stack ≡ st.rec_stack
      left_stack = ap (remove node) l.same_stack ∙ remove-insert_into

      left_path : (leave node st').path ≡ st.path
      left_path = ap pop_last l.same_path ∙ pop_last-append st.path node

      seen_after : (x : Text) → has x st.visited ≡ true → has x st'.visited ≡ true
      seen_after x h = l.grown x (ground (arith, has-insert_into x node st.visited))

      left-Finished : st'.cycles ≡ [] → Finished adj table closed (leave node st')
      left-Finished h =
          let f = l.good.finished h in
          let done_neighbors =
            λ (y : Text) (p : 1 ≤ edges node y adj). settled_done y f (settled y (edge_of y p) h) in
          record {
            done = f.done ++ node ∷ [];
            ordered =
                Ordered-append adj [] f.done node f.ordered
                  (remaining_zero f.done node adj done_neighbors);
            split = λ x. split_after x f;
          }
        where
          edge_of : (y : Text) → 1 ≤ edges node y adj → 1 ≤ count y (list_at node adj)
          edge_of y p = omega (arith, edges-list_at node y adj (table node))

          settled_done :
              (y : Text) (f : Finished adj table closed st')
              → (has y st'.visited ≡ true) × (has y st'.rec_stack ≡ false)
              → has y f.done ≡ true
          settled_done y f (seen, off) = ground (arith, f.split y)

          split_after :
              (x : Text) (f : Finished adj table closed st')
              → has x st'.visited
                ≡ (has x (f.done ++ node ∷ []) || has x (remove node st'.rec_stack))
          split_after x f =
              let stack = ap (has x) l.same_stack in
              let left = ap (has x) left_stack in
              ground (
                arith,
                f.split x,
                has-append_one x node f.done,
                has-insert_into x node st.rec_stack,
              )

      leave-Later : Later adj table closed st (leave node st')
      leave-Later = record {
        good = record {
          walk = subst (IsWalk adj) (sym left_path) g.walk;
          in_path = λ x h.
              subst (λ q. has x q ≡ true) (sym left_path)
                (g.in_path x (subst (λ r. has x r ≡ true) left_stack h));
          stacked = λ x h. seen_after x (g.stacked x (subst (λ r. has x r ≡ true) left_stack h));
          sound = l.good.sound;
          finished = left-Finished;
        };
        same_stack = left_stack;
        same_path = left_path;
        grown = seen_after;
        kept = l.kept;
      }

  -- The search from a node keeps its promise if the fuel is more than the nodes not yet visited.
  pub dfs-Promise : (fuel : ℕ) → Promise adj table closed (dfs_detect_cycle adj fuel) fuel
  unfolding dfs_detect_cycle
  dfs-Promise zero n st g unseen key walk bound = absurd (omega arith)
  dfs-Promise (suc fuel) n st g unseen key walk bound =
      let entered = enter-Good n st g unseen walk in
      let now = has-insert_into n n st.visited in
      let fewer =
        undone_insert n st.visited (insert_into n st.visited) (keys adj)
          (λ x h. ground (arith, has-insert_into x n st.visited)) unseen
          (ground (arith, text_eq_refl n)) key in
      let (st', e, l, settled) =
        visit_neighbors-Visited adj table closed (dfs_detect_cycle adj fuel) fuel (dfs-Promise fuel)
          n st.path (list_at n adj) (enter n st) (λ m h. h) entered refl (omega arith) in
      (
        leave n st',
        rw (e, dfs_detect_cycle) refl,
        leave-Later n st g unseen st' l settled,
        l.grown n (ground (arith, text_eq_refl n)),
      )

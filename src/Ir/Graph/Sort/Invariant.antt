-- ===== src/Ir/Graph/Sort/Invariant.antt =====
-- The invariant of Kahn's algorithm, its rounds and its end.
use siesta.Prelude.{
  ℕ, zero, suc, ◌+◌, ◌≤◌, ◌<◌, Text, text_eq, text_eq_iff, text_eq_refl, has, false, List, [], ◌∷◌,
  ◌++◌, some, if◌then◌else◌, ◌==◌, Dict, find, assign, keys, HashOrder, length, length-append, ℤ,
  pos, pred_ℤ, count, count-append, has-count, ◌≡◌, refl, arith, ap, ◌∙◌, Bool-cases, inl, inr,
  length-le_of_count, length-keys, append-nil, append_assoc, count-arrange,
}
use siesta.Ir.Graph.{list_at}
use siesta.Ir.Graph.Sort.{
  is_zero, degree_at, relax, process, Work, reverse_adjacency, processed, zero_degrees, add_degrees,
  ready,
}
use siesta.Ir.Graph.Sort.Counting.{
  Adjacency, edges, remaining, remaining-append, remaining-nil, edges-key, out_degree,
  edges-arrange, out_degree-arrange, reverse_adjacency-count,
}
use siesta.Ir.Graph.Sort.Degrees.{
  degree_at-assign, zero_degrees-degree_at, add_degrees-degree_at, zero_degrees-keys,
  add_degrees-keys, count-ready,
}

module _ (adj : Adjacency) where
  abbrev pub is_node : Text → ℕ
  is_node x = count x (keys adj)

  -- Each node comes behind the nodes that it has edges to.
  abbrev pub Ordered : List Text → List Text → Type 0
  Ordered before [] = Unit
  Ordered before (x ∷ xs) = (remaining before x adj ≡ 0) × Ordered (before ++ x ∷ []) xs

  pub Ordered-append :
      (before xs : List Text) (c : Text)
      → Ordered before xs
      → remaining (before ++ xs) c adj ≡ 0
      → Ordered before (xs ++ c ∷ [])
  Ordered-append before [] c h r = (rw append-nil at r, tt)
  Ordered-append before (x ∷ xs) c (p, h) r =
      (p, Ordered-append (before ++ x ∷ []) xs c h (rw append_assoc r))

  -- With the edges into the nodes of `pending` still to be taken away.
  pub record Inv (w : Work) (done pending : List Text) : Type 0 where
    pub degrees : (x : Text) → degree_at x w.degrees ≡ pos (remaining done x adj + count x pending)
    pub placed :
        (x : Text)
        → count x w.queue + count x done
          ≡ (if remaining done x adj + count x pending == 0 then is_node x else 0)
    pub nodes : (x : Text) → 1 ≤ count x pending → is_node x ≡ 1
    pub ordered : Ordered [] done

  abbrev after : Text → Work → Work
  after d w =
      let degree = pred_ℤ (degree_at d w.degrees) in
      record {
        degrees = assign d degree w.degrees;
        queue = if is_zero degree then w.queue ++ d ∷ [] else w.queue;
      }

  module _ (w : Work) (done : List Text) (d : Text) (ds : List Text) (i : Inv w done (d ∷ ds)) where
    at_d : degree_at d w.degrees ≡ pos (suc (remaining done d adj + count d ds))
    unfolding count
    at_d = ground (arith, i.degrees d, text_eq_refl d)

    after-degrees :
        (x : Text) → degree_at x (after d w).degrees ≡ pos (remaining done x adj + count x ds)
    unfolding count
    after-degrees x = ground (
      arith,
      at_d,
      i.degrees x,
      degree_at-assign d x (pred_ℤ (degree_at d w.degrees)) w.degrees,
      text_eq_iff d x,
      text_eq_iff x d,
    )

    after-queue :
        (x : Text)
        → count x (after d w).queue
          ≡ count x w.queue
            + (if text_eq x d then (if remaining done d adj + count d ds == 0 then 1 else 0) else 0)
    unfolding count
    after-queue x = ground (arith, at_d, count-append x w.queue (d ∷ []))

    after-placed :
        (x : Text)
        → count x (after d w).queue + count x done
          ≡ (if remaining done x adj + count x ds == 0 then is_node x else 0)
    after-placed x =
        let node = i.nodes d (unfold count in rw (text_eq_refl d) (omega arith)) in
        let before = i.placed x in
        rw (after-queue x) (unfold count in ground (arith, text_eq_iff x d))

    after-nodes : (x : Text) → 1 ≤ count x ds → is_node x ≡ 1
    after-nodes x p = i.nodes x (unfold count in ground arith)

    after-Inv : Inv (after d w) done ds
    after-Inv = record {
      degrees = after-degrees;
      placed = after-placed;
      nodes = after-nodes;
      ordered = i.ordered;
    }

  relax-Inv :
      (ds : List Text) (w : Work) (done : List Text) → Inv w done ds → Inv (relax ds w) done []
  unfolding relax
  relax-Inv [] w done i = i
  relax-Inv (d ∷ ds) w done i = relax-Inv ds (after d w) done (after-Inv w done d ds i)

module _ (adj : Adjacency) (simple : (x : Text) → is_node adj x ≤ 1) where
  module _ (c : Text) (q done : List Text) (degrees : Dict ℤ)
      (i : Inv adj (record { degrees = degrees; queue = c ∷ q }) done []) where
    current_facts : (has c done ≡ false) × (remaining done c adj ≡ 0)
    current_facts =
        let placed = i.placed c in
        let bound = simple c in
        (
          elim (Bool-cases (has c done)) [
            | inl e ↦ absurd (unfold count in ground (arith, has-count c done e, text_eq_refl c))
            | inr e ↦ e
          ],
          unfold count in ground (arith, text_eq_refl c),
        )

    pop-Inv :
        (deps : List Text)
        → ((x : Text) → count x deps ≡ edges x c adj)
        → Inv adj (record { degrees = degrees; queue = q }) (done ++ c ∷ []) deps
    pop-Inv deps counted =
        let (fresh, free) = current_facts in
        record {
          degrees = λ x.
              unfold count in
              ground (arith, i.degrees x, remaining-append done c x adj fresh, counted x);
          placed = λ x.
              unfold count in
              ground (
                arith,
                i.placed x,
                remaining-append done c x adj fresh,
                counted x,
                count-append x done (c ∷ []),
              );
          nodes = λ x p. omega (arith, simple x, edges-key x c adj (rw (← counted x) p));
          ordered = Ordered-append adj [] done c i.ordered free;
        }

  -- At most as many nodes are done as there are.
  done-le : (w : Work) (done : List Text) → Inv adj w done [] → length done ≤ length adj
  done-le w done i =
      rw (← length-keys adj)
        (length-le_of_count done (keys adj) (λ x. let placed = i.placed x in ground arith))

  module _ (rev : Adjacency)
      (reversed : (x c : Text) → count x (list_at c rev) ≡ edges x c adj) where
    -- The loop ends before the fuel does, with the queue empty.
    process-Inv :
        (fuel : ℕ) (degrees : Dict ℤ) (queue done : List Text)
        → Inv adj (record { degrees = degrees; queue = queue }) done []
        → length adj < fuel + length done
        → (result : List Text) × (process fuel rev degrees queue done ≡ some result)
          × ((left : Dict ℤ) × Inv adj (record { degrees = left; queue = [] }) result [])
    unfolding process
    process-Inv zero degrees queue done i h = absurd (omega (arith, done-le _ done i))
    process-Inv (suc fuel) degrees [] done i h = (done, refl, (degrees, i))
    process-Inv (suc fuel) degrees (c ∷ q) done i h =
        let deps = list_at c rev in
        let w : Work = record { degrees = degrees; queue = q } in
        let popped = pop-Inv c q done degrees i deps (λ x. reversed x c) in
        let w' = relax deps w in
        process-Inv fuel w'.degrees w'.queue (done ++ c ∷ [])
          (relax-Inv adj deps w (done ++ c ∷ []) popped)
          (omega (arith, length-append done (c ∷ [])))

  module _ (order : HashOrder) where
    rev-count :
        (x c : Text)
        → count x (list_at c (reverse_adjacency (order.arrange adj) [])) ≡ edges x c adj
    rev-count x c =
        reverse_adjacency-count x c (order.arrange adj) []
        ∙ ap (λ n. count x (list_at c []) + n) (edges-arrange order adj x c)
        ∙ (unfold count list_at find in omega arith)

    start_degrees : Dict ℤ
    start_degrees = add_degrees (order.arrange adj) (zero_degrees (order.arrange adj) [])

    start-degree_at : (x : Text) → degree_at x start_degrees ≡ pos (out_degree x adj)
    unfolding start_degrees
    start-degree_at x =
        add_degrees-degree_at x (order.arrange adj) (zero_degrees (order.arrange adj) []) (λ _. 0)
          (λ y. zero_degrees-degree_at y (order.arrange adj) [] (unfold degree_at find in refl))
        ∙ ap pos (omega (arith, out_degree-arrange order adj x))

    zeroed-keys : (x : Text) → count x (keys (zero_degrees (order.arrange adj) [])) ≡ is_node adj x
    zeroed-keys x =
        zero_degrees-keys x (order.arrange adj) []
        ∙ (unfold count in ground (arith, count-arrange order adj x, simple x))

    start-keys : (x : Text) → count x (keys start_degrees) ≡ is_node adj x
    unfolding start_degrees
    start-keys x =
        add_degrees-keys x (order.arrange adj) (zero_degrees (order.arrange adj) [])
          (λ y p. omega (arith, zeroed-keys y, count-arrange order adj y))
        ∙ zeroed-keys x

    start-Inv :
        Inv adj
          (record { degrees = start_degrees; queue = ready (order.arrange start_degrees) })
          []
          []
    start-Inv = record {
      degrees =
          λ x. start-degree_at x ∙ ap pos (unfold count in omega (arith, remaining-nil x adj));
      placed = λ x.
          unfold count in
          ground (
            arith,
            count-ready order x start_degrees (rw (start-keys x) (simple x)),
            start-keys x,
            start-degree_at x,
            remaining-nil x adj,
          );
      nodes = λ x p. absurd (unfold count in omega arith);
      ordered = tt;
    }

    -- The loop ends, with every node done that nothing keeps back, each once and in order.
    pub processed-Inv :
        (result : List Text) × (processed order adj ≡ some result)
        × ((left : Dict ℤ) × Inv adj (record { degrees = left; queue = [] }) result [])
    unfolding processed start_degrees
    processed-Inv =
        process-Inv (reverse_adjacency (order.arrange adj) []) rev-count (suc (length adj))
          start_degrees (ready (order.arrange start_degrees)) [] start-Inv (omega arith)

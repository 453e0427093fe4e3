-- ===== src/Ir/Graph/Sort/Degrees.antt =====
-- The in-degrees and the queue that Kahn's algorithm starts with.
use siesta.Prelude.{
  count-keys-assign, ℕ, ◌+◌, ◌≤◌, Text, text_eq, text_eq_iff, [], ◌∷◌, if◌then◌else◌, ◌==◌, ◌&&◌,
  Dict, find, assign, find-assign, keys, HashOrder, length, ℤ, pos, count, total, total-arrange,
  ◌≡◌, refl, arith, ap, ◌∙◌, add_ℕ, min, text_eq_refl,
}
use siesta.Ir.Graph.Sort.{is_zero, degree_at, zero_degrees, add_degrees, ready}
use siesta.Ir.Graph.Sort.Counting.{Adjacency, out_degree}

pub degree_at-assign :
    (k j : Text) (z : ℤ) (d : Dict ℤ)
    → degree_at j (assign k z d) ≡ (if text_eq k j then z else degree_at j d)
unfolding degree_at
degree_at-assign k j z d = ground (arith, find-assign k j z d)

pub zero_degrees-degree_at :
    (x : Text) (adj : Adjacency) (d : Dict ℤ)
    → degree_at x d ≡ pos 0
    → degree_at x (zero_degrees adj d) ≡ pos 0
unfolding zero_degrees
zero_degrees-degree_at x [] d h = h
zero_degrees-degree_at x ((f, tos) ∷ adj) d h =
    zero_degrees-degree_at x adj (assign f (pos 0) d)
      (ground (arith, degree_at-assign f x (pos 0) d))

pub add_degrees-degree_at :
    (x : Text) (adj : Adjacency) (d : Dict ℤ) (m : Text → ℕ)
    → ((y : Text) → degree_at y d ≡ pos (m y))
    → degree_at x (add_degrees adj d) ≡ pos (m x + out_degree x adj)
unfolding add_degrees out_degree
add_degrees-degree_at x [] d m h = h x ∙ ap pos (omega arith)
add_degrees-degree_at x ((f, tos) ∷ adj) d m h =
    add_degrees-degree_at x adj _ (λ y. if text_eq f y then m y + length tos else m y) (λ y. step y)
    ∙ ap pos (ground (arith, text_eq_iff f x, text_eq_iff x f))
  where
    step :
        (y : Text)
        → degree_at y (assign f (add_ℕ (degree_at f d) (length tos)) d)
          ≡ pos (if text_eq f y then m y + length tos else m y)
    step y = ground (
      arith,
      degree_at-assign f y (add_ℕ (degree_at f d) (length tos)) d,
      h y,
      h f,
      text_eq_iff f y,
    )

pub zero_degrees-keys :
    (x : Text) (adj : Adjacency) (d : Dict ℤ)
    → count x (keys (zero_degrees adj d))
      ≡ (if count x (keys d) == 0 then min 1 (count x (keys adj)) else count x (keys d))
unfolding zero_degrees count
zero_degrees-keys x [] d = ground arith
zero_degrees-keys x ((f, tos) ∷ adj) d =
    ground (arith, zero_degrees-keys x adj (assign f (pos 0) d), count-keys-assign x f (pos 0) d)

pub add_degrees-keys :
    (x : Text) (adj : Adjacency) (d : Dict ℤ)
    → ((y : Text) → 1 ≤ count y (keys adj) → 1 ≤ count y (keys d))
    → count x (keys (add_degrees adj d)) ≡ count x (keys d)
unfolding add_degrees count
add_degrees-keys x [] d h = refl
add_degrees-keys x ((f, tos) ∷ adj) d h =
    let z = add_ℕ (degree_at f d) (length tos) in
    let at_f = h f (rw (text_eq_refl f) (omega arith)) in
    let grown = λ (y : Text). count-keys-assign y f z d in
    add_degrees-keys x adj (assign f z d) (λ y p. later y z p (h y) (grown y))
    ∙ ground (arith, grown x, text_eq_iff x f)
  where
    later :
        (y : Text) (z : ℤ)
        → 1 ≤ count y (keys adj)
        → (1 ≤ count y (keys ((f, tos) ∷ adj)) → 1 ≤ count y (keys d))
        → count y (keys (assign f z d))
          ≡ (if text_eq y f && count y (keys d) == 0 then 1 else count y (keys d))
        → 1 ≤ count y (keys (assign f z d))
    later y z p q e = ground arith

ready_entry : Text → Text × ℤ → ℕ
ready_entry x (k, z) = if text_eq x k && is_zero z then 1 else 0

ready-total : (x : Text) (d : Dict ℤ) → count x (ready d) ≡ total (ready_entry x) d
unfolding ready count ready_entry
ready-total x [] = refl
ready-total x ((k, z) ∷ d) = ground (arith, ready-total x d)

no_key : (x : Text) (d : Dict ℤ) → count x (keys d) ≡ 0 → total (ready_entry x) d ≡ 0
unfolding count ready_entry
no_key x [] h = refl
no_key x ((k, z) ∷ d) h = ground (arith, no_key x d)

ready_of_degree :
    (x : Text) (d : Dict ℤ)
    → count x (keys d) ≤ 1
    → total (ready_entry x) d ≡ (if is_zero (degree_at x d) then count x (keys d) else 0)
unfolding count ready_entry degree_at find
ready_of_degree x [] h = refl
ready_of_degree x ((k, z) ∷ d) h =
    ground (arith, text_eq_iff k x, text_eq_iff x k, no_key x d, ready_of_degree x d)

-- The queue starts with the nodes of in-degree zero, whatever the order of iteration.
pub count-ready :
    (order : HashOrder) (x : Text) (d : Dict ℤ)
    → count x (keys d) ≤ 1
    → count x (ready (order.arrange d)) ≡ (if is_zero (degree_at x d) then count x (keys d) else 0)
count-ready order x d h =
    ready-total x (order.arrange d) ∙ total-arrange order d (ready_entry x) ∙ ready_of_degree x d h

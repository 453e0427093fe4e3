-- ===== src/Ir/Graph/Cycles/Walks.antt =====
-- Walks along the edges of a graph, and the cycle that the search copies from its path.
use siesta.Prelude.{
  ◌≤◌, Text, text_eq, text_eq_iff, has, true, false, List, [], ◌∷◌, ◌++◌, Dict, count, ◌≡◌, refl,
  arith, ap, Bool-cases, inl, inr,
}
use siesta.Ir.Graph.{list_at}
use siesta.Ir.Graph.Cycles.{cycle_from, pop_last}

module _ (adj : Dict (List Text)) where
  abbrev pub Edge : Text → Text → Type 0
  Edge x y = 1 ≤ count y (list_at x adj)

  -- Each text has an edge to the next one.
  abbrev pub IsWalk : List Text → Type 0
  IsWalk [] = Unit
  IsWalk (x ∷ []) = Unit
  IsWalk (x ∷ y ∷ xs) = Edge x y × IsWalk (y ∷ xs)

  -- A walk that comes back to where it began.
  pub record IsCycle (c : List Text) : Type 0 where
    pub start : Text
    pub between : List Text
    pub closed : c ≡ start ∷ between ++ start ∷ []
    pub walk : IsWalk c

  pub IsWalk-append :
      (xs : List Text) (a b : Text)
      → IsWalk (xs ++ a ∷ [])
      → Edge a b
      → IsWalk ((xs ++ a ∷ []) ++ b ∷ [])
  IsWalk-append [] a b w e = (e, tt)
  IsWalk-append (x ∷ []) a b w e = (w.0, (e, tt))
  IsWalk-append (x ∷ y ∷ xs) a b w e = (w.0, IsWalk-append (y ∷ xs) a b w.1 e)

  tail-IsWalk : (x : Text) (xs : List Text) → IsWalk (x ∷ xs) → IsWalk xs
  tail-IsWalk x [] w = tt
  tail-IsWalk x (y ∷ xs) w = w.1

  cycle_from-true : (n : Text) (path : List Text) → cycle_from true n path ≡ path
  unfolding cycle_from
  cycle_from-true n [] = refl
  cycle_from-true n (x ∷ path) = ap (λ (p : List Text). x ∷ p) (cycle_from-true n path)

  -- What the copying loop leaves of a path that ends in `a`: a walk from the neighbour to `a`.
  record Copied (n a : Text) (copy : List Text) : Type 0 where
    pub before : List Text
    pub behind : List Text
    pub to_a : copy ≡ before ++ a ∷ []
    pub from_n : copy ≡ n ∷ behind
    pub walk : IsWalk copy

  cycle_from-Copied :
      (n a : Text) (path : List Text)
      → IsWalk (path ++ a ∷ [])
      → has n (path ++ a ∷ []) ≡ true
      → Copied n a (cycle_from false n (path ++ a ∷ []))
  unfolding cycle_from has
  cycle_from-Copied n a [] w h = record {
    before = [];
    behind = [];
    to_a = ground (arith, text_eq_iff n a, text_eq_iff a n);
    from_n = ground (arith, text_eq_iff n a, text_eq_iff a n);
    walk = ground (arith, text_eq_iff n a, text_eq_iff a n);
  }
  cycle_from-Copied n a (x ∷ path) w h = elim (Bool-cases (text_eq x n)) [
    | inl e ↦
        rw (e, cycle_from-true n (path ++ a ∷ []))
          (record {
            before = x ∷ path;
            behind = path ++ a ∷ [];
            to_a = refl;
            from_n = ap (λ (t : Text). t ∷ path ++ a ∷ []) ((text_eq_iff x n).0 e);
            walk = w;
          })
    | inr e ↦ rw e (
        cycle_from-Copied n a path (tail-IsWalk x (path ++ a ∷ []) w)
          (ground (arith, text_eq_iff x n, text_eq_iff n x)))
  ]

  -- An edge from the end of the path back into the path closes a cycle.
  pub cycle_from-IsCycle :
      (n a : Text) (path : List Text)
      → IsWalk (path ++ a ∷ [])
      → has n (path ++ a ∷ []) ≡ true
      → Edge a n
      → IsCycle (cycle_from false n (path ++ a ∷ []) ++ n ∷ [])
  cycle_from-IsCycle n a path w h e =
      let c = cycle_from-Copied n a path w h in
      record {
        start = n;
        between = c.behind;
        closed = rw c.from_n refl;
        walk = rw c.to_a (IsWalk-append c.before a n (rw c.to_a at c.walk) e);
      }

pub pop_last-append : (xs : List Text) (a : Text) → pop_last (xs ++ a ∷ []) ≡ xs
unfolding pop_last
pop_last-append [] a = refl
pop_last-append (x ∷ []) a = refl
pop_last-append (x ∷ y ∷ xs) a = ap (λ (p : List Text). x ∷ p) (pop_last-append (y ∷ xs) a)

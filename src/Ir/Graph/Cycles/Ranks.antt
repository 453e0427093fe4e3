-- ===== src/Ir/Graph/Cycles/Ranks.antt =====
-- A numbering of the nodes along which edges go down excludes cycles, and an order of the nodes gives one.
use siesta.Prelude.{
  ℕ, suc, ◌≤◌, ◌<◌, Text, text_eq, text_eq_iff, has, true, false, List, [], ◌∷◌, ◌++◌,
  if◌then◌else◌, length, ◌≡◌, refl, arith, subst, text_eq_refl, Bool-cases, inl, inr, append_assoc,
}
use siesta.Ir.Graph.Sort.Counting.{Adjacency, edges, edges_done, edges-list_at, has-append_one}
use siesta.Ir.Graph.Sort.Invariant.{Ordered}
use siesta.Ir.Graph.Sort.Results.{IsTable, IsRank}
use siesta.Ir.Graph.Cycles.Walks.{IsWalk, IsCycle}

-- Where a text stands first; the length where it does not.
unfoldable pub index : Text → List Text → ℕ
index x [] = 0
index x (t ∷ ts) = if text_eq x t then 0 else suc (index x ts)

pub index-has : (y : Text) (b r : List Text) → has y b ≡ true → index y (b ++ r) < length b
unfolding index has
index-has y [] r h = cc
index-has y (t ∷ ts) r h = ground (arith, index-has y ts r)

index_behind : (x : Text) (b r : List Text) → has x b ≡ false → index x (b ++ x ∷ r) ≡ length b
unfolding index has
index_behind x [] r h = rw (text_eq_refl x) refl
index_behind x (t ∷ ts) r h = ground (arith, index_behind x ts r)

pub Ordered-index :
    (adj : Adjacency) (before xs : List Text) (x y : Text)
    → Ordered adj before xs
    → has x before ≡ false
    → has x xs ≡ true
    → 1 ≤ edges x y adj
    → index y (before ++ xs) < index x (before ++ xs)
unfolding has
Ordered-index adj before [] x y o out here e = cc
Ordered-index adj before (t ∷ ts) x y (free, o) out here e = elim (Bool-cases (text_eq x t)) [
  | inl same ↦
      let xt = (text_eq_iff x t).0 same in
      let y_before = edges_done before x y adj (rw xt free) e in
      omega (
        arith,
        index-has y before (t ∷ ts) y_before,
        subst (λ u. index x (before ++ u ∷ ts) ≡ length before) xt (index_behind x before ts out),
      )
  | inr other ↦ rw (← append_assoc before (t ∷ []) ts) (
      Ordered-index adj (before ++ t ∷ []) ts x y o (ground (arith, has-append_one x t before))
        (ground arith) e)
]

module _ (adj : Adjacency) (table : IsTable adj) (rank : Text → ℕ) (down : IsRank adj rank) where
  walk-down :
      (x : Text) (between : List Text) (z : Text)
      → IsWalk adj (x ∷ between ++ z ∷ [])
      → rank z < rank x
  walk-down x [] z w = down x z (omega (arith, edges-list_at x z adj (table x), w.0))
  walk-down x (y ∷ between) z w = omega (
    arith,
    down x y (omega (arith, edges-list_at x y adj (table x), w.0)),
    walk-down y between z w.1,
  )

  -- With such a numbering no cycle is possible.
  pub no_cycle : (c : List Text) → IsCycle adj c → ⊥
  no_cycle c i =
      let round = walk-down i.start i.between i.start (subst (IsWalk adj) i.closed i.walk) in
      absurd (omega arith)

-- ===== src/Ir/Graph/Types/Filtering.antt =====
-- Keeping the names of a set keeps their order, and completing adds what was missing.
use siesta.Prelude.{
  ◌+◌, ◌<◌, Text, text_eq_iff, has, true, List, [], ◌∷◌, ◌++◌, if◌then◌else◌, count, count-append,
  ◌≡◌, arith,
}
use siesta.Ir.Graph.Types.{keep_in, keep_out, complete}
use siesta.Ir.Graph.Cycles.Ranks.{index}

module _ (names : List Text) where
  pub count-keep_in :
      (x : Text) (xs : List Text)
      → count x (keep_in names xs) ≡ (if has x names then count x xs else 0)
  unfolding count keep_in
  count-keep_in x [] = ground arith
  count-keep_in x (t ∷ ts) = ground (arith, text_eq_iff x t, count-keep_in x ts)

  pub count-keep_out :
      (x : Text) (xs : List Text)
      → count x (keep_out names xs) ≡ (if has x names then 0 else count x xs)
  unfolding count keep_out
  count-keep_out x [] = ground arith
  count-keep_out x (t ∷ ts) = ground (arith, text_eq_iff x t, count-keep_out x ts)

  -- Of two texts that are kept the one that stood first stands first.
  pub index-keep_in :
      (x y : Text) (xs : List Text)
      → has x names ≡ true
      → has y names ≡ true
      → index y xs < index x xs
      → index y (keep_in names xs) < index x (keep_in names xs)
  unfolding index keep_in
  index-keep_in x y [] hx hy h = h
  index-keep_in x y (t ∷ ts) hx hy h =
      ground (arith, text_eq_iff x t, text_eq_iff y t, index-keep_in x y ts hx hy)

index_of_has : (y : Text) (b r : List Text) → has y b ≡ true → index y (b ++ r) ≡ index y b
unfolding index has
index_of_has y [] r h = cc
index_of_has y (t ∷ ts) r h = ground (arith, index_of_has y ts r)

pub count-complete :
    (x : Text) (kept names : List Text)
    → count x (complete kept names) ≡ count x kept + (if has x kept then 0 else count x names)
unfolding complete
count-complete x [] names = unfold count has in omega arith
count-complete x (k ∷ ks) names =
    omega
      (arith, count-append x (k ∷ ks) (keep_out (k ∷ ks) names), count-keep_out (k ∷ ks) x names)

pub index-complete :
    (x y : Text) (kept names : List Text)
    → has x kept ≡ true
    → has y kept ≡ true
    → index y kept < index x kept
    → index y (complete kept names) < index x (complete kept names)
unfolding complete
index-complete x y [] names hx hy h = absurd (unfold index in omega arith)
index-complete x y (k ∷ ks) names hx hy h = omega (
  arith,
  index_of_has x (k ∷ ks) (keep_out (k ∷ ks) names) hx,
  index_of_has y (k ∷ ks) (keep_out (k ∷ ks) names) hy,
)

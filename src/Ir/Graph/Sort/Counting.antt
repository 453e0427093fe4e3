-- ===== src/Ir/Graph/Sort/Counting.antt =====
-- What the tables of Kahn's algorithm hold, counted in the adjacency table.
use siesta.Prelude.{
  ℕ, suc, ◌+◌, ◌≤◌, Text, text_eq, text_eq_iff, text_eq_refl, has, true, false, List, [], ◌∷◌, ◌++◌,
  if◌then◌else◌, Dict, find, find-assign, keys, HashOrder, length, count, count-append, total,
  total-arrange, ◌≡◌, refl, arith, ap, ◌||◌, Bool-cases, inl, inr,
}
use siesta.Ir.Graph.{list_at, push_at, list_or_empty}
use siesta.Ir.Graph.Sort.{reverse_neighbors, reverse_adjacency}

abbrev pub Adjacency : Type 0
Adjacency = Dict (List Text)

-- How many of a list's texts are not among the done ones.
unfoldable pub undone : List Text → List Text → ℕ
undone done [] = 0
undone done (t ∷ ts) = if has t done then undone done ts else suc (undone done ts)

-- The numbers of edges out of `x`: all of them, those into `y`, and those into nodes not yet done.
abbrev out_of : Text → Text × List Text → ℕ
out_of x (f, tos) = if text_eq x f then length tos else 0

abbrev edges_of : Text → Text → Text × List Text → ℕ
edges_of x y (f, tos) = if text_eq x f then count y tos else 0

abbrev remaining_of : List Text → Text → Text × List Text → ℕ
remaining_of done x (f, tos) = if text_eq x f then undone done tos else 0

unfoldable pub out_degree : Text → Adjacency → ℕ
out_degree x adj = total (out_of x) adj

unfoldable pub edges : Text → Text → Adjacency → ℕ
edges x y adj = total (edges_of x y) adj

unfoldable pub remaining : List Text → Text → Adjacency → ℕ
remaining done x adj = total (remaining_of done x) adj

module _ (order : HashOrder) (adj : Adjacency) where
  pub out_degree-arrange : (x : Text) → out_degree x (order.arrange adj) ≡ out_degree x adj
  unfolding out_degree
  out_degree-arrange x = total-arrange order adj (out_of x)

  pub edges-arrange : (x y : Text) → edges x y (order.arrange adj) ≡ edges x y adj
  unfolding edges
  edges-arrange x y = total-arrange order adj (edges_of x y)

undone_all : (tos : List Text) → undone [] tos ≡ length tos
unfolding undone has
undone_all [] = refl
undone_all (t ∷ ts) = ap suc (undone_all ts)

pub remaining-nil : (x : Text) (adj : Adjacency) → remaining [] x adj ≡ out_degree x adj
unfolding remaining out_degree
remaining-nil x [] = refl
remaining-nil x ((f, tos) ∷ adj) = ground (arith, undone_all tos, remaining-nil x adj)

pub has-append_one :
    (t c : Text) (xs : List Text) → has t (xs ++ c ∷ []) ≡ (text_eq t c || has t xs)
unfolding has
has-append_one t c [] = refl
has-append_one t c (x ∷ xs) = ground (arith, has-append_one t c xs)

undone-append :
    (done : List Text) (c : Text) (tos : List Text)
    → has c done ≡ false
    → undone done tos ≡ undone (done ++ c ∷ []) tos + count c tos
unfolding undone count
undone-append done c [] h = omega arith
undone-append done c (t ∷ ts) h =
    ground
      (arith, has-append_one t c done, text_eq_iff t c, text_eq_iff c t, undone-append done c ts h)

-- Doing one more node takes away the edges into it.
pub remaining-append :
    (done : List Text) (c x : Text) (adj : Adjacency)
    → has c done ≡ false
    → remaining done x adj ≡ remaining (done ++ c ∷ []) x adj + edges x c adj
unfolding remaining edges
remaining-append done c x [] h = omega arith
remaining-append done c x ((f, tos) ∷ adj) h =
    ground (arith, undone-append done c tos h, remaining-append done c x adj h)

-- An edge starts at a node.
pub edges-key : (x y : Text) (adj : Adjacency) → 1 ≤ edges x y adj → 1 ≤ count x (keys adj)
unfolding edges count
edges-key x y [] h = h
edges-key x y ((f, tos) ∷ adj) h = ground (arith, edges-key x y adj)

undone_zero :
    (done tos : List Text)
    → ((y : Text) → 1 ≤ count y tos → has y done ≡ true)
    → undone done tos ≡ 0
unfolding undone count
undone_zero done [] h = refl
undone_zero done (t ∷ ts) h =
    let here = h t (rw (text_eq_refl t) (omega arith)) in
    rw here (undone_zero done ts (λ y p. h y (ground arith)))

-- With every target done nothing remains.
pub remaining_zero :
    (done : List Text) (x : Text) (adj : Adjacency)
    → ((y : Text) → 1 ≤ edges x y adj → has y done ≡ true)
    → remaining done x adj ≡ 0
unfolding remaining edges
remaining_zero done x [] h = refl
remaining_zero done x ((f, tos) ∷ adj) h =
    let rest = remaining_zero done x adj (λ y p. h y (ground arith)) in
    elim (Bool-cases (text_eq x f)) [
      | inl e ↦ rw e (omega (arith, undone_zero done tos (λ y p. h y (rw e (omega arith))), rest))
      | inr e ↦ rw e (omega (arith, rest))
    ]

-- Nothing remaining means that every target is done.
undone_done :
    (done tos : List Text) (y : Text) → undone done tos ≡ 0 → 1 ≤ count y tos → has y done ≡ true
unfolding undone count
undone_done done [] y h p = absurd (omega arith)
undone_done done (t ∷ ts) y h p = ground (arith, text_eq_iff y t, undone_done done ts y)

pub edges_done :
    (done : List Text) (x y : Text) (adj : Adjacency)
    → remaining done x adj ≡ 0
    → 1 ≤ edges x y adj
    → has y done ≡ true
unfolding remaining edges
edges_done done x y [] h p = absurd (omega arith)
edges_done done x y ((f, tos) ∷ adj) h p =
    ground (arith, undone_done done tos y, edges_done done x y adj)

pub list_at-push_at :
    (k j v : Text) (d : Adjacency)
    → list_at j (push_at k v d) ≡ (if text_eq k j then list_at j d ++ v ∷ [] else list_at j d)
unfolding list_at push_at
list_at-push_at k j v d =
    ground (arith, find-assign k j (list_or_empty (find k d) ++ v ∷ []) d, text_eq_iff k j)

reverse_neighbors-count :
    (x c from : Text) (tos : List Text) (rev : Adjacency)
    → count x (list_at c (reverse_neighbors from tos rev))
      ≡ count x (list_at c rev) + (if text_eq x from then count c tos else 0)
unfolding reverse_neighbors count
reverse_neighbors-count x c from [] rev = ground arith
reverse_neighbors-count x c from (to ∷ tos) rev = ground (
  arith,
  reverse_neighbors-count x c from tos (push_at to from rev),
  list_at-push_at to c from rev,
  count-append x (list_at c rev) (from ∷ []),
  text_eq_iff to c,
  text_eq_iff c to,
)

-- The dependents of a node, as often as they have an edge into it.
pub reverse_adjacency-count :
    (x c : Text) (adj rev : Adjacency)
    → count x (list_at c (reverse_adjacency adj rev)) ≡ count x (list_at c rev) + edges x c adj
unfolding reverse_adjacency edges
reverse_adjacency-count x c [] rev = omega arith
reverse_adjacency-count x c ((f, tos) ∷ adj) rev = omega (
  arith,
  reverse_adjacency-count x c adj (reverse_neighbors f tos rev),
  reverse_neighbors-count x c f tos rev,
)

-- With more done, less is undone.
pub undone_mono :
    (a b tos : List Text)
    → ((x : Text) → has x a ≡ true → has x b ≡ true)
    → undone b tos ≤ undone a tos
unfolding undone
undone_mono a b [] h = omega arith
undone_mono a b (t ∷ ts) h = ground (arith, h t, undone_mono a b ts h)

-- A node that gets done is one less.
pub undone_insert :
    (n : Text) (a b tos : List Text)
    → ((x : Text) → has x a ≡ true → has x b ≡ true)
    → has n a ≡ false
    → has n b ≡ true
    → 1 ≤ count n tos
    → suc (undone b tos) ≤ undone a tos
unfolding undone count
undone_insert n a b [] h fresh now p = absurd (omega arith)
undone_insert n a b (t ∷ ts) h fresh now p =
    ground (arith, h t, text_eq_iff n t, undone_insert n a b ts h, undone_mono a b ts h)

pub undone_le : (done tos : List Text) → undone done tos ≤ length tos
unfolding undone
undone_le done [] = omega arith
undone_le done (t ∷ ts) = ground (arith, undone_le done ts)

no_edges : (x y : Text) (adj : Adjacency) → count x (keys adj) ≡ 0 → edges x y adj ≡ 0
unfolding edges count
no_edges x y [] h = refl
no_edges x y ((f, tos) ∷ adj) h = ground (arith, no_edges x y adj)

-- In a table the edges out of a node are those of its list.
pub edges-list_at :
    (x y : Text) (adj : Adjacency)
    → count x (keys adj) ≤ 1
    → edges x y adj ≡ count y (list_at x adj)
unfolding edges count list_at find
edges-list_at x y [] h = refl
edges-list_at x y ((f, tos) ∷ adj) h =
    ground (arith, text_eq_iff x f, text_eq_iff f x, no_edges x y adj, edges-list_at x y adj)

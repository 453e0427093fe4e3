-- ===== src/Ir/Graph/Build.antt =====
-- The graph that is built from a schema: a table, closed under edges, whose edges are the recorded
-- dependencies.
use siesta.Prelude.{
  count-keys-assign, ℕ, ◌+◌, ◌≤◌, Text, text_eq, text_eq_iff, text_eq_refl, Bool, true, false, List,
  [], ◌∷◌, ◌++◌, some, ◌&&◌, if◌then◌else◌, Dict, find, find-assign, keys, HashOrder, count, total,
  total-append, ◌≡◌, refl, arith, Option-cases, inl, inr, count-append,
}
use siesta.Frontend.Ast.{
  TypeRef, Member, SchemaType, struct, variant, array, map_of, enumeration, primitive,
  NormalizedAst,
}
use siesta.Ir.Graph.{
  DepKind, Dependency, DependencyGraph, empty_graph, list_at, push_at, ensure_node, add_dependency,
  add_unless_synthetic, field_dependency, field_dependencies, ref_dependency, base_dependencies,
  alternative_dependency, alternative_dependencies, build_dependencies, build_from_types,
  build_from_ast, named, value, array_elem, map_value, base, variant_of, inner, contained,
}
use siesta.Ir.Graph.Sort.Counting.{Adjacency, edges, edges-list_at, list_at-push_at}
use siesta.Ir.Graph.Sort.Results.{IsTable, IsClosed}

abbrev pub links : Text → Text → Dependency → ℕ
links x y d = if text_eq x d.from.name && text_eq y d.to.name then 1 else 0

-- How many dependencies are recorded from one name to another.
abbrev pub recorded : Text → Text → List Dependency → ℕ
recorded x y ds = total (links x y) ds

pub record IsGraph (g : DependencyGraph) : Type 0 where
  pub table : IsTable g.adjacency
  pub closed : IsClosed g.adjacency
  pub exact : (x y : Text) → edges x y g.adjacency ≡ recorded x y g.dependencies

push_at-IsTable : (k v : Text) (adj : Adjacency) → IsTable adj → IsTable (push_at k v adj)
unfolding push_at
push_at-IsTable k v adj h x =
    ground (arith, count-keys-assign x k (list_at k adj ++ v ∷ []) adj, h x)

push_at-keys :
    (k v x : Text) (adj : Adjacency) → count x (keys adj) ≤ count x (keys (push_at k v adj))
unfolding push_at
push_at-keys k v x adj = ground (arith, count-keys-assign x k (list_at k adj ++ v ∷ []) adj)

ensure_node-IsTable : (k : Text) (adj : Adjacency) → IsTable adj → IsTable (ensure_node k adj)
unfolding ensure_node
ensure_node-IsTable k adj h x = ground (arith, count-keys-assign x k [] adj, h x)

ensure_node-keys :
    (k x : Text) (adj : Adjacency) → count x (keys adj) ≤ count x (keys (ensure_node k adj))
unfolding ensure_node
ensure_node-keys k x adj = ground (arith, count-keys-assign x k [] adj)

key_of_find :
    (k : Text) (v : List Text) (adj : Adjacency) → find k adj ≡ some v → 1 ≤ count k (keys adj)
unfolding find count
key_of_find k v [] h = cc
key_of_find k v ((j, w) ∷ adj) h =
    ground (arith, text_eq_iff j k, text_eq_iff k j, key_of_find k v adj)

ensure_node_self : (k : Text) (adj : Adjacency) → 1 ≤ count k (keys (ensure_node k adj))
unfolding ensure_node
ensure_node_self k adj = elim (Option-cases (find k adj)) [
  | inl e ↦ rw (e, ensure_node) (ground (arith, count-keys-assign k k [] adj, text_eq_refl k))
  | inr (v, e) ↦ rw (e, ensure_node) (key_of_find k v adj e)
]

list_at-ensure_node : (k x : Text) (adj : Adjacency) → list_at x (ensure_node k adj) ≡ list_at x adj
unfolding list_at ensure_node
list_at-ensure_node k x adj = ground (arith, find-assign k x [] adj, text_eq_iff k x)

module _ (from to : TypeRef) (kind : DepKind) (g : DependencyGraph) (i : IsGraph g) where
  pushed : Adjacency
  pushed = push_at from.name to.name g.adjacency

  added-IsTable : IsTable (add_dependency from to kind g).adjacency
  unfolding add_dependency
  added-IsTable =
      ensure_node-IsTable to.name (push_at from.name to.name g.adjacency)
        (push_at-IsTable from.name to.name g.adjacency i.table)

  -- A new dependency is one more edge.
  added-edges :
      (x y : Text)
      → edges x y (add_dependency from to kind g).adjacency
        ≡ edges x y g.adjacency + (if text_eq x from.name && text_eq y to.name then 1 else 0)
  added-edges x y =
      rw (edges-list_at x y (add_dependency from to kind g).adjacency (added-IsTable x)) (
        rw (edges-list_at x y g.adjacency (i.table x)) (
          unfold add_dependency count in
          ground (
            arith,
            list_at-ensure_node to.name x (push_at from.name to.name g.adjacency),
            list_at-push_at from.name x to.name g.adjacency,
            count-append y (list_at x g.adjacency) (to.name ∷ []),
            text_eq_iff from.name x,
            text_eq_iff x from.name,
          )))

  added-keys :
      (x : Text)
      → count x (keys g.adjacency) ≤ count x (keys (add_dependency from to kind g).adjacency)
  unfolding add_dependency
  added-keys x = omega (
    arith,
    push_at-keys from.name to.name x g.adjacency,
    ensure_node-keys to.name x (push_at from.name to.name g.adjacency),
  )

  added_target : 1 ≤ count to.name (keys (add_dependency from to kind g).adjacency)
  unfolding add_dependency
  added_target = ensure_node_self to.name (push_at from.name to.name g.adjacency)

  added_end :
      (y : Text)
      → text_eq y to.name ≡ true
      → 1 ≤ count y (keys (add_dependency from to kind g).adjacency)
  added_end y e = rw ((text_eq_iff y to.name).0 e) added_target

  pub add_dependency-IsGraph : IsGraph (add_dependency from to kind g)
  add_dependency-IsGraph = record {
    table = added-IsTable;
    closed = λ x y p. ground (arith, added-edges x y, i.closed x y, added-keys y, added_end y);
    exact = λ x y. rw (added-edges x y) (
        rw (i.exact x y) (
          unfold add_dependency in
          omega (
            arith,
            total-append (links x y) g.dependencies
                (record { from = from; to = to; kind = kind } ∷ []),
          )));
  }

if-IsGraph :
    (b : Bool) (g h : DependencyGraph) → IsGraph g → IsGraph h → IsGraph (if b then g else h)
if-IsGraph true g h i j = i
if-IsGraph false g h i j = j

module _ (name : Text) where
  add_unless_synthetic-IsGraph :
      (dep : Text) (kind : DepKind) (g : DependencyGraph)
      → IsGraph g
      → IsGraph (add_unless_synthetic name dep kind g)
  add_unless_synthetic-IsGraph dep kind g i =
      if-IsGraph _ _ g (add_dependency-IsGraph (named name) (named dep) kind g i) i

  field_dependency-IsGraph :
      (f : Member) (g : DependencyGraph) → IsGraph g → IsGraph (field_dependency name f g)
  unfolding field_dependency
  field_dependency-IsGraph f g i =
      if-IsGraph _ _ _ (add_dependency-IsGraph (named name) f.type value g i) (
        if-IsGraph _ _ _ (add_unless_synthetic-IsGraph (inner 12 f.type.name) array_elem g i)
          (if-IsGraph _ _ g (add_unless_synthetic-IsGraph (inner 22 f.type.name) map_value g i) i))

  field_dependencies-IsGraph :
      (fs : List Member) (g : DependencyGraph) → IsGraph g → IsGraph (field_dependencies name fs g)
  unfolding field_dependencies
  field_dependencies-IsGraph [] g i = i
  field_dependencies-IsGraph (f ∷ fs) g i =
      field_dependencies-IsGraph fs (field_dependency name f g) (field_dependency-IsGraph f g i)

  ref_dependency-IsGraph :
      (r : TypeRef) (kind : DepKind) (g : DependencyGraph)
      → IsGraph g
      → IsGraph (ref_dependency name r kind g)
  unfolding ref_dependency
  ref_dependency-IsGraph r kind g i =
      if-IsGraph _ _ g (add_dependency-IsGraph (named name) r kind g i) i

  base_dependencies-IsGraph :
      (bs : List TypeRef) (g : DependencyGraph) → IsGraph g → IsGraph (base_dependencies name bs g)
  unfolding base_dependencies
  base_dependencies-IsGraph [] g i = i
  base_dependencies-IsGraph (b ∷ bs) g i =
      base_dependencies-IsGraph bs (ref_dependency name b base g)
        (ref_dependency-IsGraph b base g i)

  alternative_dependency-IsGraph :
      (r : TypeRef) (g : DependencyGraph) → IsGraph g → IsGraph (alternative_dependency name r g)
  unfolding alternative_dependency
  alternative_dependency-IsGraph r g i =
      if-IsGraph _ _ _
        (if-IsGraph _ _ g
          (add_dependency-IsGraph (named name) (named (contained r.name)) variant_of g i) i)
        (add_dependency-IsGraph (named name) r variant_of g i)

  alternative_dependencies-IsGraph :
      (rs : List TypeRef) (g : DependencyGraph)
      → IsGraph g
      → IsGraph (alternative_dependencies name rs g)
  unfolding alternative_dependencies
  alternative_dependencies-IsGraph [] g i = i
  alternative_dependencies-IsGraph (r ∷ rs) g i =
      alternative_dependencies-IsGraph rs (alternative_dependency name r g)
        (alternative_dependency-IsGraph r g i)

  build_dependencies-IsGraph :
      (t : SchemaType) (g : DependencyGraph) → IsGraph g → IsGraph (build_dependencies name t g)
  unfolding build_dependencies
  build_dependencies-IsGraph (struct t) g i =
      base_dependencies-IsGraph t.all_of_bases (field_dependencies name t.fields g)
        (field_dependencies-IsGraph t.fields g i)
  build_dependencies-IsGraph (variant t) g i = alternative_dependencies-IsGraph t.alternatives g i
  build_dependencies-IsGraph (array t) g i = ref_dependency-IsGraph t.element_type array_elem g i
  build_dependencies-IsGraph (map_of t) g i = ref_dependency-IsGraph t.value_type map_value g i
  build_dependencies-IsGraph (enumeration t) g i = i
  build_dependencies-IsGraph (primitive t) g i = i

build_from_types-IsGraph :
    (types : Dict SchemaType) (g : DependencyGraph) → IsGraph g → IsGraph (build_from_types types g)
unfolding build_from_types
build_from_types-IsGraph [] g i = i
build_from_types-IsGraph ((name, type) ∷ types) g i =
    build_from_types-IsGraph types (build_dependencies name type g)
      (build_dependencies-IsGraph name type g i)

empty-IsGraph : IsGraph empty_graph
empty-IsGraph = record {
  table = λ x. unfold count in omega arith;
  closed = λ x y p. absurd (unfold edges in omega arith);
  exact = λ x y. unfold edges in refl;
}

-- The graph that is built from a schema is a table in which every target of an edge is a node and in
-- which there are as many edges from one name to another as dependencies were recorded, whatever the
-- schema and the order in which its table is iterated.
pub build_from_ast-IsGraph :
    (order : HashOrder) (ast : NormalizedAst) → IsGraph (build_from_ast order ast)
unfolding build_from_ast
build_from_ast-IsGraph order ast =
    build_from_types-IsGraph (order.arrange ast.types) empty_graph empty-IsGraph

-- ===== src/Ir/Graph.antt =====
-- generator/src/IR/DependencyGraph.hpp, DependencyGraph.cpp: the graph of dependencies between types
-- and its construction from the normalized schema.
pub mod Sort
pub mod Cycles
pub mod Build
pub mod Types
use siesta.Prelude.{
  ℕ, Text, lit, text_eq, Bool, true, false, List, [], ◌∷◌, ◌++◌, Option, none, some, not, ◌&&◌,
  if◌then◌else◌, Dict, find, assign, HashOrder, drop,
}
use siesta.Support.Names.{is_synthetic_cpp_type, starts_with}
use siesta.Frontend.Ast.{
  TypeRef, Member, StructType, VariantType, ArrayType, MapType, SchemaType, struct, variant, array,
  map_of, enumeration, primitive, NormalizedAst,
}

pub data DepKind : Type 0 where
  value variant_of base array_elem map_value : DepKind

pub record Dependency : Type 0 where
  pub from : TypeRef
  pub to : TypeRef
  pub kind : DepKind

pub record DependencyGraph : Type 0 where
  pub dependencies : List Dependency
  pub adjacency : Dict (List Text)

abbrev pub empty_graph : DependencyGraph
empty_graph = record { dependencies = []; adjacency = [] }

-- operator[] of a table of lists, read: a missing key has the empty list.
abbrev pub list_or_empty : Option (List Text) → List Text
list_or_empty none = []
list_or_empty (some l) = l

unfoldable pub list_at : Text → Dict (List Text) → List Text
unfolding find
list_at k d = list_or_empty (find k d)

-- d[k].push_back(v)
unfoldable pub push_at : Text → Text → Dict (List Text) → Dict (List Text)
unfolding assign list_at
push_at k v d = assign k (list_at k d ++ v ∷ []) d

-- The target is entered as a node too, if it is none.
unfoldable pub ensure_node : Text → Dict (List Text) → Dict (List Text)
unfolding assign find
ensure_node k d = elim (find k d) [ some _ ↦ d | none ↦ assign k [] d ]

unfoldable pub add_dependency : TypeRef → TypeRef → DepKind → DependencyGraph → DependencyGraph
unfolding push_at ensure_node
add_dependency from to kind g = record {
  dependencies = g.dependencies ++ record { from = from; to = to; kind = kind } ∷ [];
  adjacency = ensure_node to.name (push_at from.name to.name g.adjacency);
}

abbrev pub named : Text → TypeRef
named name = record { name = name; is_inline = false }

-- std::string::pop_back, which is not defined on the empty text, where this does nothing. A name that ends
-- right behind its prefix leads there; the parser's synthetic names end in `>`.
unfoldable pub pop_back : Text → Text
pop_back [] = []
pop_back (c ∷ []) = []
pop_back (c ∷ d ∷ s) = c ∷ pop_back (d ∷ s)

abbrev pub vector_prefix : Text
vector_prefix = lit "std::vector<"

abbrev pub map_prefix : Text
map_prefix = lit "std::map<std::string, "

-- `name.substr(n)` without its last character: what stands between the angle brackets.
abbrev pub inner : ℕ → Text → Text
inner n name = pop_back (drop n name)

abbrev pub add_unless_synthetic : Text → Text → DepKind → DependencyGraph → DependencyGraph
add_unless_synthetic name dep kind g =
    if not (is_synthetic_cpp_type dep) then add_dependency (named name) (named dep) kind g else g

-- One round of the loop over the fields of a struct.
unfoldable pub field_dependency : Text → Member → DependencyGraph → DependencyGraph
unfolding add_dependency is_synthetic_cpp_type starts_with pop_back
field_dependency name f g =
    if not (is_synthetic_cpp_type f.type.name)
    then add_dependency (named name) f.type value g
    else if starts_with vector_prefix f.type.name
    then add_unless_synthetic name (inner 12 f.type.name) array_elem g
    else if starts_with map_prefix f.type.name
    then add_unless_synthetic name (inner 22 f.type.name) map_value g
    else g

unfoldable pub field_dependencies : Text → List Member → DependencyGraph → DependencyGraph
unfolding field_dependency
field_dependencies name [] g = g
field_dependencies name (f ∷ fs) g = field_dependencies name fs (field_dependency name f g)

-- A reference that is entered under its own name, unless that is a C++ type.
unfoldable pub ref_dependency : Text → TypeRef → DepKind → DependencyGraph → DependencyGraph
unfolding add_dependency is_synthetic_cpp_type
ref_dependency name r kind g =
    if not (is_synthetic_cpp_type r.name) then add_dependency (named name) r kind g else g

unfoldable pub base_dependencies : Text → List TypeRef → DependencyGraph → DependencyGraph
unfolding ref_dependency
base_dependencies name [] g = g
base_dependencies name (b ∷ bs) g = base_dependencies name bs (ref_dependency name b base g)

-- `dep_type` of an alternative that is a C++ type; empty if it is no container.
abbrev pub contained : Text → Text
contained alt =
    if starts_with vector_prefix alt
    then inner 12 alt
    else if starts_with map_prefix alt
    then inner 22 alt
    else []

abbrev pub is_empty : Text → Bool
is_empty [] = true
is_empty (_ ∷ _) = false

unfoldable pub alternative_dependency : Text → TypeRef → DependencyGraph → DependencyGraph
unfolding add_dependency is_synthetic_cpp_type starts_with pop_back
alternative_dependency name alt g =
    if is_synthetic_cpp_type alt.name
    then if not (is_empty (contained alt.name)) && not (is_synthetic_cpp_type (contained alt.name))
      then add_dependency (named name) (named (contained alt.name)) variant_of g
      else g
    else add_dependency (named name) alt variant_of g

unfoldable pub alternative_dependencies : Text → List TypeRef → DependencyGraph → DependencyGraph
unfolding alternative_dependency
alternative_dependencies name [] g = g
alternative_dependencies name (r ∷ rs) g =
    alternative_dependencies name rs (alternative_dependency name r g)

unfoldable pub build_dependencies : Text → SchemaType → DependencyGraph → DependencyGraph
unfolding field_dependencies base_dependencies alternative_dependencies ref_dependency
build_dependencies name (struct t) g =
    base_dependencies name t.all_of_bases (field_dependencies name t.fields g)
build_dependencies name (variant t) g = alternative_dependencies name t.alternatives g
build_dependencies name (array t) g = ref_dependency name t.element_type array_elem g
build_dependencies name (map_of t) g = ref_dependency name t.value_type map_value g
build_dependencies name (enumeration t) g = g
build_dependencies name (primitive t) g = g

unfoldable pub build_from_types : Dict SchemaType → DependencyGraph → DependencyGraph
unfolding build_dependencies
build_from_types [] g = g
build_from_types ((name, type) ∷ types) g = build_from_types types (build_dependencies name type g)

unfoldable pub build_from_ast : HashOrder → NormalizedAst → DependencyGraph
unfolding build_from_types
build_from_ast order ast = build_from_types (order.arrange ast.types) empty_graph

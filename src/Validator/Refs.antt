-- ===== src/Validator/Refs.antt =====
-- jsonschema/src/schema_types.cpp: `collect_anchors`, `find_ref` and `compile`.
pub mod Found
use siesta.Prelude.{
  ℕ, Text, lit, Bool, true, false, List, [], ◌∷◌, ◌++◌, Option, none, some, if◌then◌else◌, Dict,
  find, find_byte, has,
}
use siesta.Frontend.Schema.{is_given}
use siesta.Validator.Json.{Json, Outside}
use siesta.Validator.Uri.{SchemaUri, parse_uri, uri_text}
use siesta.Validator.Node
use siesta.Validator.Node.{
  Keyword, Parent, root_parent, no_parent, Info, SchemaNode, node, Nodes, nil, cons, info,
}
use siesta.Validator.Run.{Outcome, done, threw, ◌>>=◌}
use siesta.Validator.Build.{BuildState, build_schema_tree, Built}

-- `root_node_`, `anchors_` and the keys of `ids_`.
pub record Compiled (D : Type 0) : Type 0 where
  pub root : SchemaNode D
  pub anchors : Dict (SchemaNode D)
  pub ids : List Text

-- A node, no node, or the address of a local variable that is gone.
pub data Target (D : Type 0) : Type 0 where
  found : SchemaNode D → Target D
  stale : Target D
  missing : Target D

abbrev pub fragment_of : Text → Option Text
fragment_of ref_uri = elim (find_byte b'#' ref_uri) [
  | some (_, behind) ↦ some (b'#' ∷ behind)
  | none ↦ none
]

module _ {D : Type 0} where
  abbrev pub put_absent :
      Option (SchemaNode D) → Text → SchemaNode D → Dict (SchemaNode D) → Dict (SchemaNode D)
  put_absent none key n d = d ++ (key, n) ∷ []
  put_absent (some _) key n d = d

  -- emplace(key, node): the first entry of a key stays
  unfoldable pub emplace : Text → SchemaNode D → Dict (SchemaNode D) → Dict (SchemaNode D)
  unfolding find
  emplace key n d = put_absent (find key d) key n d

  -- The entries of one node; those of `ids_` are there already.
  unfoldable pub register : SchemaNode D → Dict (SchemaNode D) → Dict (SchemaNode D)
  unfolding emplace uri_text
  register n d =
      let i = info n in
      let d₁ = if is_given i.anchor then emplace (uri_text i.uri) n d else d in
      let d₂ = if is_given i.dynamic_anchor then emplace i.dynamic_anchor n d₁ else d₁ in
      emplace (uri_text i.uri) n d₂

  unfoldable mutual
    unfolding register

    pub collect_anchors : SchemaNode D → Dict (SchemaNode D) → Dict (SchemaNode D)
    collect_anchors (node i ns) d = collect_children ns (register (node i ns) d)

    pub collect_children : Nodes D → Dict (SchemaNode D) → Dict (SchemaNode D)
    collect_children nil d = d
    collect_children (cons n ns) d = collect_children ns (collect_anchors n d)

  abbrev pub or_else : Option (SchemaNode D) → Target D → Target D
  or_else (some n) rest = found n
  or_else none rest = rest

  unfoldable pub find_ref : Compiled D → Text → Target D
  unfolding find find_byte has
  find_ref c ref_uri = or_else (find ref_uri c.anchors) (
      if has ref_uri c.ids then stale else elim (fragment_of ref_uri) [
        | none ↦ missing
        | some fragment ↦ or_else (find fragment c.anchors) (
            let base = (info c.root).uri.base in
            if is_given base then or_else (find (base ++ fragment) c.anchors) missing else missing)
      ])

  abbrev pub root_info : Text → Json D → Info D
  root_info base value = record {
    uri = record { base = base; fragment = lit "#" };
    id = [];
    anchor = [];
    dynamic_anchor = [];
    keyword = Keyword.schema;
    value = value;
    parent = no_parent;
  }

  -- The root behind `build_schema_tree`, and the tables.
  unfoldable pub with_anchors : Json D → Nodes D → BuildState → Compiled D
  unfolding collect_anchors
  with_anchors value ns st =
      let root = node (root_info st.root_base value) ns in
      record { root = root; anchors = collect_anchors root []; ids = st.ids }

-- `none` stands for the result false. What simdjson parses is given.
unfoldable pub compile :
    (o : Outside) → Option (Json o.Double) → Outcome (Option (Compiled o.Double))
unfolding build_schema_tree with_anchors parse_uri
compile o none = done none
compile o (some value) =
    build_schema_tree o.print_nat value true root_parent (parse_uri (lit "#"))
      (record { root_base = []; ids = [] })
    >>= λ r. done (some (with_anchors value r.0 r.1))

-- ===== src/Validator/Build.antt =====
-- jsonschema/src/schema_types.cpp: `build_schema_tree`, from a schema to its tree of nodes. The argument
-- `path`, which only the recursive calls read, is left out.
pub mod Keywords
use siesta.Prelude.{
  ℕ, suc, Text, lit, text_eq, Bool, true, false, List, [], ◌∷◌, ◌++◌, Option, none, some,
  if◌then◌else◌, ◌&&◌, not, has,
}
use siesta.Frontend.Schema.{is_given}
use siesta.Validator.Json
use siesta.Validator.Json.{
  Json, null, bool, int64, uint64, double, string, array, object, Items, Fields, end, field,
  get_string,
}
use siesta.Validator.Uri.{SchemaUri, parse_uri, uri_text}
use siesta.Validator.Node.{
  Keyword, keyword_of, Parent, no_parent, root_parent, dangling, Info, SchemaNode, node, Nodes, nil,
  cons, append_nodes,
}
use siesta.Validator.Run.{Outcome, done, threw, ◌>>=◌}

-- The base of the root's URI, and the keys of `ids_`. The pointers in `ids_` all are addresses of local
-- variables, and no later `emplace` replaces them.
pub record BuildState : Type 0 where
  pub root_base : Text
  pub ids : List Text

-- How a keyword's value is gone through. Two cases of the switch do the same, `plain`.
pub data Shape : Type 0 where
  unlisted definitions_of keyed listed plain : Shape

unfoldable pub shape_of : Keyword → Shape
shape_of Keyword.unknown = unlisted
shape_of Keyword.defs = definitions_of
shape_of Keyword.definitions = definitions_of
shape_of Keyword.properties = keyed
shape_of Keyword.pattern_properties = keyed
shape_of Keyword.dependent_required = keyed
shape_of Keyword.dependent_schemas = keyed
shape_of Keyword.all_of = listed
shape_of Keyword.any_of = listed
shape_of Keyword.one_of = listed
shape_of Keyword.prefix_items = listed
shape_of _ = plain

abbrev pub under : SchemaUri → Text → SchemaUri
under uri key = parse_uri (uri_text uri ++ b'/' ∷ key)

abbrev pub or_empty : Option Text → Text
or_empty none = []
or_empty (some s) = s

abbrev pub with_hash : Option Text → Text
with_hash none = []
with_hash (some s) = b'#' ∷ s

abbrev pub anchored : Option Text → SchemaUri → SchemaUri
anchored none uri = uri
anchored (some s) uri = record uri { fragment = b'#' ∷ s }

abbrev pub is_id : Keyword → Bool
is_id Keyword.id = true
is_id _ = false

abbrev pub is_anchor : Keyword → Bool
is_anchor Keyword.anchor = true
is_anchor _ = false

abbrev pub is_dynamic_anchor : Keyword → Bool
is_dynamic_anchor Keyword.dynamic_anchor = true
is_dynamic_anchor _ = false

unfoldable pub definition_uri : Bool → SchemaUri → Text → Text → SchemaUri
unfolding parse_uri uri_text
definition_uri top uri key name =
    if is_given uri.base && not (is_given uri.fragment) && top
    then parse_uri (uri.base ++ (lit "#/definitions/" ++ name))
    else parse_uri (uri_text uri ++ (b'/' ∷ key ++ b'/' ∷ name))

module _ {D : Type 0} where
  -- The text that a keyword's value gives, for this keyword only.
  abbrev pub text_for : Bool → Json D → Option Text
  text_for b v = if b then get_string v else none

  unfoldable pub child_info : Parent → Keyword → Text → Json D → SchemaUri → Info D
  unfolding parse_uri uri_text
  child_info link kw key value uri =
      let anchor = text_for (is_anchor kw) value in
      record {
        uri = anchored anchor (under uri key);
        id = or_empty (text_for (is_id kw) value);
        anchor = with_hash anchor;
        dynamic_anchor = with_hash (text_for (is_dynamic_anchor kw) value);
        keyword = kw;
        value = value;
        parent = link;
      }

  -- A node made by one of the loops: it has no anchors.
  abbrev pub bare_info : Parent → Keyword → Json D → SchemaUri → Info D
  bare_info link kw value uri = record {
    uri = uri;
    id = [];
    anchor = [];
    dynamic_anchor = [];
    keyword = kw;
    value = value;
    parent = link;
  }

  -- An `$id` is the URI of the fields behind it.
  unfoldable pub next_uri : Keyword → Json D → SchemaUri → SchemaUri
  unfolding parse_uri
  next_uri kw value uri = elim (text_for (is_id kw) value) [ some s ↦ parse_uri s | none ↦ uri ]

  -- It is entered in `ids_`, and where the node has no parent it is the base of the root's URI.
  unfoldable pub note_id : Bool → Keyword → Json D → BuildState → BuildState
  unfolding has
  note_id top kw value st = elim (text_for (is_id kw) value) [
    | some s ↦ record {
      root_base = if top then s else st.root_base;
      ids = if has s st.ids then st.ids else s ∷ st.ids;
    }
    | none ↦ st
  ]

abbrev pub Built : Type 0 → Type 0
Built D = Outcome (Nodes D × BuildState)

-- The case of the switch for a shape.
abbrev pub by_shape :
    {A : Type 0} → Shape → A → (Unit {0} → A) → (Unit {0} → A) → (Unit {0} → A) → (Unit {0} → A) → A
by_shape unlisted a f g h k = a
by_shape definitions_of a f g h k = f tt
by_shape keyed a f g h k = g tt
by_shape listed a f g h k = h tt
by_shape plain a f g h k = k tt

-- One node in front of those that follow.
abbrev pub put_node : {D : Type 0} → Info D → Nodes D → Built D → Built D
put_node i ns rest = rest >>= λ r. done (cons (node i ns) r.0, r.1)

module _ {D : Type 0} (print_nat : ℕ → Text) where
  unfoldable mutual
    unfolding shape_of child_info next_uri note_id definition_uri parse_uri uri_text keyword_of

    -- The children that a schema gives: `top` says that its node has no parent, `link` is what the
    -- children's pointers to it are worth.
    pub build_schema_tree : Json D → Bool → Parent → SchemaUri → BuildState → Built D
    build_schema_tree (object fs) top link uri st = build_fields fs top link uri st
    build_schema_tree _ top link uri st = done (nil, st)

    pub build_fields : Fields D → Bool → Parent → SchemaUri → BuildState → Built D
    build_fields end top link uri st = done (nil, st)
    build_fields (field key value fs) top link uri st =
        let kw = keyword_of key in
        let child = child_info link kw key value uri in
        let uri' = next_uri kw value uri in
        let st' = note_id top kw value st in
        by_shape (shape_of kw) (done (nil, st'))
          (λ _. build_definitions_of value top link kw key uri' st')
          (λ _. build_keyed_of value (under uri' key) st' >>= λ r.
            done (cons (node (bare_info no_parent kw value (under uri' key)) r.0) nil, r.1))
          (λ _. build_listed_of value (under uri' key) st')
          (λ _. build_schema_tree value false dangling child.uri st' >>= λ r.
            done (cons (node child r.0) nil, r.1))
        >>= λ h. build_fields fs top link uri' h.1 >>= λ r. done (append_nodes h.0 r.0, r.1)

    -- The loop over the definitions. Its nodes have the keyword and the value of the whole group.
    pub build_definitions_of :
        Json D → Bool → Parent → Keyword → Text → SchemaUri → BuildState → Built D
    build_definitions_of (object fs) top link kw key uri st =
        build_definitions fs (object fs) top link kw key uri st
    build_definitions_of _ top link kw key uri st = threw

    pub build_definitions :
        Fields D → Json D → Bool → Parent → Keyword → Text → SchemaUri → BuildState → Built D
    build_definitions end group top link kw key uri st = done (nil, st)
    build_definitions (field name value fs) group top link kw key uri st =
        let here = definition_uri top uri key name in
        build_schema_tree value false dangling here st >>= λ r.
        put_node (bare_info link kw group here) r.0
          (build_definitions fs group top link kw key uri r.1)

    -- The loop over properties and the like.
    pub build_keyed_of : Json D → SchemaUri → BuildState → Built D
    build_keyed_of (object fs) uri st = build_keyed fs uri st
    build_keyed_of _ uri st = threw

    pub build_keyed : Fields D → SchemaUri → BuildState → Built D
    build_keyed end uri st = done (nil, st)
    build_keyed (field name value fs) uri st =
        let here = under uri name in
        build_schema_tree value true dangling here st >>= λ r.
        put_node (bare_info no_parent Keyword.unknown value here) r.0 (build_keyed fs uri r.1)

    -- The loop over `allOf`, `anyOf`, `oneOf` and `prefixItems`.
    pub build_listed_of : Json D → SchemaUri → BuildState → Built D
    build_listed_of (array xs) uri st = build_listed xs 0 uri st
    build_listed_of _ uri st = threw

    pub build_listed : Items D → ℕ → SchemaUri → BuildState → Built D
    build_listed Json.nil index uri st = done (nil, st)
    build_listed (Json.cons value xs) index uri st =
        let here = under uri (print_nat index) in
        build_schema_tree value true dangling here st >>= λ r.
        put_node (bare_info no_parent Keyword.unknown value here) r.0
          (build_listed xs (suc index) uri r.1)

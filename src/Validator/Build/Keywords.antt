-- ===== src/Validator/Build/Keywords.antt =====
-- What holds of the nodes of a schema tree, by what holds of the schema.
use siesta.Prelude.{ℕ, suc, Text, Bool, ◌≢◌}
use siesta.Validator.Json
use siesta.Validator.Json.{Json, array, object, Items, Fields, end, field}
use siesta.Validator.Uri.{SchemaUri}
use siesta.Validator.Node.{
  Keyword, keyword_of, Parent, no_parent, dangling, SchemaNode, Nodes, nil, cons, append_nodes,
  info, Every, AllEvery,
}
use siesta.Validator.Run.{Outcome, done, threw, undefined, out_of_fuel, ◌>>=◌}
use siesta.Validator.Build.{
  BuildState, Shape, unlisted, definitions_of, keyed, listed, plain, shape_of, by_shape,
  build_schema_tree, build_fields, build_definitions_of, build_definitions, build_keyed_of,
  build_keyed, build_listed_of, build_listed, child_info,
}

-- What a result is, or else what is allowed.
abbrev pub Ensures : {A : Type 0} → Type 0 → (A → Type 0) → Outcome A → Type 0
Ensures Allowed Q (done a) = Q a
Ensures Allowed Q _ = Allowed

Ensures-bind :
    {A B : Type 0} (Allowed : Type 0) (Q : A → Type 0) (R : B → Type 0) (out : Outcome A)
    (f : A → Outcome B)
    → Ensures Allowed Q out
    → ((a : A) → Q a → Ensures Allowed R (f a))
    → Ensures Allowed R (out >>= f)
Ensures-bind Allowed Q R (done a) f h k = k a h
Ensures-bind Allowed Q R threw f h k = h
Ensures-bind Allowed Q R undefined f h k = h
Ensures-bind Allowed Q R out_of_fuel f h k = h

-- What is asked of a keyword's value, by the shape of the keyword.
abbrev pub ForShape : Shape → Type 0 → Type 0 → Type 0 → Type 0 → Type 0
ForShape unlisted F G H K = Unit
ForShape definitions_of F G H K = F
ForShape keyed F G H K = G
ForShape listed F G H K = H
ForShape plain F G H K = K

pub ForShape-any :
    {F G H K : Type 0} (s : Shape)
    → (s ≢ listed → F)
    → (s ≢ listed → G)
    → H
    → (s ≢ listed → K)
    → ForShape s F G H K
ForShape-any unlisted f g h k = tt
ForShape-any definitions_of f g h k = f (λ e. cc)
ForShape-any keyed f g h k = g (λ e. cc)
ForShape-any listed f g h k = h
ForShape-any plain f g h k = k (λ e. cc)

by_shape-Ensures :
    {A F G H K : Type 0} (Allowed : Type 0) (Q : A → Type 0) (s : Shape) (a : Outcome A)
    (f g h k : Unit {0} → Outcome A)
    → Ensures Allowed Q a
    → (F → Ensures Allowed Q (f tt))
    → (G → Ensures Allowed Q (g tt))
    → (H → Ensures Allowed Q (h tt))
    → (K → Ensures Allowed Q (k tt))
    → ForShape s F G H K
    → Ensures Allowed Q (by_shape s a f g h k)
by_shape-Ensures Allowed Q unlisted a f g h k pa pf pg ph pk x = pa
by_shape-Ensures Allowed Q definitions_of a f g h k pa pf pg ph pk x = pf x
by_shape-Ensures Allowed Q keyed a f g h k pa pf pg ph pk x = pg x
by_shape-Ensures Allowed Q listed a f g h k pa pf pg ph pk x = ph x
by_shape-Ensures Allowed Q plain a f g h k pa pf pg ph pk x = pk x

-- Every node of a tree has a keyword with the property.
abbrev pub Has : (Keyword → Type 0) → {D : Type 0} → SchemaNode D → Type 0
Has P = Every (λ n. P (info n).keyword)

module _ {D : Type 0} (Allowed : Type 0) (P : Keyword → Json D → Parent → Type 0) where
  abbrev pub Holds : SchemaNode D → Type 0
  Holds n = P (info n).keyword (info n).value (info n).parent

  abbrev pub AllHold : Nodes D → Type 0
  AllHold = AllEvery Holds

  -- What a schema must be so that `P` holds of every node it gives: of each key that gives a node, with
  -- the value and with what the pointer to the parent is worth; and a value that the loops go
  -- through is an object, or an array, unless it is allowed that it is not. Keys that give no node, such as the names
  -- under `properties`, and the values of keys that are not in the table are free.
  abbrev mutual
    pub Keys : Parent → Json D → Type 0
    Keys link (object fs) = FieldKeys link fs
    Keys link _ = Unit

    pub FieldKeys : Parent → Fields D → Type 0
    FieldKeys link end = Unit
    FieldKeys link (field key v fs) =
        ForShape (shape_of (keyword_of key)) (P (keyword_of key) v link × NamedKeys v)
          (P (keyword_of key) v no_parent × NamedKeys v) (ListKeys v)
          (P (keyword_of key) v link × Keys dangling v)
        × FieldKeys link fs

    pub NamedKeys : Json D → Type 0
    NamedKeys (object fs) = EachKeys fs
    NamedKeys _ = Allowed

    pub EachKeys : Fields D → Type 0
    EachKeys end = Unit
    EachKeys (field name v fs) = Keys dangling v × EachKeys fs

    pub ListKeys : Json D → Type 0
    ListKeys (array xs) = ItemKeys xs
    ListKeys _ = Allowed

    pub ItemKeys : Items D → Type 0
    ItemKeys Json.nil = Unit
    ItemKeys (Json.cons x xs) = Keys dangling x × ItemKeys xs

  append_nodes-AllHold : (ns ms : Nodes D) → AllHold ns → AllHold ms → AllHold (append_nodes ns ms)
  append_nodes-AllHold nil ms h k = k
  append_nodes-AllHold (cons n ns) ms (h, hs) k = (h, append_nodes-AllHold ns ms hs k)

module _ {D : Type 0} (Allowed : Type 0) (P : Keyword → Json D → Parent → Type 0)
    (print_nat : ℕ → Text) (unnamed : (v : Json D) → P Keyword.unknown v no_parent) where
  abbrev Good : Nodes D × BuildState → Type 0
  Good r = AllHold Allowed P r.0

  then_good :
      {A : Type 0} (Q : A → Type 0) (out : Outcome A) (f : A → Outcome (Nodes D × BuildState))
      → Ensures Allowed Q out
      → ((a : A) → Q a → Ensures Allowed Good (f a))
      → Ensures Allowed Good (out >>= f)
  then_good Q out f h k = Ensures-bind Allowed Q Good out f h k

  mutual
    unfolding build_schema_tree build_fields build_definitions_of build_definitions build_keyed_of
        build_keyed build_listed_of build_listed child_info

    pub build_schema_tree-Good :
        (v : Json D) (top : Bool) (link : Parent) (uri : SchemaUri) (st : BuildState)
        → Keys Allowed P link v
        → Ensures Allowed Good (build_schema_tree print_nat v top link uri st)
    build_schema_tree-Good (object fs) top link uri st h = fields-Good fs top link uri st h
    build_schema_tree-Good _ top link uri st h = tt

    fields-Good :
        (fs : Fields D) (top : Bool) (link : Parent) (uri : SchemaUri) (st : BuildState)
        → FieldKeys Allowed P link fs
        → Ensures Allowed Good (build_fields print_nat fs top link uri st)
    fields-Good end top link uri st h = tt
    fields-Good (field key value fs) top link uri st (x, hs) =
        then_good Good _ _
          (by_shape-Ensures Allowed Good (shape_of (keyword_of key)) _ _ _ _ _ tt
            (λ (p, hv). definitions_of-Good value top link (keyword_of key) key _ _ p hv)
            (λ (p, hv). then_good Good _ _ (keyed_of-Good value _ _ hv) λ r g. ((p, g), tt))
            (λ hv. listed_of-Good value _ _ hv)
            (λ (p, hv).
              then_good Good _ _ (build_schema_tree-Good value _ _ _ _ hv) λ r g. ((p, g), tt))
            x)
          λ a g.
            then_good Good _ _ (fields-Good fs top link _ a.1 hs)
              λ r k. append_nodes-AllHold Allowed P a.0 r.0 g k

    definitions_of-Good :
        (v : Json D) (top : Bool) (link : Parent) (kw : Keyword) (key : Text) (uri : SchemaUri)
        (st : BuildState)
        → P kw v link
        → NamedKeys Allowed P v
        → Ensures Allowed Good (build_definitions_of print_nat v top link kw key uri st)
    definitions_of-Good (object fs) top link kw key uri st p h =
        definitions-Good fs (object fs) top link kw key uri st p h
    definitions_of-Good _ top link kw key uri st p h = h

    definitions-Good :
        (fs : Fields D) (group : Json D) (top : Bool) (link : Parent) (kw : Keyword) (key : Text)
        (uri : SchemaUri) (st : BuildState)
        → P kw group link
        → EachKeys Allowed P fs
        → Ensures Allowed Good (build_definitions print_nat fs group top link kw key uri st)
    definitions-Good end group top link kw key uri st p h = tt
    definitions-Good (field name value fs) group top link kw key uri st p (hv, hs) =
        then_good Good _ _ (build_schema_tree-Good value _ _ _ st hv) λ r g.
          then_good Good _ _ (definitions-Good fs group top link kw key uri r.1 p hs)
            λ q k. ((p, g), k)

    keyed_of-Good :
        (v : Json D) (uri : SchemaUri) (st : BuildState)
        → NamedKeys Allowed P v
        → Ensures Allowed Good (build_keyed_of print_nat v uri st)
    keyed_of-Good (object fs) uri st h = keyed-Good fs uri st h
    keyed_of-Good _ uri st h = h

    keyed-Good :
        (fs : Fields D) (uri : SchemaUri) (st : BuildState)
        → EachKeys Allowed P fs
        → Ensures Allowed Good (build_keyed print_nat fs uri st)
    keyed-Good end uri st h = tt
    keyed-Good (field name value fs) uri st (hv, hs) =
        then_good Good _ _ (build_schema_tree-Good value _ _ _ st hv)
          λ r g. then_good Good _ _ (keyed-Good fs uri r.1 hs) λ q k. ((unnamed value, g), k)

    listed_of-Good :
        (v : Json D) (uri : SchemaUri) (st : BuildState)
        → ListKeys Allowed P v
        → Ensures Allowed Good (build_listed_of print_nat v uri st)
    listed_of-Good (array xs) uri st h = listed-Good xs 0 uri st h
    listed_of-Good _ uri st h = h

    listed-Good :
        (xs : Items D) (index : ℕ) (uri : SchemaUri) (st : BuildState)
        → ItemKeys Allowed P xs
        → Ensures Allowed Good (build_listed print_nat xs index uri st)
    listed-Good Json.nil index uri st h = tt
    listed-Good (Json.cons value xs) index uri st (hv, hs) =
        then_good Good _ _ (build_schema_tree-Good value _ _ _ st hv) λ r g.
          then_good Good _ _ (listed-Good xs (suc index) uri r.1 hs) λ q k. ((unnamed value, g), k)

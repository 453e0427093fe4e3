-- ===== src/Validator/Refs/Found.antt =====
-- `collect_anchors` and `find_ref`: the URI of every node resolves.
use siesta.Prelude.{
  Text, Bool, true, false, [], ◌∷◌, ◌++◌, Option, none, some, if◌then◌else◌, Dict, find, ◌≡◌, refl,
  text_eq_refl, arith, subst, lit,
}
use siesta.Frontend.Schema.{is_given}
use siesta.Validator.Json.{Json, Outside}
use siesta.Validator.Uri.{uri_text, parse_uri}
use siesta.Validator.Node.{
  root_parent, SchemaNode, node, Nodes, nil, cons, info, Every, AllEvery, Every-map,
}
use siesta.Validator.Run.{Outcome, done, threw, undefined, out_of_fuel, ◌>>=◌}
use siesta.Validator.Build.{BuildState, build_schema_tree}
use siesta.Validator.Refs.{
  Compiled, put_absent, emplace, register, collect_anchors, collect_children, found, find_ref,
  compile, with_anchors,
}

find-append_some :
    {V : Type 0} (k : Text) (d e : Dict V) (v : V) → find k d ≡ some v → find k (d ++ e) ≡ some v
unfolding find
find-append_some k [] e v h = cc
find-append_some k ((j, w) ∷ d) e v h = ground (arith, find-append_some k d e v)

find-append_none :
    {V : Type 0} (k : Text) (d : Dict V) (v : V)
    → find k d ≡ none
    → find k (d ++ (k, v) ∷ []) ≡ some v
unfolding find
find-append_none k [] v h = rw (text_eq_refl k) refl
find-append_none k ((j, w) ∷ d) v h = ground (arith, find-append_none k d v)

module _ {D : Type 0} where
  -- The key has an entry, and it is the one that it had before.
  abbrev Present : Text → Dict (SchemaNode D) → Type 0
  Present k d = (m : SchemaNode D) × (find k d ≡ some m)

  abbrev Extends : Dict (SchemaNode D) → Dict (SchemaNode D) → Type 0
  Extends d e = (k : Text) (m : SchemaNode D) → find k d ≡ some m → find k e ≡ some m

  put_absent-Extends :
      (old : Option (SchemaNode D)) (key : Text) (n : SchemaNode D) (d : Dict (SchemaNode D))
      → Extends d (put_absent old key n d)
  put_absent-Extends none key n d k m h = find-append_some k d ((key, n) ∷ []) m h
  put_absent-Extends (some a) key n d k m h = h

  put_absent-Present :
      (old : Option (SchemaNode D)) (key : Text) (n : SchemaNode D) (d : Dict (SchemaNode D))
      → find key d ≡ old
      → Present key (put_absent old key n d)
  put_absent-Present none key n d e = (n, find-append_none key d n e)
  put_absent-Present (some a) key n d e = (a, e)

  emplace-Extends :
      (key : Text) (n : SchemaNode D) (d : Dict (SchemaNode D)) → Extends d (emplace key n d)
  unfolding emplace
  emplace-Extends key n d = put_absent-Extends (find key d) key n d

  if-Extends :
      (b : Bool) (key : Text) (n : SchemaNode D) (d : Dict (SchemaNode D))
      → Extends d (if b then emplace key n d else d)
  if-Extends true key n d k m h = emplace-Extends key n d k m h
  if-Extends false key n d k m h = h

  register-Extends : (n : SchemaNode D) (d : Dict (SchemaNode D)) → Extends d (register n d)
  unfolding register
  register-Extends n d k m h = emplace-Extends (uri_text (info n).uri) n _ k m (
      if-Extends (is_given (info n).dynamic_anchor) (info n).dynamic_anchor n _ k m
        (if-Extends (is_given (info n).anchor) (uri_text (info n).uri) n d k m h))

  register-Present :
      (n : SchemaNode D) (d : Dict (SchemaNode D)) → Present (uri_text (info n).uri) (register n d)
  unfolding register emplace
  register-Present n d = put_absent-Present _ (uri_text (info n).uri) n _ refl

  mutual
    unfolding collect_anchors collect_children

    collect_anchors-Extends :
        (n : SchemaNode D) (d : Dict (SchemaNode D)) → Extends d (collect_anchors n d)
    collect_anchors-Extends (node i ns) d k m h =
        collect_children-Extends ns (register (node i ns) d) k m
          (register-Extends (node i ns) d k m h)

    collect_children-Extends :
        (ns : Nodes D) (d : Dict (SchemaNode D)) → Extends d (collect_children ns d)
    collect_children-Extends nil d k m h = h
    collect_children-Extends (cons n ns) d k m h =
        collect_children-Extends ns (collect_anchors n d) k m (collect_anchors-Extends n d k m h)

  -- The URI of a node has an entry.
  abbrev Registered : Dict (SchemaNode D) → SchemaNode D → Type 0
  Registered d n = Present (uri_text (info n).uri) d

  Registered-Extends :
      (d e : Dict (SchemaNode D))
      → Extends d e
      → (n : SchemaNode D) → Registered d n
      → Registered e n
  Registered-Extends d e x n (m, h) = (m, x _ m h)

  mutual
    unfolding collect_anchors collect_children

    collect_anchors-Every :
        (n : SchemaNode D) (d : Dict (SchemaNode D)) → Every (Registered (collect_anchors n d)) n
    collect_anchors-Every (node i ns) d = (
      Registered-Extends (register (node i ns) d) _
          (collect_children-Extends ns (register (node i ns) d)) (node i ns)
          (register-Present (node i ns) d),
      collect_children-Every ns (register (node i ns) d),
    )

    collect_children-Every :
        (ns : Nodes D) (d : Dict (SchemaNode D)) → AllEvery (Registered (collect_children ns d)) ns
    collect_children-Every nil d = tt
    collect_children-Every (cons n ns) d = (
      Every-map (Registered (collect_anchors n d)) _
          (Registered-Extends (collect_anchors n d) _
            (collect_children-Extends ns (collect_anchors n d)))
          n (collect_anchors-Every n d),
      collect_children-Every ns (collect_anchors n d),
    )

  -- A reference to the node is found.
  abbrev pub Resolves : Compiled D → SchemaNode D → Type 0
  Resolves c n = (m : SchemaNode D) × (find_ref c (uri_text (info n).uri) ≡ found m)

  Registered-Resolves : (c : Compiled D) (n : SchemaNode D) → Registered c.anchors n → Resolves c n
  unfolding find_ref
  Registered-Resolves c n (m, h) = (m, rw h refl)

  pub with_anchors-Every :
      (value : Json D) (ns : Nodes D) (st : BuildState)
      → Every (Resolves (with_anchors value ns st)) (with_anchors value ns st).root
  unfolding with_anchors
  with_anchors-Every value ns st =
      let c = with_anchors value ns st in
      Every-map (Registered c.anchors) (Resolves c) (Registered-Resolves c) c.root
        (collect_anchors-Every c.root [])

-- What `compile` has built, when it succeeds.
abbrev pub BuiltAs :
    (o : Outside)
    → Json o.Double
    → Compiled o.Double
    → Outcome (Nodes o.Double × BuildState)
    → Type 0
BuiltAs o v c built =
    (r : Nodes o.Double × BuildState) × ((built ≡ done r) × (with_anchors v r.0 r.1 ≡ c))

pub compile-BuiltAs :
    (o : Outside) (v : Json o.Double) (c : Compiled o.Double)
    → compile o (some v) ≡ done (some c)
    → BuiltAs o v c (
        build_schema_tree o.print_nat v true root_parent
          (parse_uri (lit "#"))
          (record { root_base = []; ids = [] }))
unfolding compile
compile-BuiltAs o v c e =
    invert (build_schema_tree o.print_nat v true root_parent (parse_uri (lit "#")) _) e
  where
    invert :
        (built : Outcome (Nodes o.Double × BuildState))
        → (built >>= λ r. done (some (with_anchors v r.0 r.1))) ≡ done (some c)
        → BuiltAs o v c built
    invert (done r) e = (r, (refl, cc))
    invert threw e = cc
    invert undefined e = cc
    invert out_of_fuel e = cc

-- In a compiled schema, `$ref` with the URI of any node of the tree is found: it never is an error
-- and never a node that is gone.
pub compile-Resolves :
    (o : Outside) (v : Json o.Double) (c : Compiled o.Double)
    → compile o (some v) ≡ done (some c)
    → Every (Resolves c) c.root
compile-Resolves o v c e =
    let (r, (_, same)) = compile-BuiltAs o v c e in
    subst (λ k. Every (Resolves k) k.root) same (with_anchors-Every v r.0 r.1)

-- ===== src/Validator/Check/Trees.antt =====
-- Compiled schemas: the keywords that their trees lack, and how far their validation goes.
use siesta.Prelude.{
  arith, ℕ, suc, ◌+◌, Bool, true, List, lit, [], some, ◌≡◌, ◌≢◌, refl, subst, inl, inr, ◌⊎◌,
}
use siesta.Validator.Json
use siesta.Validator.Json.{Json, array, object, Items, Fields, end, field, Outside}
use siesta.Validator.Node.{Keyword, keyword_of, Parent, root_parent, dangling, Nodes}
use siesta.Validator.Refs.{Compiled, compile, with_anchors}
use siesta.Validator.Refs.Found.{compile-BuiltAs}
use siesta.Validator.Run.{Outcome, done, threw, undefined, out_of_fuel, ◌>>=◌, ValidationError}
use siesta.Validator.Build.{shape_of, listed, BuildState, build_schema_tree}
use siesta.Validator.Build.Keywords.{
  Has, AllHold, Keys, ItemKeys, FieldKeys, NamedKeys, EachKeys, ListKeys, Ensures, ForShape-any,
  build_schema_tree-Good,
}
use siesta.Validator.Check.{validate, passed, no_context}
use siesta.Validator.Check.Ending.{height, IsSoundTree, validate_node-done}
use siesta.Validator.Check.Soundness.{Sound}
use siesta.Validator.Uri.{parse_uri}

-- A property of the keywords that `compile` makes, by what holds of the schema.
compile-Has :
    (P : Keyword → Type 0) (o : Outside) (v : Json o.Double) (c : Compiled o.Double)
    → P Keyword.unknown
    → P Keyword.schema
    → Keys Unit (λ k w link. P k) root_parent v
    → compile o (some v) ≡ done (some c)
    → Has P c.root
unfolding with_anchors
compile-Has P o v c unnamed root h e =
    let (r, (built, same)) = compile-BuiltAs o v c e in
    subst (λ k. Has P k.root) same
      (
        root,
        subst (Ensures Unit (λ r. AllHold Unit (λ k w link. P k) r.0)) built
            (build_schema_tree-Good Unit (λ k w link. P k) o.print_nat (λ w. unnamed) v _ _ _ _ h),
      )

-- The keywords that get no node of their own.
abbrev pub IsListed : Keyword → Type 0
IsListed k =
    (k ≡ Keyword.all_of)
    ⊎ ((k ≡ Keyword.any_of) ⊎ ((k ≡ Keyword.one_of) ⊎ (k ≡ Keyword.prefix_items)))

IsListed-listed : (k : Keyword) → IsListed k → shape_of k ≡ listed
unfolding shape_of
IsListed-listed k (inl e) = rw e refl
IsListed-listed k (inr (inl e)) = rw e refl
IsListed-listed k (inr (inr (inl e))) = rw e refl
IsListed-listed k (inr (inr (inr e))) = rw e refl

abbrev Unlisted : {D : Type 0} → Keyword → Json D → Parent → Type 0
Unlisted k v link = IsListed k → ⊥

mutual
  Keys-Unlisted : {D : Type 0} (link : Parent) (v : Json D) → Keys Unit Unlisted link v
  Keys-Unlisted link (object fs) = FieldKeys-Unlisted link fs
  Keys-Unlisted link _ = tt

  FieldKeys-Unlisted :
      {D : Type 0} (link : Parent) (fs : Fields D) → FieldKeys Unit Unlisted link fs
  FieldKeys-Unlisted link end = tt
  FieldKeys-Unlisted link (field key v fs) =
      let own : shape_of (keyword_of key) ≢ listed → IsListed (keyword_of key) → ⊥ =
        λ unlisted l. unlisted (IsListed-listed (keyword_of key) l) in
      (
        ForShape-any (shape_of (keyword_of key)) (λ s. (own s, NamedKeys-Unlisted v))
            (λ s. (own s, NamedKeys-Unlisted v)) (ListKeys-Unlisted v)
            (λ s. (own s, Keys-Unlisted dangling v)),
        FieldKeys-Unlisted link fs,
      )

  NamedKeys-Unlisted : {D : Type 0} (v : Json D) → NamedKeys Unit Unlisted v
  NamedKeys-Unlisted (object fs) = EachKeys-Unlisted fs
  NamedKeys-Unlisted _ = tt

  EachKeys-Unlisted : {D : Type 0} (fs : Fields D) → EachKeys Unit Unlisted fs
  EachKeys-Unlisted end = tt
  EachKeys-Unlisted (field name v fs) = (Keys-Unlisted dangling v, EachKeys-Unlisted fs)

  ListKeys-Unlisted : {D : Type 0} (v : Json D) → ListKeys Unit Unlisted v
  ListKeys-Unlisted (array xs) = ItemKeys-Unlisted xs
  ListKeys-Unlisted _ = tt

  ItemKeys-Unlisted : {D : Type 0} (xs : Items D) → ItemKeys Unit Unlisted xs
  ItemKeys-Unlisted Json.nil = tt
  ItemKeys-Unlisted (Json.cons x xs) = (Keys-Unlisted dangling x, ItemKeys-Unlisted xs)

-- No node of a compiled schema has one of the keywords `allOf`, `anyOf`, `oneOf` and `prefixItems`,
-- which `validate_node` has cases for.
pub compile-unlisted :
    (o : Outside) (v : Json o.Double) (c : Compiled o.Double)
    → compile o (some v) ≡ done (some c)
    → Has (λ k. IsListed k → ⊥) c.root
compile-unlisted o v c e =
    compile-Has (λ k. IsListed k → ⊥) o v c (λ h. ground arith) (λ h. ground arith)
      (Keys-Unlisted root_parent v) e

-- A schema is well made if it gives sound nodes only, and the loops over its definitions, properties
-- and lists have an object or an array to go through.
abbrev pub IsWellMade : {D : Type 0} → Json D → Type 0
IsWellMade = Keys ⊥ (Sound ⊥) root_parent

-- The answer that a compiled schema gives with fuel above its height.
abbrev pub Answers : (o : Outside) → Compiled o.Double → ℕ → Json o.Double → Type 0
Answers o c extra instance =
    (r : Bool × List ValidationError) × (validate o c (suc (height c.root) + extra) (inr instance)
      ≡ done r)

IsSoundTree-Answers :
    (o : Outside) (c : Compiled o.Double) (extra : ℕ) (instance : Json o.Double)
    → IsSoundTree c.root
    → Answers o c extra instance
unfolding validate
IsSoundTree-Answers o c extra instance h =
    let fuel = suc (height c.root) + extra in
    let (after, e) =
      validate_node-done o c fuel c.root instance (lit "#") [] (no_context o c []) h
        (omega arith) in
    (passed o c after, rw e refl)

-- For a schema in which no key that gives a node is `$ref`, `if` and `additionalItems` stand at the top
-- only, `enum` and `required` have arrays and what the loops of build_schema_tree go through is an
-- object or an array (names of properties are free): it compiles, and the validation of every
-- instance gives an answer. It throws nothing, reads no pointer that is gone, and any fuel above the
-- height of the compiled tree is enough.
pub validate-done :
    (o : Outside) (v instance : Json o.Double) (extra : ℕ)
    → IsWellMade v
    → (c : Compiled o.Double) × ((compile o (some v) ≡ done (some c)) × Answers o c extra instance)
unfolding compile with_anchors
validate-done o v instance extra h =
    compiled (build_schema_tree o.print_nat v true root_parent (parse_uri (lit "#")) _)
      (build_schema_tree-Good ⊥ (Sound ⊥) o.print_nat (λ w. tt) v _ _ _ _ h)
  where
    compiled :
        (built : Outcome (Nodes o.Double × BuildState))
        → Ensures ⊥ (λ r. AllHold ⊥ (Sound ⊥) r.0) built
        → (c : Compiled o.Double) × (((built >>= λ r. done (some (with_anchors v r.0 r.1)))
              ≡ done (some c))
            × Answers o c extra instance)
    compiled (done r) g = (
      with_anchors v r.0 r.1,
      (refl, IsSoundTree-Answers o (with_anchors v r.0 r.1) extra instance (tt, g)),
    )
    compiled threw g = absurd g
    compiled undefined g = absurd g
    compiled out_of_fuel g = absurd g

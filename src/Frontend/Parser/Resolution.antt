-- ===== src/Frontend/Parser/Resolution.antt =====
-- Every name that the parsed types need is a type that the parser entered, or the name of a `$ref`.
mod Steps
pub mod Results
use siesta.Prelude.{
  All-assign, count, count-keys-assign, keys, ◌≤◌, Text, has, Bool, true, false, List, [], ◌∷◌,
  ◌++◌, not, ◌||◌, Dict, find, assign, find-assign, All, All-append, All-map, ◌≡◌, refl, arith,
  text_eq_iff, text_eq, text_eq_refl, Bool-cases, inl, inr,
}
use siesta.Frontend.Ast.{
  TypeRef, StructType, SchemaType, struct, NormalizedAst, has_type, add_type, is_some,
}
use siesta.Frontend.Ast.Validation.{references}
use siesta.Frontend.Schema
use siesta.Frontend.Schema.{
  JsonSchema, plain, Schemas, nil, cons, Properties, end, property, is_ref,
}
use siesta.Frontend.Parser.{ParseState, add_once, extract_type_ref}

module _ (allowed : List Text) where
  -- A reference of the document has its name among the allowed ones.
  abbrev pub IsAllowed : JsonSchema → Type 0
  IsAllowed s = (not (is_ref s) || has (extract_type_ref s).name allowed) ≡ true

  abbrev mutual
    pub IsScoped : JsonSchema → Type 0
    IsScoped (JsonSchema.array h items) = IsAllowed items × IsScoped items
    IsScoped (plain kind h one_of any_of all_of props) =
        AllScoped one_of × (AllScoped any_of × (AllScoped all_of × PropertiesScoped props))

    pub AllScoped : Schemas → Type 0
    AllScoped nil = Unit
    AllScoped (cons s ss) = IsAllowed s × (IsScoped s × AllScoped ss)

    pub PropertiesScoped : Properties → Type 0
    PropertiesScoped end = Unit
    PropertiesScoped (property n s ps) = IsAllowed s × (IsScoped s × PropertiesScoped ps)

  abbrev pub IsKnown : ParseState → Text → Type 0
  IsKnown st n = (has_type st.ast n || has n allowed) ≡ true

  -- Every name that the entered types need is known, no name stands twice in the table, and what counts
  -- as entered is entered.
  pub record IsResolved (st : ParseState) : Type 0 where
    pub types : All (λ e. All (IsKnown st) (references e.1)) st.ast.types
    pub table : (n : Text) → count n (keys st.ast.types) ≤ 1
    pub entered : (n : Text) → has n st.added_types ≡ true → has_type st.ast n ≡ true

  -- A step of the parser that gives something which needs these names.
  pub record Step (names : List Text) (st st' : ParseState) : Type 0 where
    pub resolved : IsResolved st'
    pub grown : (n : Text) → has_type st.ast n ≡ true → has_type st'.ast n ≡ true
    pub known : All (IsKnown st') names

  pub IsKnown-grown :
      (st st' : ParseState) (names : List Text)
      → ((n : Text) → has_type st.ast n ≡ true → has_type st'.ast n ≡ true)
      → All (IsKnown st) names
      → All (IsKnown st') names
  IsKnown-grown st st' names g h =
      All-map {P = IsKnown st} {Q = IsKnown st'} names (λ n k. ground (arith, g n)) h

  pub Step-none : (st : ParseState) → IsResolved st → Step [] st st
  Step-none st i = record { resolved = i; grown = λ n h. h; known = tt }

  -- One step after another needs what both need.
  pub Step-append :
      (xs ys : List Text) {a b c : ParseState} → Step xs a b → Step ys b c → Step (xs ++ ys) a c
  Step-append xs ys {b = b} {c = c} s t = record {
    resolved = t.resolved;
    grown = λ n h. t.grown n (s.grown n h);
    known = All-append (IsKnown c) xs ys (IsKnown-grown b c xs t.grown s.known) t.known;
  }

  pub has_type-add_type :
      (name n : Text) (t : SchemaType) (ast : NormalizedAst)
      → has_type ast n ≡ true
      → has_type (add_type name t ast) n ≡ true
  unfolding has_type add_type
  has_type-add_type name n t ast h = ground (arith, find-assign name n t ast.types)

  pub has_type-add_type_self :
      (name : Text) (t : SchemaType) (ast : NormalizedAst)
      → has_type (add_type name t ast) name ≡ true
  unfolding has_type add_type
  has_type-add_type_self name t ast =
      ground (arith, find-assign name name t ast.types, text_eq_refl name)

  -- Entering a type whose needs are known.
  pub add_type-Step :
      (name : Text) (t : SchemaType) (st : ParseState) (added : List Text)
      → IsResolved st
      → All (IsKnown st) (references t)
      → ((n : Text) → has n added ≡ true → has_type (add_type name t st.ast) n ≡ true)
      → Step [] st (record { ast = add_type name t st.ast; added_types = added })
  add_type-Step name t st added i known entered =
      let st' : ParseState = record { ast = add_type name t st.ast; added_types = added } in
      let g = λ (n : Text) (h : has_type st.ast n ≡ true). has_type-add_type name n t st.ast h in
      record {
        resolved = record {
          types =
              unfold add_type in
              All-assign (λ e. All (IsKnown st') (references e.1)) name t st.ast.types
                (All-map {P = λ e. All (IsKnown st) (references e.1)} st.ast.types
                  (λ e h. IsKnown-grown st st' (references e.1) g h) i.types)
                (λ j. IsKnown-grown st st' (references t) g known);
          table = λ n.
              unfold add_type in ground (arith, count-keys-assign n name t st.ast.types, i.table n);
          entered = entered;
        };
        grown = g;
        known = tt;
      }

  pub add_once-Step :
      (mangled : Text) (t : StructType) (st : ParseState)
      → IsResolved st
      → All (IsKnown st) (references (struct t))
      → Step [] st (add_once mangled t st)
  unfolding add_once
  add_once-Step mangled t st i known = elim (Bool-cases (has mangled st.added_types)) [
    | inl e ↦ rw (e, add_once) (Step-none st i)
    | inr e ↦
        rw (e, add_once)
          (add_type-Step mangled (struct (record t { name = mangled })) st
            (mangled ∷ st.added_types) i known (λ n h. entered n h))
  ]
    where
      entered :
          (n : Text)
          → has n (mangled ∷ st.added_types) ≡ true
          → has_type (add_type mangled (struct (record t { name = mangled })) st.ast) n ≡ true
      entered n h =
          let t' = struct (record t { name = mangled }) in
          elim (Bool-cases (text_eq n mangled)) [
            | inl e ↦ rw ((text_eq_iff n mangled).0 e) (has_type-add_type_self mangled t' st.ast)
            | inr e ↦
                has_type-add_type mangled n t' st.ast (i.entered n (unfold has in ground arith))
          ]

  -- The name under which a struct was entered is known.
  pub add_once_self :
      (mangled : Text) (t : StructType) (st : ParseState)
      → IsResolved st
      → has_type (add_once mangled t st).ast mangled ≡ true
  unfolding add_once
  add_once_self mangled t st i = elim (Bool-cases (has mangled st.added_types)) [
    | inl e ↦ rw (e, add_once) (i.entered mangled e)
    | inr e ↦
        rw (e, add_once)
          (has_type-add_type_self mangled (struct (record t { name = mangled })) st.ast)
  ]

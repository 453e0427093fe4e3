-- ===== src/Frontend/Parser/Resolution/Results.antt =====
-- The parser as a whole.
use siesta.Prelude.{
  if_cases, Text, lit, Bool, true, List, [], ◌∷◌, ◌++◌, not, if◌then◌else◌, All, All-append, ◌≡◌,
  arith, Bool-cases, inl, inr, length, append-nil,
}
use siesta.Frontend.Ast.{TypeRef, SchemaType, Member}
use siesta.Frontend.Ast.Validation.{needed, needed_refs, field_refs, names_of, references}
use siesta.Frontend.Schema.{
  JsonSchema, plain, Schemas, nil, cons, Properties, end, property, is_ref, is_given, head,
}
use siesta.Frontend.Parser.{
  Printing, ParseState, parse_schema, parse_properties, build_variant, implicit_bases,
  extract_type_ref, is_unknown, is_nil, member, inline_member, alternative_of, base_of,
  element_name,
}
use siesta.Frontend.Parser.Resolution.{
  IsAllowed, IsScoped, AllScoped, PropertiesScoped, IsKnown, IsResolved, Step, Step-none,
  Step-append,
}
use siesta.Frontend.Parser.Resolution.Steps.{
  Step-keep, inline_member-Step, inline_array-Step, alternative_of-Step, base_of-Step,
  allowed-IsKnown, ref_bases-IsKnown, dispatch-Step, needed_refs-append, names_of-append,
}

module _ (std : Printing) (allowed : List Text) where
  needed-IsKnown :
      (r : TypeRef) (st : ParseState)
      → IsKnown allowed st r.name
      → All (IsKnown allowed st) (needed r)
  needed-IsKnown r st k = elim (Bool-cases r.is_inline) [ inl e ↦ rw e tt | inr e ↦ rw e (k, tt) ]

  by_ref-Step :
      (s : JsonSchema) (st : ParseState)
      → IsAllowed allowed s
      → IsResolved allowed st
      → is_ref s ≡ true
      → Step allowed (needed (extract_type_ref s)) st st
  by_ref-Step s st ok i r =
      Step-keep allowed (needed (extract_type_ref s)) st st
        (needed-IsKnown (extract_type_ref s) st (allowed-IsKnown allowed s st ok r))
        (Step-none allowed st i)

  -- A reference that is given comes from a `$ref`.
  is_ref-given : (s : JsonSchema) → is_given (extract_type_ref s).name ≡ true → is_ref s ≡ true
  unfolding extract_type_ref
  is_ref-given s h = ground arith

  Step-then :
      {xs ys : List Text} {a b c : ParseState}
      → Step allowed xs a b
      → Step allowed ys b c
      → Step allowed ys a c
  Step-then s t = record {
    resolved = t.resolved;
    grown = λ n h. t.grown n (s.grown n h);
    known = t.known;
  }

  refs-snoc :
      (alts : List TypeRef) (r : TypeRef) (st : ParseState)
      → All (IsKnown allowed st) (needed_refs alts)
      → IsKnown allowed st r.name
      → All (IsKnown allowed st) (needed_refs (alts ++ r ∷ []))
  refs-snoc alts r st k n =
      rw (needed_refs-append alts (r ∷ []), append-nil (needed r))
        (All-append (IsKnown allowed st) (needed_refs alts) (needed r) k (needed-IsKnown r st n))

  names-snoc :
      (bases : List TypeRef) (r : TypeRef) (st : ParseState)
      → All (IsKnown allowed st) (names_of bases)
      → IsKnown allowed st r.name
      → All (IsKnown allowed st) (names_of (bases ++ r ∷ []))
  names-snoc bases r st k n =
      rw (names_of-append bases (r ∷ []))
        (All-append (IsKnown allowed st) (names_of bases) (r.name ∷ []) k (n, tt))

  mutual
    unfolding parse_schema parse_properties build_variant implicit_bases

    pub parse_schema-Step :
        (s : JsonSchema) (name : Text) (st : ParseState)
        → IsScoped allowed s
        → IsResolved allowed st
        → Step allowed (references (parse_schema std s name st).0) st (parse_schema std s name st).1
    parse_schema-Step (JsonSchema.array h items) name st (ok, sub) i =
        let under = element_name std name st in
        let p = parse_schema std items under st in
        if_cases (λ (r : SchemaType × ParseState). Step allowed (references r.0) st r.1)
          (is_ref items) (by_ref-Step items st ok i)
          (λ e.
            inline_array-Step allowed h under p.0 st p.1 (parse_schema-Step items under st sub i))
    parse_schema-Step (plain kind h one_of any_of all_of props) name st (os, (ns, (bs, ps))) i =
        let b = implicit_bases-Step all_of name [] st bs i tt in
        let b0 = (if is_unknown kind then (implicit_bases std all_of name [] st).1 else st) in
        let i0 : IsResolved allowed b0 = elim (Bool-cases (is_unknown kind)) [
          | inl e ↦ rw e b.resolved
          | inr e ↦ rw e i
        ] in
        dispatch-Step allowed std kind h name (not (is_nil one_of)) (not (is_nil any_of)) _ st
          (record {
            one_of = build_variant-Step one_of name [] st os i tt;
            any_of = build_variant-Step any_of name [] st ns i tt;
            refs = ref_bases-IsKnown allowed all_of st bs;
            bases = b;
            fields = parse_properties-Step (is_unknown kind) props name b0 ps i0;
          })
          i

    parse_properties-Step :
        (implicit : Bool) (props : Properties) (name : Text) (st : ParseState)
        → PropertiesScoped allowed props
        → IsResolved allowed st
        → Step allowed
            (needed_refs (field_refs (parse_properties std implicit props name st).0))
            st
            (parse_properties std implicit props name st).1
    parse_properties-Step implicit end name st h i = Step-none allowed st i
    parse_properties-Step implicit (property prop_name s props) name st (ok, (sub, rest)) i =
        let under = if implicit then [] else name ++ (lit "_" ++ prop_name) in
        let p = parse_schema std s under st in
        let m = inline_member name prop_name s p in
        let here =
          if is_ref s
          then (member prop_name (head s).description (extract_type_ref s), st)
          else m in
        let one =
          if_cases (λ (r : Member × ParseState). Step allowed (needed r.0.type) st r.1) (is_ref s)
            {x = (member prop_name (head s).description (extract_type_ref s), st)} {y = m}
            (by_ref-Step s st ok i)
            (λ e.
              inline_member-Step allowed name prop_name s p.0 st p.1
                (parse_schema-Step s under st sub i)) in
        Step-append allowed (needed here.0.type) _ one
          (parse_properties-Step implicit props name here.1 rest one.resolved)

    build_variant-Step :
        (ss : Schemas) (name : Text) (alts : List TypeRef) (st : ParseState)
        → AllScoped allowed ss
        → IsResolved allowed st
        → All (IsKnown allowed st) (needed_refs alts)
        → Step allowed
            (needed_refs (build_variant std ss name alts st).0)
            st
            (build_variant std ss name alts st).1
    build_variant-Step nil name alts st h i k =
        Step-keep allowed (needed_refs alts) st st k (Step-none allowed st i)
    build_variant-Step (cons s ss) name alts st (ok, (sub, rest)) i k =
        let r = extract_type_ref s in
        let p = parse_schema std s (name ++ lit "_inline") st in
        let q = alternative_of std name alts p in
        let here = if is_given r.name then (alts ++ r ∷ [], st) else q in
        let one =
          if_cases (λ (x : List TypeRef × ParseState). Step allowed (needed_refs x.0) st x.1)
            (is_given r.name) {x = (alts ++ r ∷ [], st)} {y = q}
            (λ e.
              Step-keep allowed (needed_refs (alts ++ r ∷ [])) st st
                (refs-snoc alts r st k (allowed-IsKnown allowed s st ok (is_ref-given s e)))
                (Step-none allowed st i))
            (λ e.
              alternative_of-Step allowed std name alts p.0 st p.1 k
                (parse_schema-Step s (name ++ lit "_inline") st sub i)) in
        Step-then one (build_variant-Step ss name here.0 here.1 rest one.resolved one.known)

    implicit_bases-Step :
        (ss : Schemas) (name : Text) (bases : List TypeRef) (st : ParseState)
        → AllScoped allowed ss
        → IsResolved allowed st
        → All (IsKnown allowed st) (names_of bases)
        → Step allowed
            (names_of (implicit_bases std ss name bases st).0)
            st
            (implicit_bases std ss name bases st).1
    implicit_bases-Step nil name bases st h i k =
        Step-keep allowed (names_of bases) st st k (Step-none allowed st i)
    implicit_bases-Step (cons s ss) name bases st (ok, (sub, rest)) i k =
        let r = extract_type_ref s in
        let under = name ++ (lit "_base_" ++ std.nat (length bases)) in
        let p = parse_schema std s under st in
        let q = base_of bases p in
        let by_ref = if is_given r.name then bases ++ r ∷ [] else bases in
        let here = if is_ref s then (by_ref, st) else q in
        let one =
          if_cases (λ (x : List TypeRef × ParseState). Step allowed (names_of x.0) st x.1)
            (is_ref s) {x = (by_ref, st)} {y = q}
            (λ e.
              Step-keep allowed (names_of by_ref) st st
                (if_cases (λ (x : List TypeRef). All (IsKnown allowed st) (names_of x))
                  (is_given r.name)
                  (λ g. names-snoc bases r st k (allowed-IsKnown allowed s st ok e)) (λ g. k))
                (Step-none allowed st i))
            (λ e. base_of-Step allowed bases p.0 st p.1 k (parse_schema-Step s under st sub i)) in
        Step-then one (implicit_bases-Step ss name here.0 here.1 rest one.resolved one.known)

-- ===== src/Frontend/Parser/Resolution/Steps.antt =====
-- The sub-parsers, one by one.
use siesta.Prelude.{
  Text, lit, Bool, true, false, List, [], ◌∷◌, ◌++◌, ◌||◌, ◌&&◌, if◌then◌else◌, All, All-append,
  ◌≡◌, refl, arith, sym, Bool-cases, inl, inr, length, append_assoc, ap, append-nil,
}
use siesta.Support.Sanitize.{sanitize}
use siesta.Frontend.Ast.{
  TypeRef, Member, PrimitiveType, StructType, VariantType, MapType, EnumType, ArrayType, SchemaType,
  struct, variant, map_of, enumeration, primitive, has_type,
}
use siesta.Frontend.Ast
use siesta.Frontend.Ast.Validation.{needed, needed_refs, field_refs, names_of, references}
use siesta.Frontend.Schema.{Kind, Head, JsonSchema, Schemas, nil, cons, is_ref, is_given}
use siesta.Frontend.Parser.{
  Printing, ParseState, Parts, extract_type_ref, add_once, field_type, element_type, inline_member,
  inline_array, alternative_of, base_of, ref_bases, dispatch, parse_object_schema,
  parse_unknown_schema, is_unknown,
}
use siesta.Frontend.Parser.Resolution.{
  IsAllowed, AllScoped, IsKnown, IsResolved, Step, IsKnown-grown, Step-none, Step-append,
  add_once-Step, add_once_self,
}

pub needed_refs-append :
    (rs ss : List TypeRef) → needed_refs (rs ++ ss) ≡ needed_refs rs ++ needed_refs ss
needed_refs-append [] ss = refl
needed_refs-append (r ∷ rs) ss =
    rw (needed_refs-append rs ss) (sym (append_assoc (needed r) (needed_refs rs) (needed_refs ss)))

pub names_of-append : (rs ss : List TypeRef) → names_of (rs ++ ss) ≡ names_of rs ++ names_of ss
names_of-append [] ss = refl
names_of-append (r ∷ rs) ss = ap (λ (ns : List Text). r.name ∷ ns) (names_of-append rs ss)

module _ (allowed : List Text) where
  -- A step that needs nothing itself, and the names that were known before it.
  pub Step-keep :
      (names : List Text) (st st' : ParseState)
      → All (IsKnown allowed st) names
      → Step allowed [] st st'
      → Step allowed names st st'
  Step-keep names st st' known s = record {
    resolved = s.resolved;
    grown = s.grown;
    known = IsKnown-grown allowed st st' names s.grown known;
  }

  Step-forget :
      {names : List Text} {a st : ParseState} → Step allowed names a st → Step allowed [] a st
  Step-forget p = record { resolved = p.resolved; grown = p.grown; known = tt }

  field_type-Step :
      (mangled : Text) (t : SchemaType) (st : ParseState)
      → IsResolved allowed st
      → All (IsKnown allowed st) (references t)
      → Step allowed [] st (field_type mangled t st).1
  unfolding field_type
  field_type-Step mangled (struct t) st i known = add_once-Step allowed mangled t st i known
  field_type-Step mangled _ st i known = Step-none allowed st i

  element_type-Step :
      (mangled : Text) (t : SchemaType) (st : ParseState)
      → IsResolved allowed st
      → All (IsKnown allowed st) (references t)
      → Step allowed [] st (element_type mangled t st).1
  unfolding element_type
  element_type-Step mangled (struct t) st i known = add_once-Step allowed mangled t st i known
  element_type-Step mangled _ st i known = Step-none allowed st i

  -- From a parsed type to what is made of it.
  pub inline_member-Step :
      (name prop_name : Text) (s : JsonSchema) (t : SchemaType) (a st : ParseState)
      → Step allowed (references t) a st
      → Step allowed
          (needed (inline_member name prop_name s (t, st)).0.type)
          a
          (inline_member name prop_name s (t, st)).1
  unfolding inline_member
  inline_member-Step name prop_name s t a st p =
      Step-append allowed [] [] (Step-forget p)
        (field_type-Step (sanitize (name ++ (lit "_" ++ prop_name))) t st p.resolved p.known)

  pub inline_array-Step :
      (h : Head) (elem_name : Text) (t : SchemaType) (a st : ParseState)
      → Step allowed (references t) a st
      → Step allowed
          (references (inline_array h elem_name (t, st)).0)
          a
          (inline_array h elem_name (t, st)).1
  unfolding inline_array
  inline_array-Step h elem_name t a st p =
      Step-append allowed [] [] (Step-forget p)
        (element_type-Step (sanitize elem_name) t st p.resolved p.known)

  -- An alternative that needs nothing, behind those so far.
  inline_alternative :
      (alts : List TypeRef) (name : Text) (a st : ParseState)
      → All (IsKnown allowed a) (needed_refs alts)
      → Step allowed [] a st
      → Step allowed (needed_refs (alts ++ record { name = name; is_inline = true } ∷ [])) a st
  inline_alternative alts name a st known s =
      rw (needed_refs-append alts (record { name = name; is_inline = true } ∷ []))
        (rw (append-nil (needed_refs alts)) (Step-keep (needed_refs alts) a st known s))

  pub alternative_of-Step :
      (std : Printing) (name : Text) (alts : List TypeRef) (t : SchemaType) (a st : ParseState)
      → All (IsKnown allowed a) (needed_refs alts)
      → Step allowed (references t) a st
      → Step allowed
          (needed_refs (alternative_of std name alts (t, st)).0)
          a
          (alternative_of std name alts (t, st)).1
  unfolding alternative_of
  alternative_of-Step std name alts (primitive t) a st known p =
      inline_alternative alts _ a st known p
  alternative_of-Step std name alts (Ast.SchemaType.array t) a st known p =
      inline_alternative alts _ a st known (Step-forget p)
  alternative_of-Step std name alts (struct t) a st known p =
      let mangled = sanitize (name ++ (lit "_alt_" ++ std.nat (length alts))) in
      inline_alternative alts mangled a (add_once mangled t st) known (
        Step-append allowed [] [] (Step-forget p)
          (add_once-Step allowed mangled t st p.resolved p.known))
  alternative_of-Step std name alts (variant t) a st known p =
      rw (needed_refs-append alts t.alternatives) (record {
        resolved = p.resolved;
        grown = p.grown;
        known =
            All-append (IsKnown allowed st) (needed_refs alts) (needed_refs t.alternatives)
              (IsKnown-grown allowed a st (needed_refs alts) p.grown known) p.known;
      })
  alternative_of-Step std name alts (map_of t) a st known p =
      inline_alternative alts _ a st known (Step-forget p)
  alternative_of-Step std name alts (enumeration t) a st known p =
      inline_alternative alts _ a st known p

  pub base_of-Step :
      (bases : List TypeRef) (t : SchemaType) (a st : ParseState)
      → All (IsKnown allowed a) (names_of bases)
      → Step allowed (references t) a st
      → Step allowed (names_of (base_of bases (t, st)).0) a (base_of bases (t, st)).1
  unfolding base_of
  base_of-Step bases (struct t) a st known p =
      let mangled = sanitize t.name in
      let s = add_once-Step allowed mangled t st p.resolved p.known in
      let both =
        Step-append allowed [] [] {a = a} {b = st} {c = add_once mangled t st} (Step-forget p) s in
      let here = add_once_self allowed mangled t st p.resolved in
      rw (names_of-append bases (record { name = mangled; is_inline = false } ∷ [])) (record {
        resolved = both.resolved;
        grown = both.grown;
        known =
            All-append (IsKnown allowed (add_once mangled t st)) (names_of bases) (mangled ∷ [])
              (IsKnown-grown allowed a (add_once mangled t st) (names_of bases) both.grown known)
              (rw here refl, tt);
      })
  base_of-Step bases (primitive t) a st known p = Step-keep (names_of bases) a st known p
  base_of-Step bases (Ast.SchemaType.array t) a st known p =
      Step-keep (names_of bases) a st known (Step-forget p)
  base_of-Step bases (map_of t) a st known p = Step-keep (names_of bases) a st known (Step-forget p)
  base_of-Step bases (variant t) a st known p =
      Step-keep (names_of bases) a st known (Step-forget p)
  base_of-Step bases (enumeration t) a st known p = Step-keep (names_of bases) a st known p

  -- The name of an allowed reference is known.
  pub allowed-IsKnown :
      (s : JsonSchema) (st : ParseState)
      → IsAllowed allowed s
      → is_ref s ≡ true
      → IsKnown allowed st (extract_type_ref s).name
  allowed-IsKnown s st h r = ground arith

  pub ref_bases-IsKnown :
      (ss : Schemas) (st : ParseState)
      → AllScoped allowed ss
      → All (IsKnown allowed st) (names_of (ref_bases ss))
  unfolding ref_bases
  ref_bases-IsKnown nil st h = tt
  ref_bases-IsKnown (cons s ss) st (here, (_, rest)) =
      elim (Bool-cases (is_ref s && is_given (extract_type_ref s).name)) [
        | inl e ↦ rw e (allowed-IsKnown s st here (ground arith), ref_bases-IsKnown ss st rest)
        | inr e ↦ rw e (ref_bases-IsKnown ss st rest)
      ]

  -- What the parts of a schema promise to the sub-parser that puts them together.
  pub record PartsStep (kind : Kind) (p : Parts) (st : ParseState) : Type 0 where
    pub one_of : Step allowed (needed_refs p.one_of.0) st p.one_of.1
    pub any_of : Step allowed (needed_refs p.any_of.0) st p.any_of.1
    pub refs : All (IsKnown allowed st) (names_of p.refs)
    pub bases : Step allowed (names_of p.bases.0) st p.bases.1
    pub fields :
        Step allowed
          (needed_refs (field_refs p.fields.0))
          (if is_unknown kind then p.bases.1 else st)
          p.fields.1

  Step-struct :
      (fields bases : List Text) {a b c : ParseState}
      → Step allowed bases a b
      → Step allowed fields b c
      → Step allowed (fields ++ bases) a c
  Step-struct fields bases {b = b} {c = c} s t = record {
    resolved = t.resolved;
    grown = λ n h. t.grown n (s.grown n h);
    known =
        All-append (IsKnown allowed c) fields bases t.known
          (IsKnown-grown allowed b c bases t.grown s.known);
  }

  pub parse_object_schema-Step :
      (h : Head) (name : Text) (o a : Bool) (p : Parts) (st : ParseState)
      → PartsStep Kind.object p st
      → IsResolved allowed st
      → Step allowed
          (references (parse_object_schema h name o a p).0)
          st
          (parse_object_schema h name o a p).1
  unfolding parse_object_schema
  parse_object_schema-Step h name true a p st ps i = ps.one_of
  parse_object_schema-Step h name false true p st ps i = ps.any_of
  parse_object_schema-Step h name false false p st ps i =
      Step-struct (needed_refs (field_refs p.fields.0)) (names_of p.refs)
        (Step-keep (names_of p.refs) st st ps.refs (Step-none allowed st i)) ps.fields

  pub parse_unknown_schema-Step :
      (h : Head) (name : Text) (o a : Bool) (p : Parts) (st : ParseState)
      → PartsStep Kind.unknown p st
      → IsResolved allowed st
      → Step allowed
          (references (parse_unknown_schema h name o a p st).0)
          st
          (parse_unknown_schema h name o a p st).1
  unfolding parse_unknown_schema
  parse_unknown_schema-Step h name true a p st ps i = ps.one_of
  parse_unknown_schema-Step h name false true p st ps i = ps.any_of
  parse_unknown_schema-Step h name false false p st ps i =
      elim (Bool-cases (h.has_properties || h.has_all_of || h.has_additional_properties)) [
        | inl e ↦
            rw (e, parse_unknown_schema)
              (Step-struct (needed_refs (field_refs p.fields.0)) (names_of p.bases.0) ps.bases
                ps.fields)
        | inr e ↦ rw (e, parse_unknown_schema) (Step-none allowed st i)
      ]

  pub dispatch-Step :
      (std : Printing) (kind : Kind) (h : Head) (name : Text) (o a : Bool) (p : Parts)
      (st : ParseState)
      → PartsStep kind p st
      → IsResolved allowed st
      → Step allowed
          (references (dispatch std kind h name o a p st).0)
          st
          (dispatch std kind h name o a p st).1
  unfolding dispatch
  dispatch-Step std Kind.object h name o a p st ps i = parse_object_schema-Step h name o a p st ps i
  dispatch-Step std Kind.unknown h name o a p st ps i =
      parse_unknown_schema-Step h name o a p st ps i
  dispatch-Step std Kind.null h name o a p st ps i = Step-none allowed st i
  dispatch-Step std _ h name o a p st ps i = Step-none allowed st i

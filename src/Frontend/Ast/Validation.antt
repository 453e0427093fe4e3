-- ===== src/Frontend/Ast/Validation.antt =====
-- `validate` reports nothing exactly when every reference of every type has its type.
use siesta.Prelude.{
  ℕ, Text, lit, Bool, true, List, [], ◌∷◌, ◌++◌, if◌then◌else◌, Dict, HashOrder, length,
  length-append, total, total_of_All, All-total, total-arrange, All, ◌≡◌, ◌↔◌, refl, arith, sym,
  ◌∙◌, ap, total-append,
}
use siesta.Frontend.Ast.{
  TypeRef, Member, SchemaType, struct, variant, array, map_of, enumeration, primitive,
  NormalizedAst, has_type, field_errors, base_errors, ref_errors, alternative_errors, validate_type,
  validate_types, validate,
}

-- The names that must be in the table of types: those that are not inline. Base types never are.
abbrev pub needed : TypeRef → List Text
needed r = if r.is_inline then [] else r.name ∷ []

abbrev pub needed_refs : List TypeRef → List Text
needed_refs [] = []
needed_refs (r ∷ rs) = needed r ++ needed_refs rs

abbrev pub field_refs : List Member → List TypeRef
field_refs [] = []
field_refs (f ∷ fs) = f.type ∷ field_refs fs

abbrev pub names_of : List TypeRef → List Text
names_of [] = []
names_of (r ∷ rs) = r.name ∷ names_of rs

abbrev pub references : SchemaType → List Text
references (struct t) = needed_refs (field_refs t.fields) ++ names_of t.all_of_bases
references (variant t) = needed_refs t.alternatives
references (array t) = needed t.element_type
references (map_of t) = needed t.value_type
references (enumeration t) = []
references (primitive t) = []

-- How many of the names are missing.
abbrev missing : (Text → Bool) → Text → ℕ
missing known n = if known n then 0 else 1

module _ (known : Text → Bool) (context : Text) where
  field_errors-missing :
      (fs : List Member)
      → length (field_errors known context fs) ≡ total (missing known) (needed_refs (field_refs fs))
  unfolding field_errors
  field_errors-missing [] = refl
  field_errors-missing (f ∷ fs) = ground (arith, field_errors-missing fs)

  base_errors-missing :
      (bs : List TypeRef)
      → length (base_errors known context bs) ≡ total (missing known) (names_of bs)
  unfolding base_errors
  base_errors-missing [] = refl
  base_errors-missing (b ∷ bs) = ground (arith, base_errors-missing bs)

  ref_errors-missing :
      (what : Text) (r : TypeRef)
      → length (ref_errors known context what r) ≡ total (missing known) (needed r)
  unfolding ref_errors
  ref_errors-missing what r = ground arith

  alternative_errors-missing :
      (rs : List TypeRef)
      → length (alternative_errors known context rs) ≡ total (missing known) (needed_refs rs)
  unfolding alternative_errors
  alternative_errors-missing [] = refl
  alternative_errors-missing (r ∷ rs) = omega (
    arith,
    length-append (ref_errors known context (lit ": variant alternative ") r)
        (alternative_errors known context rs),
    ref_errors-missing (lit ": variant alternative ") r,
    alternative_errors-missing rs,
    total-append (missing known) (needed r) (needed_refs rs),
  )

  -- One error for each reference that is missing.
  pub validate_type-missing :
      (t : SchemaType)
      → length (validate_type known context t) ≡ total (missing known) (references t)
  unfolding validate_type
  validate_type-missing (struct t) = omega (
    arith,
    length-append (field_errors known context t.fields) (base_errors known context t.all_of_bases),
    field_errors-missing t.fields,
    base_errors-missing t.all_of_bases,
    total-append (missing known) (needed_refs (field_refs t.fields)) (names_of t.all_of_bases),
  )
  validate_type-missing (variant t) = alternative_errors-missing t.alternatives
  validate_type-missing (array t) = ref_errors-missing (lit ": array element type ") t.element_type
  validate_type-missing (map_of t) = ref_errors-missing (lit ": map value type ") t.value_type
  validate_type-missing (enumeration t) = refl
  validate_type-missing (primitive t) = refl

module _ (known : Text → Bool) where
  missing_in : Text × SchemaType → ℕ
  missing_in e = total (missing known) (references e.1)

  validate_types-missing :
      (types : Dict SchemaType) → length (validate_types known types) ≡ total missing_in types
  unfolding validate_types missing_in
  validate_types-missing [] = refl
  validate_types-missing ((name, type) ∷ types) = omega (
    arith,
    length-append (validate_type known name type) (validate_types known types),
    validate_type-missing known name type,
    validate_types-missing types,
  )

  All-missing :
      (names : List Text) → All (λ n. missing known n ≡ 0) names ↔ All (λ n. known n ≡ true) names
  All-missing [] = (λ h. tt, λ h. tt)
  All-missing (n ∷ names) =
      let rest = All-missing names in
      (λ h. (ground arith, rest.0 h.1), λ h. (ground arith, rest.1 h.1))

  -- Every reference of the type has its type.
  abbrev pub IsResolved : Text × SchemaType → Type 0
  IsResolved e = All (λ n. known n ≡ true) (references e.1)

  types_resolved : (types : Dict SchemaType) → (total missing_in types ≡ 0) ↔ All IsResolved types
  unfolding missing_in
  types_resolved [] = (λ h. tt, λ h. refl)
  types_resolved (e ∷ types) =
      let rest = types_resolved types in
      (
        λ h. (
          (All-missing (references e.1)).0
              (All-total (missing known) (references e.1) (omega arith)),
          rest.0 (omega arith),
        ),
        λ h. omega (
          arith,
          total_of_All (missing known) (references e.1) ((All-missing (references e.1)).1 h.0),
          rest.1 h.1,
        ),
      )

empty_of_length : {A : Type 0} (xs : List A) → length xs ≡ 0 → xs ≡ []
empty_of_length [] h = refl
empty_of_length (x ∷ xs) h = absurd (omega arith)

-- Validation reports no error, in whatever order it visits the table, exactly when every reference that
-- is not inline, and every base, of every type names a type of the table.
pub validate_iff :
    (order : HashOrder) (ast : NormalizedAst)
    → (validate order ast ≡ []) ↔ All (IsResolved (has_type ast)) ast.types
unfolding validate
validate_iff order ast =
    let known = has_type ast in
    let errors = validate_types-missing known (order.arrange ast.types) in
    let same = total-arrange order ast.types (missing_in known) in
    let spec = types_resolved known ast.types in
    (
      λ h. spec.0 (sym same ∙ sym errors ∙ ap length h),
      λ h. empty_of_length _ (errors ∙ same ∙ spec.1 h),
    )

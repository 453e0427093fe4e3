-- ===== src/Ir/Aliases/Names.antt =====
-- What a name resolves to, and when the recursion along variants ends.
use siesta.Prelude.{
  ℕ, zero, suc, ◌<◌, Text, lit, Bool, true, false, List, [], ◌∷◌, Option, none, some, Dict, ◌≡◌,
  ◌≢◌, refl, sym, subst, if◌then◌else◌, arith,
}
use siesta.Frontend.Ast.{
  NormalizedAst, SchemaType, struct, variant, array, map_of, enumeration, primitive, TypeRef,
  VariantType, PrimitiveType, get_type,
}
use siesta.Ir.Aliases.{
  final, again, of_alternatives, of_enum_values, at_end, or_again, resolve_once, end_of_chain,
  resolve_type_name,
}
use siesta.Ir.Aliases.Chains.{end_of_chain-IsEnd}

-- A variant that stands for its one alternative.
abbrev pub IsSingle : VariantType → TypeRef → Type 0
IsSingle t alt = (t.alternatives ≡ alt ∷ []) × (t.is_nullable ≡ false)

-- The types that a name stands for by itself: all but primitive types without values and variants that
-- stand for their one alternative.
abbrev pub IsNamed : SchemaType → Type 0
IsNamed (primitive t) = t.enum_values ≢ []
IsNamed (variant t) = (alt : TypeRef) → IsSingle t alt → ⊥
IsNamed _ = Unit

-- What a name resolves to: `a` is where the typedefs lead from it.
pub data ResolvesTo (ast : NormalizedAst) (chain : Dict Text) : Text → Text → Type 0 where
  no_type :
      {n a : Text}
      → end_of_chain chain n ≡ some a
      → get_type a ast ≡ none
      → ResolvesTo ast chain n a
  by_itself :
      {n a : Text} {t : SchemaType}
      → end_of_chain chain n ≡ some a
      → get_type a ast ≡ some t
      → IsNamed t
      → ResolvesTo ast chain n a
  text :
      {n a : Text} {t : PrimitiveType}
      → end_of_chain chain n ≡ some a
      → get_type a ast ≡ some (primitive t)
      → t.enum_values ≡ []
      → ResolvesTo ast chain n (lit "std::string")
  in_place :
      {n a : Text} {t : VariantType} {alt : TypeRef}
      → end_of_chain chain n ≡ some a
      → get_type a ast ≡ some (variant t)
      → IsSingle t alt
      → alt.is_inline ≡ true
      → ResolvesTo ast chain n alt.name
  through :
      {n a s : Text} {t : VariantType} {alt : TypeRef}
      → end_of_chain chain n ≡ some a
      → get_type a ast ≡ some (variant t)
      → IsSingle t alt
      → alt.is_inline ≡ false
      → ResolvesTo ast chain alt.name s
      → ResolvesTo ast chain n s

-- Variants of one alternative that is a name do not lead round in a circle: the rank goes down.
abbrev pub IsRanked : NormalizedAst → Dict Text → (Text → ℕ) → Type 0
IsRanked ast chain rank =
    (n a : Text) (t : VariantType) (alt : TypeRef)
    → end_of_chain chain n ≡ some a
    → get_type a ast ≡ some (variant t)
    → IsSingle t alt
    → alt.is_inline ≡ false
    → rank alt.name < rank n

abbrev Resolves : NormalizedAst → Dict Text → Text → Option Text → Type 0
Resolves ast chain n out = (s : Text) × ((out ≡ some s) × ResolvesTo ast chain n s)

module _ (ast : NormalizedAst) (chain : Dict Text) (n a : Text)
    (ends : end_of_chain chain n ≡ some a) (f : Text → Option Text) where
  -- What a single alternative needs of the recursion.
  abbrev Continues : Type 0
  Continues =
      (t : VariantType) (alt : TypeRef)
      → get_type a ast ≡ some (variant t)
      → IsSingle t alt
      → alt.is_inline ≡ false
      → Resolves ast chain alt.name (f alt.name)

  primitive-Resolves :
      (t : PrimitiveType) (values : List Text)
      → get_type a ast ≡ some (primitive t)
      → t.enum_values ≡ values
      → Resolves ast chain n (or_again (of_enum_values values a) f)
  primitive-Resolves t [] e v = (lit "std::string", (refl, text ends e v))
  primitive-Resolves t (_ ∷ _) e v = (a, (refl, by_itself ends e (λ none_there. cc)))

  single-Resolves :
      (t : VariantType) (alt : TypeRef) (inline : Bool)
      → get_type a ast ≡ some (variant t)
      → IsSingle t alt
      → alt.is_inline ≡ inline
      → Continues
      → Resolves ast chain n (or_again (if inline then final alt.name else again alt.name) f)
  single-Resolves t alt true e s i k = (alt.name, (refl, in_place ends e s i))
  single-Resolves t alt false e s i k =
      let (r, (same, resolved)) = k t alt e s i in (r, (same, through ends e s i resolved))

  variant-Resolves :
      (t : VariantType) (alts : List TypeRef) (nullable : Bool)
      → get_type a ast ≡ some (variant t)
      → t.alternatives ≡ alts
      → t.is_nullable ≡ nullable
      → Continues
      → Resolves ast chain n (or_again (of_alternatives alts nullable a) f)
  variant-Resolves t (alt ∷ []) false e s b k = single-Resolves t alt alt.is_inline e (s, b) refl k
  variant-Resolves t (alt ∷ []) true e s b k = (a, (refl, by_itself ends e (λ x (_, c). cc)))
  variant-Resolves t [] b e s c k = (a, (refl, by_itself ends e (λ x (d, _). cc)))
  variant-Resolves t (_ ∷ _ ∷ _) b e s c k = (a, (refl, by_itself ends e (λ x (d, _). cc)))

  type-Resolves :
      (o : Option SchemaType)
      → get_type a ast ≡ o
      → Continues
      → Resolves ast chain n (or_again (resolve_once o a) f)
  unfolding resolve_once
  type-Resolves none e k = (a, (refl, no_type ends e))
  type-Resolves (some (primitive t)) e k = primitive-Resolves t t.enum_values e refl
  type-Resolves (some (variant t)) e k =
      variant-Resolves t t.alternatives t.is_nullable e refl refl k
  type-Resolves (some (struct _)) e k = (a, (refl, by_itself ends e tt))
  type-Resolves (some (array _)) e k = (a, (refl, by_itself ends e tt))
  type-Resolves (some (map_of _)) e k = (a, (refl, by_itself ends e tt))
  type-Resolves (some (enumeration _)) e k = (a, (refl, by_itself ends e tt))

-- Fuel above the rank of a name is enough.
pub resolve_type_name-ResolvesTo :
    (ast : NormalizedAst) (chain : Dict Text) (rank : Text → ℕ)
    → IsRanked ast chain rank
    → (fuel : ℕ) (n : Text) → rank n < fuel
    → (s : Text) × ((resolve_type_name fuel ast chain n ≡ some s) × ResolvesTo ast chain n s)
unfolding resolve_type_name
resolve_type_name-ResolvesTo ast chain rank ranked zero n l = absurd (omega (arith, l))
resolve_type_name-ResolvesTo ast chain rank ranked (suc fuel) n l =
    let (a, (ends, _)) = end_of_chain-IsEnd chain n in
    let next = resolve_type_name fuel ast chain in
    subst
      (λ o.
        Resolves ast chain n
          (at_end o (λ current. or_again (resolve_once (get_type current ast) current) next)))
      (sym ends)
      (type-Resolves ast chain n a ends next (get_type a ast) refl (λ t alt e s i.
        resolve_type_name-ResolvesTo ast chain rank ranked fuel alt.name
          (omega (arith, l, ranked n a t alt ends e s i))))

-- ===== src/Ir/Aliases/Alternatives.antt =====
-- The alternatives of a variant, without those that stand for the same type.
use siesta.Prelude.{
  ℕ, Text, text_eq_iff, true, false, Bool, List, [], ◌∷◌, some, if◌then◌else◌, Dict, has, keys,
  count, count-arrange, HashOrder, map, ◌||◌, ◌≡◌, refl, ap, ◌∙◌, arith, Bool-cases, inl, inr, ◌⊎◌,
  All, ◌<◌, length, not, ◌&&◌, ◌==◌,
}
use siesta.Frontend.Ast.{NormalizedAst, TypeRef, VariantType}
use siesta.Ir.Aliases.{
  see, inline_ref, unique_alternatives, unique_if_named, resolve_alternatives,
  process_variant_alternatives, resolve_type_name,
}
use siesta.Ir.Aliases.Names.{ResolvesTo, IsRanked, resolve_type_name-ResolvesTo}

-- Every key stands once.
abbrev Once : Dict TypeRef → Type 0
Once d = (n : Text) → count n (keys d) ≡ (if has n (keys d) then 1 else 0)

see-count :
    (alts seen : Dict TypeRef)
    → Once seen
    → (n : Text)
    → count n (keys (see alts seen)) ≡ (if has n (keys alts) || has n (keys seen) then 1 else 0)
unfolding see has count
see-count [] seen h n = h n
see-count ((name, alt) ∷ alts) seen h n = elim (Bool-cases (has name (keys seen))) [
  | inl old ↦ rw old (ground (arith, see-count alts seen h n, text_eq_iff n name))
  | inr new ↦
      let fresh : Once ((name, alt) ∷ seen) = λ m. ground (arith, h m, text_eq_iff m name) in
      rw new (ground (arith, see-count alts ((name, alt) ∷ seen) fresh n))
]

names-inline : (d : Dict TypeRef) → map (λ (r : TypeRef). r.name) (map inline_ref d) ≡ keys d
names-inline [] = refl
names-inline ((k, v) ∷ d) = rw (names-inline d) refl

or_false : (b : Bool) → (b || false) ≡ b
or_false true = refl
or_false false = refl

-- The name of an alternative: its own if it is written in place, or else what that resolves to.
abbrev pub NameOf : NormalizedAst → Dict Text → TypeRef → Text → Type 0
NameOf ast chain alt s =
    ((alt.is_inline ≡ true) × (s ≡ alt.name))
    ⊎ ((alt.is_inline ≡ false) × ResolvesTo ast chain alt.name s)

abbrev pub NamesOf : NormalizedAst → Dict Text → List TypeRef → List Text → Type 0
NamesOf ast chain [] [] = Unit
NamesOf ast chain [] (_ ∷ _) = ⊥
NamesOf ast chain (_ ∷ _) [] = ⊥
NamesOf ast chain (alt ∷ alts) (s ∷ ss) = NameOf ast chain alt s × NamesOf ast chain alts ss

-- The fuel is above the rank of each alternative that is not written in place.
abbrev pub IsEnough : ℕ → (Text → ℕ) → TypeRef → Type 0
IsEnough fuel rank alt = alt.is_inline ≡ false → rank alt.name < fuel

module _ (ast : NormalizedAst) (chain : Dict Text) (rank : Text → ℕ)
    (ranked : IsRanked ast chain rank) (fuel : ℕ) where
  name-NameOf :
      (alt : TypeRef) (inline : Bool)
      → alt.is_inline ≡ inline
      → IsEnough fuel rank alt
      → (s : Text) × (((if inline then some alt.name else resolve_type_name fuel ast chain alt.name)
            ≡ some s)
          × NameOf ast chain alt s)
  name-NameOf alt true e h = (alt.name, (refl, inl (e, refl)))
  name-NameOf alt false e h =
      let (s, (same, resolved)) =
        resolve_type_name-ResolvesTo ast chain rank ranked fuel alt.name (h e) in
      (s, (same, inr (e, resolved)))

  resolve_alternatives-NamesOf :
      (alts : List TypeRef)
      → All (IsEnough fuel rank) alts
      → (named : Dict TypeRef) × ((resolve_alternatives fuel ast chain alts ≡ some named)
          × NamesOf ast chain alts (keys named))
  unfolding resolve_alternatives
  resolve_alternatives-NamesOf [] h = ([], (refl, tt))
  resolve_alternatives-NamesOf (alt ∷ alts) (h, hs) =
      let (s, (same, name)) = name-NameOf alt alt.is_inline refl h in
      let (named, (rest, names)) = resolve_alternatives-NamesOf alts hs in
      ((s, alt) ∷ named, (rw (same, rest) refl, (name, names)))

-- If variants of one alternative do not lead round in a circle, fuel above the ranks of a variant's
-- alternatives is enough. The alternatives that are kept then have each name that an alternative of the
-- variant resolves to exactly once and no other name, whatever the order in which the table is iterated; the
-- variant becomes a mere typedef if one is kept and it is not nullable.
pub process_variant_alternatives-count :
    (order : HashOrder) (fuel : ℕ) (ast : NormalizedAst) (chain : Dict Text) (v : VariantType)
    (rank : Text → ℕ)
    → IsRanked ast chain rank
    → All (IsEnough fuel rank) v.alternatives
    → (p : List TypeRef × Bool) × ((process_variant_alternatives order fuel ast chain v ≡ some p)
        × ((names : List Text) × (NamesOf ast chain v.alternatives names
              × (((n : Text)
                    → count n (map (λ (r : TypeRef). r.name) p.0) ≡ (if has n names then 1 else 0))
                  × (p.1 ≡ (length p.0 == 1 && not v.is_nullable))))))
unfolding process_variant_alternatives unique_if_named unique_alternatives see count has
process_variant_alternatives-count order fuel ast chain v rank ranked enough =
    let (named, (e, names)) =
      resolve_alternatives-NamesOf ast chain rank ranked fuel v.alternatives enough in
    (
      unique_alternatives order named v.is_nullable,
      (
        ap (unique_if_named order v.is_nullable) e,
        (
          keys named,
          (
            names,
            (
              λ n.
                  ap (count n) (names-inline (order.arrange (see named [])))
                  ∙ count-arrange order (see named []) n
                  ∙ see-count named [] (λ m. refl) n
                  ∙ ap (λ (b : Bool). if b then 1 else 0) (or_false (has n (keys named))),
              refl,
            ),
          ),
        ),
      ),
    )

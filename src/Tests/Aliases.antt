-- ===== src/Tests/Aliases.antt =====
-- generator/src/IR/DefsGenerator.cpp on typedefs that go round in a circle, and on a variant.
use siesta.Prelude.{
  ℕ, text_eq_iff, Bool-cases, inl, inr, arith, All, ◌<◌, length, not, ◌&&◌, ◌==◌, has, count, map,
  find, Text, lit, text_eq, true, false, List, [], ◌∷◌, none, some, if◌then◌else◌, Dict, as_listed,
  Bool, ◌≡◌, refl, ◌⊎◌,
}
use siesta.Frontend.Ast.{NormalizedAst, variant, get_type, TypeRef, VariantType}
use siesta.Ir.Aliases.{end_of_chain, process_variant_alternatives}
use siesta.Ir.Aliases.Chains.{Leads, IsEnd, end_of_chain-IsEnd}
use siesta.Ir.Aliases.Names.{IsRanked}
use siesta.Ir.Aliases.Alternatives.{NamesOf, IsEnough, process_variant_alternatives-count}

abbrev circle : Dict Text
circle = (lit "a", lit "b") ∷ (lit "b", lit "a") ∷ []

circle-end_of_chain : end_of_chain circle (lit "a") ≡ some (lit "a")
unfolding end_of_chain text_eq
circle-end_of_chain = refl

end_of_chain-IsEnd_example :
    (r : Text) × ((end_of_chain circle (lit "a") ≡ some r)
      × (((lit "a" ≡ r) ⊎ Leads circle (lit "a") r) × IsEnd circle r))
end_of_chain-IsEnd_example = end_of_chain-IsEnd circle (lit "a")

-- The variant `w` is one more name for `u`; `v` has them both, and `u` by a typedef as well.
abbrev ref_to : Text → TypeRef
ref_to name = record { name = name; is_inline = false }

abbrev variant_of : Text → List TypeRef → VariantType
variant_of name alternatives = record {
  name = name;
  alternatives = alternatives;
  is_nullable = false;
  discriminator_property = none;
  description = [];
}

abbrev ast : NormalizedAst
ast = record {
  types = (lit "w", variant (variant_of (lit "w") (ref_to (lit "u") ∷ []))) ∷ [];
  paths = [];
}

abbrev aliases : Dict Text
aliases = (lit "t", lit "u") ∷ []

abbrev three_names : VariantType
three_names =
    variant_of (lit "v")
      (ref_to (lit "w") ∷ ref_to (lit "t") ∷ record { name = lit "int"; is_inline = true } ∷ [])

-- Only `w` leads on.
abbrev rank : Text → ℕ
rank n = if text_eq n (lit "u") then 0 else 1

u-end_of_chain : end_of_chain aliases (lit "u") ≡ some (lit "u")
unfolding end_of_chain text_eq
u-end_of_chain = refl

u-get_type : get_type (lit "u") ast ≡ none
unfolding get_type text_eq
u-get_type = refl

u-rank : rank (lit "u") ≡ 0
unfolding text_eq
u-rank = refl

-- The only type of the table is `w`.
get_type-u :
    (a : Text) (t : VariantType)
    → get_type a ast ≡ some (variant t)
    → t.alternatives ≡ ref_to (lit "u") ∷ []
unfolding get_type find
get_type-u a t e = elim (Bool-cases (text_eq (lit "w") a)) [
  | inl same ↦ cc (rw same at e)
  | inr other ↦ cc (rw other at e)
]

aliases-IsRanked : IsRanked ast aliases rank
aliases-IsRanked n a t alt ends e (single, _) named = elim (Bool-cases (text_eq n (lit "u"))) [
  | inl same ↦
      let at_u : n ≡ lit "u" = (text_eq_iff n (lit "u")).0 same in
      let end : a ≡ lit "u" = cc (u-end_of_chain, at_u, ends) in cc (u-get_type, end, e)
  | inr other ↦
      let alternative : alt ≡ ref_to (lit "u") = cc (get_type-u a t e, single) in
      rw (alternative, other) (omega (arith, u-rank))
]

rank-small : (n : Text) → rank n < 2
rank-small n = ground arith

three_names-IsEnough : All (IsEnough 2 rank) three_names.alternatives
three_names-IsEnough = (λ _. rank-small _, (λ _. rank-small _, (λ _. rank-small _, tt)))

three_names-process :
    process_variant_alternatives as_listed 2 ast aliases three_names
    ≡ some (
      record { name = lit "int"; is_inline = true }
          ∷ record { name = lit "u"; is_inline = true }
          ∷ [],
      false,
    )
unfolding process_variant_alternatives text_eq
three_names-process = refl

process_variant_alternatives-count_example :
    (p : List TypeRef × Bool) × ((process_variant_alternatives as_listed 2 ast aliases three_names
        ≡ some p)
      × ((names : List Text) × (NamesOf ast aliases three_names.alternatives names
            × (((n : Text)
                  → count n (map (λ (r : TypeRef). r.name) p.0) ≡ (if has n names then 1 else 0))
                × (p.1 ≡ (length p.0 == 1 && not three_names.is_nullable))))))
process_variant_alternatives-count_example =
    process_variant_alternatives-count as_listed 2 ast aliases three_names rank aliases-IsRanked
      three_names-IsEnough

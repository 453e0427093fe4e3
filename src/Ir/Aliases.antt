-- ===== src/Ir/Aliases.antt =====
-- generator/src/IR/DefsGenerator.cpp: `resolveTypeName`, which follows the typedefs that the generator has
-- made up, and then variants of one alternative. Variants can lead to one another in a circle, on
-- which the code recurses without an end.
pub mod Chains
pub mod Names
pub mod Alternatives
use siesta.Prelude.{
  ℕ, zero, suc, Text, lit, text_eq, Bool, true, false, List, [], ◌∷◌, Option, none, some,
  if◌then◌else◌, Dict, find, has, length, keys, HashOrder, map, not, ◌&&◌, ◌==◌,
}
use siesta.Frontend.Ast.{
  NormalizedAst, SchemaType, struct, variant, array, map_of, enumeration, primitive, TypeRef,
  get_type, VariantType,
}

-- The loop along the typedefs; `none` if it is cut off.
unfoldable pub follow_typedefs : ℕ → Dict Text → List Text → Text → Option Text
unfolding find has text_eq
follow_typedefs zero chain visited current = none
follow_typedefs (suc fuel) chain visited current = elim (find current chain) [
  | none ↦ some current
  | some next ↦
      if has current visited
      then some current
      else if text_eq next current
      then some current
      else follow_typedefs fuel chain (current ∷ visited) next
]

-- One step of the loop for each typedef, and one to leave it.
unfoldable pub end_of_chain : Dict Text → Text → Option Text
unfolding follow_typedefs
end_of_chain chain name = follow_typedefs (suc (length chain)) chain [] name

-- The name of the type itself, a text, or one more name to resolve.
pub data Resolved : Type 0 where
  final : Text → Resolved
  again : Text → Resolved

abbrev pub of_alternatives : List TypeRef → Bool → Text → Resolved
of_alternatives (alt ∷ []) false current = if alt.is_inline then final alt.name else again alt.name
of_alternatives _ is_nullable current = final current

abbrev pub of_enum_values : List Text → Text → Resolved
of_enum_values [] current = final (lit "std::string")
of_enum_values (_ ∷ _) current = final current

-- What the type of a name says of it.
unfoldable pub resolve_once : Option SchemaType → Text → Resolved
resolve_once none current = final current
resolve_once (some (primitive t)) current = of_enum_values t.enum_values current
resolve_once (some (variant t)) current = of_alternatives t.alternatives t.is_nullable current
resolve_once (some _) current = final current

abbrev pub at_end : Option Text → (Text → Option Text) → Option Text
at_end none f = none
at_end (some current) f = f current

abbrev pub or_again : Resolved → (Text → Option Text) → Option Text
or_again (final text) f = some text
or_again (again alternative) f = f alternative

-- The recursion is cut off after `fuel` variants.
unfoldable pub resolve_type_name : ℕ → NormalizedAst → Dict Text → Text → Option Text
unfolding end_of_chain get_type resolve_once
resolve_type_name zero ast chain name = none
resolve_type_name (suc fuel) ast chain name = at_end (end_of_chain chain name) (λ current.
    or_again (resolve_once (get_type current ast) current) (resolve_type_name fuel ast chain))

abbrev pub put_named : Option Text → TypeRef → Option (Dict TypeRef) → Option (Dict TypeRef)
put_named (some name) alt (some rest) = some ((name, alt) ∷ rest)
put_named none alt rest = none
put_named (some name) alt none = none

-- The name of each alternative, resolved unless it is written in place.
unfoldable pub resolve_alternatives :
    ℕ → NormalizedAst → Dict Text → List TypeRef → Option (Dict TypeRef)
unfolding resolve_type_name
resolve_alternatives fuel ast chain [] = some []
resolve_alternatives fuel ast chain (alt ∷ alts) =
    put_named (if alt.is_inline then some alt.name else resolve_type_name fuel ast chain alt.name)
      alt (resolve_alternatives fuel ast chain alts)

-- `seen`, of which only the names are used: the first alternative of each name.
unfoldable pub see : Dict TypeRef → Dict TypeRef → Dict TypeRef
unfolding has
see [] seen = seen
see ((name, alt) ∷ alts) seen = see alts (if has name (keys seen) then seen else (name, alt) ∷ seen)

abbrev pub inline_ref : Text × TypeRef → TypeRef
inline_ref entry = record { name = entry.0; is_inline = true }

-- One alternative for each name, in the order of the table, and whether the variant is a mere typedef.
unfoldable pub unique_alternatives : HashOrder → Dict TypeRef → Bool → List TypeRef × Bool
unfolding see
unique_alternatives order named is_nullable =
    let processed = map inline_ref (order.arrange (see named [])) in
    (processed, length processed == 1 && not is_nullable)

unfoldable pub unique_if_named :
    HashOrder → Bool → Option (Dict TypeRef) → Option (List TypeRef × Bool)
unfolding unique_alternatives
unique_if_named order is_nullable none = none
unique_if_named order is_nullable (some named) = some (unique_alternatives order named is_nullable)

unfoldable pub process_variant_alternatives :
    HashOrder → ℕ → NormalizedAst → Dict Text → VariantType → Option (List TypeRef × Bool)
unfolding resolve_alternatives unique_if_named
process_variant_alternatives order fuel ast chain v =
    unique_if_named order v.is_nullable (resolve_alternatives fuel ast chain v.alternatives)

-- ===== src/Ir/Aliases/Chains.antt =====
-- The loop along the typedefs ends, and where.
use siesta.Prelude.{
  ℕ, zero, suc, ◌+◌, ◌<◌, ◌≤◌, Text, text_eq, text_eq_iff, true, false, List, [], ◌∷◌, All, All-map,
  Option, none, some, if◌then◌else◌, Dict, find, has, length, ◌≡◌, refl, sym, subst, arith, ◌⊎◌,
  inl, inr, Bool-cases, Option-cases,
}
use siesta.Ir.Aliases.{follow_typedefs, end_of_chain}

-- One typedef after another leads from a name to a name, in one step or more.
pub data Leads (chain : Dict Text) : Text → Text → Type 0 where
  step : {a b : Text} → find a chain ≡ some b → Leads chain a b
  more : {a b c : Text} → Leads chain a b → find b chain ≡ some c → Leads chain a c

-- Where the loop may stop: a name that is no typedef, or one on a circle of them.
abbrev pub IsEnd : Dict Text → Text → Type 0
IsEnd chain a = (find a chain ≡ none) ⊎ Leads chain a a

-- The typedefs that the loop has not seen.
abbrev unseen : Dict Text → List Text → ℕ
unseen [] visited = 0
unseen ((k, _) ∷ chain) visited = (if has k visited then 0 else 1) + unseen chain visited

unseen_le : (chain : Dict Text) (visited : List Text) → unseen chain visited ≤ length chain
unseen_le [] visited = omega arith
unseen_le ((k, v) ∷ chain) visited = ground (arith, unseen_le chain visited)

unseen-grow :
    (chain : Dict Text) (visited : List Text) (a : Text)
    → unseen chain (a ∷ visited) ≤ unseen chain visited
unfolding has
unseen-grow [] visited a = omega arith
unseen-grow ((k, v) ∷ chain) visited a = ground (arith, unseen-grow chain visited a)

unseen-visit :
    (chain : Dict Text) (visited : List Text) (a b : Text)
    → find a chain ≡ some b
    → has a visited ≡ false
    → unseen chain (a ∷ visited) < unseen chain visited
unfolding find has
unseen-visit [] visited a b e h = cc
unseen-visit ((k, v) ∷ chain) visited a b e h = elim (Bool-cases (text_eq k a)) [
  | inl same ↦ ground (arith, text_eq_iff k a, unseen-grow chain visited a)
  | inr other ↦ ground (arith, unseen-visit chain visited a b, unseen-grow chain visited a)
]

has-All :
    (P : Text → Type 0) (a : Text) (visited : List Text)
    → All P visited
    → has a visited ≡ true
    → P a
unfolding has
has-All P a [] h e = cc
has-All P a (b ∷ visited) (p, h) e = elim (Bool-cases (text_eq a b)) [
  | inl same ↦ subst P (sym ((text_eq_iff a b).0 same)) p
  | inr other ↦ has-All P a visited h (ground arith)
]

Leads-front :
    {chain : Dict Text} {a b c : Text} → find a chain ≡ some b → Leads chain b c → Leads chain a c
Leads-front e (step f) = more (step e) f
Leads-front e (more l f) = more (Leads-front e l) f

-- What the loop gives: a name that the first one leads to, or is, and where the loop may stop.
abbrev Stops : Dict Text → Text → Option Text → Type 0
Stops chain a out = (r : Text) × ((out ≡ some r) × (((a ≡ r) ⊎ Leads chain a r) × IsEnd chain r))

Stops-front :
    (chain : Dict Text) (a b : Text) (out : Option Text)
    → find a chain ≡ some b
    → Stops chain b out
    → Stops chain a out
Stops-front chain a b out e (r, (q, (inl same, end))) =
    (r, (q, (inr (step (subst (λ t. find a chain ≡ some t) same e)), end)))
Stops-front chain a b out e (r, (q, (inr leads, end))) = (r, (q, (inr (Leads-front e leads), end)))

follow_typedefs-Stops :
    (fuel : ℕ) (chain : Dict Text) (visited : List Text) (a : Text)
    → unseen chain visited < fuel
    → All (λ w. Leads chain w a) visited
    → Stops chain a (follow_typedefs fuel chain visited a)
unfolding follow_typedefs
follow_typedefs-Stops zero chain visited a l h = absurd (omega (arith, l))
follow_typedefs-Stops (suc fuel) chain visited a l h = elim (Option-cases (find a chain)) [
  | inl e ↦ (a, (rw (e, follow_typedefs) refl, (inl refl, inl e)))
  | inr (next, e) ↦ elim (Bool-cases (has a visited)) [
    | inl seen ↦
        (a, (rw (e, seen, follow_typedefs) refl, (inl refl, inr (has-All _ a visited h seen))))
    | inr new ↦ elim (Bool-cases (text_eq next a)) [
      | inl same ↦ (
        a,
        (
          rw (e, new, same, follow_typedefs) refl,
          (
            inl refl,
            inr (step (subst (λ t. find a chain ≡ some t) ((text_eq_iff next a).0 same) e)),
          ),
        ),
      )
      | inr other ↦ Stops-front chain a next _ e (
          rw (e, new, other, follow_typedefs)
            (follow_typedefs-Stops fuel chain (a ∷ visited) next
              (omega (arith, l, unseen-visit chain visited a next e new))
              (step e, All-map visited (λ w p. more p e) h)))
    ]
  ]
]

-- The loop along the typedefs ends for every table and every name, on circles too. The name that it ends
-- with is the first one or one that it leads to, and it is no typedef or stands on a circle of typedefs.
pub end_of_chain-IsEnd :
    (chain : Dict Text) (name : Text)
    → (r : Text) × ((end_of_chain chain name ≡ some r)
        × (((name ≡ r) ⊎ Leads chain name r) × IsEnd chain r))
unfolding end_of_chain
end_of_chain-IsEnd chain name =
    follow_typedefs-Stops (suc (length chain)) chain [] name (omega (arith, unseen_le chain [])) tt

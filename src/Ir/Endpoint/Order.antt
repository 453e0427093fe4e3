-- ===== src/Ir/Endpoint/Order.antt =====
-- generator/src/IR/EndpointIR.cpp: the parameters of a path and of an operation, merged.
use siesta.Prelude.{
  ℕ, ◌≤◌, Text, text_eq, text_eq_iff, List, [], ◌∷◌, ◌++◌, Option, none, some, if◌then◌else◌, ◌||◌,
  ◌&&◌, not, Dict, find, assign, find-assign, keys, HashOrder, count, count-append, count-arrange,
  ◌≡◌, refl, arith, ◌∙◌, ap, sym, Bool-cases, inl, inr,
}
use siesta.Frontend.Ast.{is_some}
use siesta.Ir.Endpoint.{ClientParam}
use siesta.Ir.Endpoint.Build.{Merge, merge_params, lookup, initial_merge}

-- The last parameter of a name in a list.
abbrev pub last_named : Text → List ClientParam → Option ClientParam → Option ClientParam
last_named x [] o = o
last_named x (p ∷ ps) o = last_named x ps (if text_eq p.name x then some p else o)

abbrev pub known_once : Dict ClientParam → Dict ClientParam → Text → ℕ
known_once from_paths overrides x =
    if is_some (find x from_paths) || is_some (find x overrides) then 1 else 0

module _ (from_paths : Dict ClientParam) where
  merge_params-once :
      (ps : List ClientParam) (m : Merge)
      → ((x : Text) → count x m.param_order ≡ known_once from_paths m.overrides x)
      → (x : Text)
      → count x (merge_params from_paths ps m).param_order
        ≡ known_once from_paths (merge_params from_paths ps m).overrides x
  unfolding merge_params count
  merge_params-once [] m h x = h x
  merge_params-once (p ∷ ps) m h x = merge_params-once ps _ (λ y. step y) x
    where
      step :
          (y : Text)
          → count y (
              if not (is_some (find p.name from_paths)) && not (is_some (find p.name m.overrides))
              then m.param_order ++ p.name ∷ []
              else m.param_order)
            ≡ known_once from_paths (assign p.name p m.overrides) y
      step y = ground (
        arith,
        count-append y m.param_order (p.name ∷ []),
        find-assign p.name y p m.overrides,
        h y,
        h p.name,
        text_eq_iff p.name y,
        text_eq_iff y p.name,
      )

  merge_params-find :
      (ps : List ClientParam) (m : Merge) (x : Text)
      → find x (merge_params from_paths ps m).overrides ≡ last_named x ps (find x m.overrides)
  unfolding merge_params
  merge_params-find [] m x = refl
  merge_params-find (p ∷ ps) m x =
      merge_params-find ps _ x ∙ ap (last_named x ps) (find-assign p.name x p m.overrides)

find-count :
    {V : Type 0} (x : Text) (d : Dict V)
    → count x (keys d) ≤ 1
    → count x (keys d) ≡ (if is_some (find x d) then 1 else 0)
unfolding count find
find-count x [] h = refl
find-count x ((j, v) ∷ d) h = ground (arith, text_eq_iff x j, text_eq_iff j x, find-count x d)

abbrev or_found : Option ClientParam → Option ClientParam → Option ClientParam
or_found (some p) o = some p
or_found none o = o

last_named-or_found :
    (x : Text) (ps : List ClientParam) (q o : Option ClientParam)
    → or_found (last_named x ps q) o ≡ last_named x ps (or_found q o)
last_named-or_found x [] q o = refl
last_named-or_found x (p ∷ ps) q o = elim (Bool-cases (text_eq p.name x)) [
  | inl e ↦ rw e (last_named-or_found x ps (some p) o)
  | inr e ↦ rw e (last_named-or_found x ps q o)
]

is_some-or_found : (q o : Option ClientParam) → is_some (or_found q o) ≡ (is_some o || is_some q)
is_some-or_found (some p) none = refl
is_some-or_found (some p) (some q) = refl
is_some-or_found none none = refl
is_some-or_found none (some q) = refl

lookup-or_found :
    (overrides from_paths : Dict ClientParam) (x : Text)
    → lookup overrides from_paths x ≡ or_found (find x overrides) (find x from_paths)
unfolding lookup
lookup-or_found overrides from_paths x = go (find x overrides)
  where
    go :
        (o : Option ClientParam)
        → (elim o [ some cp ↦ some cp | none ↦ find x from_paths ]) ≡ or_found o (find x from_paths)
    go none = refl
    go (some p) = refl

-- The names of the order, and what is found under each: a name that the paths or the operation have
-- stands in the order once, and no other name does; it has the operation's last parameter of that name,
-- and the path's if the operation has none.
pub merge_params-lookup :
    (order : HashOrder) (from_paths : Dict ClientParam) (op_params : List ClientParam) (x : Text)
    → ((y : Text) → count y (keys from_paths) ≤ 1)
    → (count x (merge_params from_paths op_params (initial_merge order from_paths)).param_order
        ≡ (if is_some (last_named x op_params (find x from_paths)) then 1 else 0))
      × (lookup
            (merge_params from_paths op_params (initial_merge order from_paths)).overrides
            from_paths
            x
          ≡ last_named x op_params (find x from_paths))
unfolding find
merge_params-lookup order from_paths op_params x table =
    let start = initial_merge order from_paths in
    let m = merge_params from_paths op_params start in
    let found = merge_params-find from_paths op_params start x in
    let either = last_named-or_found x op_params none (find x from_paths) in
    let begins : (y : Text) → count y start.param_order ≡ known_once from_paths [] y =
      λ y. count-arrange order from_paths y ∙ find-count y from_paths (table y) ∙ ground arith in
    (
      merge_params-once from_paths op_params start begins x
          ∙ rw found (
              rw (sym either)
                (rw (is_some-or_found (last_named x op_params none) (find x from_paths)) refl)),
      lookup-or_found m.overrides from_paths x ∙ rw found either,
    )

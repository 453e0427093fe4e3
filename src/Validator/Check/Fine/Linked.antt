-- ===== src/Validator/Check/Fine/Linked.antt =====
-- The same for the keywords that look at the parent, follow a reference or look at names.
use siesta.Prelude.{
  ℕ, Text, Bool, true, false, List, [], ◌∷◌, length, All, Option, none, some, ◌≡◌, refl, if_cases,
  leb, Option-cases, inl, inr, if◌then◌else◌, ◌⊎◌, lit, ◌++◌, arith, some-injective, subst,
}
use siesta.Validator.Json.{Json, get_string}
use siesta.Validator.Node.{
  Keyword, SchemaNode, Parent, no_parent, root_parent, dangling, info, children,
}
use siesta.Validator.Refs.{Compiled, Target, found, stale, missing, find_ref}
use siesta.Validator.Run.{done, undefined, ◌>>=◌, Step, skip, report_error}
use siesta.Validator.Run.Growth.{
  Begins-refl, Fine, Safe, Safe-skip, Safe-report_error, Safe-for_each, All-of,
}
use siesta.Validator.Branches.{items_in, indexed}
use siesta.Validator.Branches.Items.{enter_item}
use siesta.Validator.Branches.Parents.{
  last_with, is_then, is_else, enter_option, siblings, sibling_count, check_if, check_ref,
  check_additional_items,
}
use siesta.Validator.Check.Soundness.{Sound}
use siesta.Validator.Check.Fine.{Enters, Safe-with_first, Safe-attempt}

-- Nodes that `if` may go on to.
abbrev pub IsThenElse : {D : Type 0} → SchemaNode D → Type 0
IsThenElse m = (is_then m ≡ true) ⊎ (is_else m ≡ true)

last_with-passes :
    {D : Type 0} (p : SchemaNode D → Bool) (ms : List (SchemaNode D)) (m : SchemaNode D)
    → last_with p ms ≡ some m
    → p m ≡ true
unfolding last_with
last_with-passes p [] m e = cc
last_with-passes p (k ∷ ms) m e = elim (Option-cases (last_with p ms)) [
  | inl none_left ↦ ground (arith, some-injective k m)
  | inr (a, same) ↦ last_with-passes p ms m (cc (e, same))
]

last_with-All :
    {D : Type 0} (P : SchemaNode D → Type 0) (p : SchemaNode D → Bool) (ms : List (SchemaNode D))
    (m : SchemaNode D)
    → All P ms
    → last_with p ms ≡ some m
    → P m
unfolding last_with
last_with-All P p [] m h e = cc
last_with-All P p (k ∷ ms) m (h, hs) e = elim (Option-cases (last_with p ms)) [
  | inl none_left ↦ subst P (ground (arith, some-injective k m)) h
  | inr (a, same) ↦ last_with-All P p ms m hs (cc (e, same))
]

module _ (Allowed : Type 0) {D : Type 0} (enter : SchemaNode D → Json D → Text → Step) where
  Safe-enter_option :
      (m : Option (SchemaNode D)) (v : Json D) (place : Text)
      → ((k : SchemaNode D) → m ≡ some k → Enters Allowed enter k)
      → Safe Allowed (enter_option enter m v place)
  Safe-enter_option none v place h = Safe-skip Allowed
  Safe-enter_option (some m) v place h = h m refl v place

  Safe-follow :
      (root : SchemaNode D) (limit : Json D) (parent : Parent) (matched : Bool) (v : Json D)
      (place : Text)
      → Sound Allowed Keyword.if_schema limit parent
      → All (λ m. IsThenElse m → Enters Allowed enter m) (children root)
      → Safe Allowed (λ st. siblings root parent >>= λ ns.
          enter_option enter (last_with (if matched then is_then else is_else) ns) v place st)
  unfolding last_with
  Safe-follow root limit no_parent matched v place s h = record {
    holds = λ st. Begins-refl st.errors;
  }
  Safe-follow root limit dangling matched v place s h = record { holds = λ st. s }
  Safe-follow root limit root_parent true v place s h = Safe-enter_option _ v place λ k e.
      last_with-All (λ m. IsThenElse m → Enters Allowed enter m) is_then (children root) k h e
        (inl (last_with-passes is_then (children root) k e))
  Safe-follow root limit root_parent false v place s h = Safe-enter_option _ v place λ k e.
      last_with-All (λ m. IsThenElse m → Enters Allowed enter m) is_else (children root) k h e
        (inr (last_with-passes is_else (children root) k e))

  pub Safe-check_if :
      (root n : SchemaNode D) (v : Json D) (place : Text)
      → Sound Allowed Keyword.if_schema (info n).value (info n).parent
      → All (Enters Allowed enter) (children n)
      → All (λ m. IsThenElse m → Enters Allowed enter m) (children root)
      → Safe Allowed (check_if enter root n v place)
  unfolding check_if
  Safe-check_if root n v place s h hs = Safe-with_first Allowed (Enters Allowed enter) n _ h λ m k.
      Safe-attempt Allowed (enter m v place) _ (k v place)
        λ matched. Safe-follow root (info n).value (info n).parent matched v place s hs

  Safe-enter_target :
      (t : Target D) (v : Json D) (loc place target : Text)
      → Allowed
      → ((m : SchemaNode D) → t ≡ found m → Enters Allowed enter m)
      → Safe Allowed (elim t [
        | found m ↦ enter m v place
        | stale ↦ λ st. undefined
        | missing ↦ report_error loc (lit "Cannot resolve $ref: " ++ target)
      ])
  Safe-enter_target (found m) v loc place target s h = h m refl v place
  Safe-enter_target stale v loc place target s h = record { holds = λ st. s }
  Safe-enter_target missing v loc place target s h = Safe-report_error Allowed loc _

  pub Safe-check_ref :
      (c : Compiled D) (n : SchemaNode D) (v : Json D) (loc place : Text)
      → Allowed
      → ((m : SchemaNode D) (target : Text) → find_ref c target ≡ found m → Enters Allowed enter m)
      → Safe Allowed (check_ref enter c n v loc place)
  unfolding check_ref
  Safe-check_ref c n v loc place s h = Safe-refer (get_string (info n).value)
    where
      Safe-refer :
          (target : Option Text)
          → Safe Allowed (elim target [
            | none ↦ skip
            | some t ↦ elim (find_ref c t) [
              | found m ↦ enter m v place
              | stale ↦ λ st. undefined
              | missing ↦ report_error loc (lit "Cannot resolve $ref: " ++ t)
            ]
          ])
      Safe-refer none = Safe-skip Allowed
      Safe-refer (some t) = Safe-enter_target (find_ref c t) v loc place t s (λ m. h m t)

  Safe-beyond :
      (root : SchemaNode D) (limit : Json D) (parent : Parent) (i : ℕ) (f : Step)
      → Sound Allowed Keyword.additional_items limit parent
      → Safe Allowed f
      → Safe Allowed (λ st. sibling_count root parent >>= λ k. if leb k i then f st else done st)
  Safe-beyond root limit no_parent i f s h = record { holds = λ st. s }
  Safe-beyond root limit dangling i f s h = record { holds = λ st. s }
  Safe-beyond root limit root_parent i f s h = record {
    holds = λ st.
        if_cases (Fine Allowed st) (leb (length (children root)) i) (λ _. h.holds st)
          (λ _. Begins-refl st.errors);
  }

  pub Safe-check_additional_items :
      (print_nat : ℕ → Text) (root n : SchemaNode D) (v : Json D) (place : Text)
      → Sound Allowed Keyword.additional_items (info n).value (info n).parent
      → All (Enters Allowed enter) (children n)
      → Safe Allowed (check_additional_items enter print_nat root n v place)
  unfolding check_additional_items
  Safe-check_additional_items print_nat root n v place s h =
      Safe-with_first Allowed (Enters Allowed enter) n _ h λ m k.
        Safe-for_each Allowed (indexed 0 (items_in v)) _ (
          All-of _ λ x.
            Safe-beyond root (info n).value (info n).parent x.0
              (enter_item enter print_nat m place x) s (k x.1 _))

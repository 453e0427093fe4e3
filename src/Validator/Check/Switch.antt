-- ===== src/Validator/Check/Switch.antt =====
-- The same for the switch over the keywords.
use siesta.Prelude.{ℤ, ℕ, suc, Text, List, All, Option, none, some, ◌≡◌, refl, subst, true, false}
use siesta.Validator.Json.{Json, bool, get_int64, array, object, Outside}
use siesta.Validator.Node.{Keyword, Parent, SchemaNode, info, children}
use siesta.Validator.Refs.{Compiled, found, find_ref}
use siesta.Validator.Run.{Outcome, Step}
use siesta.Validator.Run.Growth.{Begins-refl, Safe, Safe-skip, Safe-report_error}
use siesta.Validator.Leaves.{enum_messages, required_messages}
use siesta.Validator.Check.{
  leaf_messages, check_branch, check_boolean, validate_node, or_branch, enter_by, set_max, set_min,
  set_max_contains, set_min_contains,
}
use siesta.Validator.Check.Soundness.{Sound, IsSound}
use siesta.Validator.Check.Fine.{
  Enters, Safe-check_all_of, Safe-check_any_of, Safe-check_not, Safe-check_properties,
  Safe-check_additional_properties, Safe-check_unevaluated_properties, Safe-check_dependent_schemas,
}
use siesta.Validator.Check.Fine.Items.{
  Safe-check_one_of, Safe-check_items, Safe-check_prefix_items, Safe-check_contains,
  Safe-check_unevaluated_items,
}
use siesta.Validator.Check.Fine.Linked.{
  IsThenElse, Safe-check_if, Safe-check_ref, Safe-check_additional_items,
}
use siesta.Validator.Check.Fine.Names.{
  Settled, Safe-report_messages, Safe-check_pattern_properties, Safe-check_dependent_required,
  Safe-check_property_names,
}

abbrev pub IsRefNode : {D : Type 0} → SchemaNode D → Type 0
IsRefNode n = (info n).keyword ≡ Keyword.ref

-- The nodes that a visit of a node can go on to may be entered.
pub record Reach (Allowed : Type 0) (o : Outside) (c : Compiled o.Double)
    (enter : SchemaNode o.Double → Json o.Double → Text → Step) (n : SchemaNode o.Double)
    : Type 0 where
  pub sound : IsSound Allowed n
  pub names : All (λ m. All (IsSound Allowed) (children m)) (children n)
  pub own : All (Enters Allowed enter) (children n)
  pub below : All (λ m. All (Enters Allowed enter) (children m)) (children n)
  pub follow : All (λ m. IsThenElse m → Enters Allowed enter m) (children c.root)
  pub target :
      IsRefNode n
      → (m : SchemaNode o.Double) (t : Text) → find_ref c t ≡ found m
      → Enters Allowed enter m

module _ (Allowed : Type 0) (o : Outside) (c : Compiled o.Double) where
  pub Safe-check_boolean :
      (limit : Json o.Double) (loc : Text) → Safe Allowed (check_boolean limit loc)
  unfolding check_boolean
  Safe-check_boolean (bool false) loc = Safe-report_error Allowed loc _
  Safe-check_boolean (bool true) loc = Safe-skip Allowed
  Safe-check_boolean _ loc = Safe-skip Allowed

  Safe-set_max : (z : Option ℤ) → Safe Allowed (set_max z)
  Safe-set_max none = Safe-skip Allowed
  Safe-set_max (some z) = record { holds = λ st. Begins-refl st.errors }

  Safe-set_min : (z : Option ℤ) → Safe Allowed (set_min z)
  Safe-set_min none = Safe-skip Allowed
  Safe-set_min (some z) = record { holds = λ st. Begins-refl st.errors }

  module _ (enter : SchemaNode o.Double → Json o.Double → Text → Step) where
    Sound-at :
        (k : Keyword) (n : SchemaNode o.Double)
        → (info n).keyword ≡ k
        → IsSound Allowed n
        → Sound Allowed k (info n).value (info n).parent
    Sound-at k n e s = subst (λ j. Sound Allowed j (info n).value (info n).parent) e s

    -- The switch, for a node whose visits are safe.
    pub Safe-check_branch :
        (k : Keyword) (n : SchemaNode o.Double) (v : Json o.Double) (loc place : Text)
        → (info n).keyword ≡ k
        → Reach Allowed o c enter n
        → Safe Allowed (check_branch o c enter k n v loc place)
    unfolding check_branch set_max_contains set_min_contains
    Safe-check_branch Keyword.schema n v loc place e r =
        Safe-check_all_of Allowed enter n v place r.own
    Safe-check_branch Keyword.max_contains n v loc place e r =
        Safe-set_max (get_int64 (info n).value)
    Safe-check_branch Keyword.min_contains n v loc place e r =
        Safe-set_min (get_int64 (info n).value)
    Safe-check_branch Keyword.all_of n v loc place e r =
        Safe-check_all_of Allowed enter n v place r.own
    Safe-check_branch Keyword.any_of n v loc place e r =
        Safe-check_any_of Allowed enter n v loc place r.own
    Safe-check_branch Keyword.one_of n v loc place e r =
        Safe-check_one_of Allowed enter o.print_nat n v loc place r.own
    Safe-check_branch Keyword.not_schema n v loc place e r =
        Safe-check_not Allowed enter n v loc place r.own
    Safe-check_branch Keyword.if_schema n v loc place e r =
        Safe-check_if Allowed enter c.root n v place (Sound-at Keyword.if_schema n e r.sound) r.own
          r.follow
    Safe-check_branch Keyword.properties n v loc place e r =
        Safe-check_properties Allowed enter n v place r.below
    Safe-check_branch Keyword.additional_properties n v loc place e r =
        Safe-check_additional_properties Allowed enter n v place r.own
    Safe-check_branch Keyword.items n v loc place e r =
        Safe-check_items Allowed enter o.print_nat n v place r.own
    Safe-check_branch Keyword.prefix_items n v loc place e r =
        Safe-check_prefix_items Allowed enter o.print_nat n v place r.own
    Safe-check_branch Keyword.contains n v loc place e r =
        Safe-check_contains Allowed enter o.print_nat n v loc place r.own
    Safe-check_branch Keyword.ref n v loc place e r =
        Safe-check_ref Allowed enter c n v loc place (Sound-at Keyword.ref n e r.sound) (r.target e)
    Safe-check_branch Keyword.pattern_properties n v loc place e r =
        Safe-check_pattern_properties Allowed o enter n v place r.below
    Safe-check_branch Keyword.dependent_required n v loc place e r =
        Safe-check_dependent_required Allowed o n v loc
    Safe-check_branch Keyword.dependent_schemas n v loc place e r =
        Safe-check_dependent_schemas Allowed enter n v place r.below
    Safe-check_branch Keyword.property_names n v loc place e r =
        Safe-check_property_names Allowed o n v loc r.names
    Safe-check_branch Keyword.additional_items n v loc place e r =
        Safe-check_additional_items Allowed enter o.print_nat c.root n v place
          (Sound-at Keyword.additional_items n e r.sound) r.own
    Safe-check_branch Keyword.unevaluated_properties n v loc place e r =
        Safe-check_unevaluated_properties Allowed enter n v place r.own
    Safe-check_branch Keyword.unevaluated_items n v loc place e r =
        Safe-check_unevaluated_items Allowed enter o.print_nat n v place r.own
    Safe-check_branch _ n v loc place e r = Safe-check_boolean (info n).value loc

  -- A keyword that only looks at the instance settles.
  abbrev pub SettledOption : Option (Outcome (List Text)) → Type 0
  SettledOption none = Unit
  SettledOption (some messages) = Settled Allowed messages

  enum_messages-Settled :
      (limit v : Json o.Double) (link : Parent)
      → Sound Allowed Keyword.enum limit link
      → Settled Allowed (enum_messages o limit v)
  unfolding enum_messages
  enum_messages-Settled (array vs) v link h = tt
  enum_messages-Settled _ v link h = h

  required_messages-Settled :
      (limit v : Json o.Double) (link : Parent)
      → Sound Allowed Keyword.required limit link
      → Settled Allowed (required_messages o limit v)
  unfolding required_messages
  required_messages-Settled (array names) (object fs) link h = tt
  required_messages-Settled _ (object fs) link h = h
  required_messages-Settled _ _ link h = tt

  leaf_messages-SettledOption :
      (k : Keyword) (limit v : Json o.Double) (link : Parent)
      → Sound Allowed k limit link
      → SettledOption (leaf_messages o k limit v)
  unfolding leaf_messages
  leaf_messages-SettledOption Keyword.enum limit v link h = enum_messages-Settled limit v link h
  leaf_messages-SettledOption Keyword.required limit v link h =
      required_messages-Settled limit v link h
  leaf_messages-SettledOption _ limit v link h = tt

  Safe-or_branch :
      (messages : Option (Outcome (List Text))) (loc : Text) (branch : Step)
      → SettledOption messages
      → Safe Allowed branch
      → Safe Allowed (or_branch o c messages loc branch)
  Safe-or_branch none loc branch s h = h
  Safe-or_branch (some messages) loc branch s h = Safe-report_messages Allowed loc messages s

  -- One more level of fuel.
  pub Safe-validate_node :
      (fuel : ℕ) (n : SchemaNode o.Double) (v : Json o.Double) (loc place : Text)
      → Reach Allowed o c (enter_by o c (validate_node o c fuel)) n
      → Safe Allowed (validate_node o c (suc fuel) n v loc place)
  unfolding validate_node
  Safe-validate_node fuel n v loc place r =
      Safe-or_branch _ loc _
        (leaf_messages-SettledOption (info n).keyword (info n).value v (info n).parent r.sound)
        (Safe-check_branch (enter_by o c (validate_node o c fuel)) (info n).keyword n v loc place
          refl r)

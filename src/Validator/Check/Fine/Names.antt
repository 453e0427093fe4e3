-- ===== src/Validator/Check/Fine/Names.antt =====
-- The same for the keywords that look at names of properties.
use siesta.Prelude.{Text, List, length, All, All-map, Option, none, some, ltb}
use siesta.Validator.Json.{Json, array, object, Outside, fields_of, get_string}
use siesta.Validator.Node.{Parent, Keyword, SchemaNode, info, children}
use siesta.Validator.Run.{Outcome, done, threw, undefined, out_of_fuel, ◌>>=◌, Step}
use siesta.Validator.Run.Growth.{
  Safe, Fine-bind, Safe-later, Safe-skip, Safe-report_error, Safe-when, Safe->>>, Safe-for_each,
  All-of,
}
use siesta.Validator.Branches.{report_all}
use siesta.Validator.Branches.Names.{
  check_pattern_properties, check_dependent_required, name_messages, check_name, check_name_by,
  check_property_names,
}
use siesta.Validator.Check.Soundness.{Sound, IsSound}
use siesta.Validator.Check.Fine.{
  Enters, Safe-with_first, Safe-report_all, Safe-visit_all, Safe-note_property,
}

-- A result, or else what is allowed.
abbrev pub Settled : {A : Type 0} → Type 0 → Outcome A → Type 0
Settled Allowed (done a) = Unit
Settled Allowed _ = Allowed

module _ (Allowed : Type 0) where
  pub Safe-report_messages :
      (loc : Text) (messages : Outcome (List Text))
      → Settled Allowed messages
      → Safe Allowed (λ st. messages >>= λ ms. report_all loc ms st)
  Safe-report_messages loc (done ms) h = Safe-report_all Allowed loc ms
  Safe-report_messages loc threw h = record { holds = λ st. h }
  Safe-report_messages loc undefined h = record { holds = λ st. h }
  Safe-report_messages loc out_of_fuel h = record { holds = λ st. h }

module _ (Allowed : Type 0) (o : Outside) where
  pub Safe-check_pattern_properties :
      (enter : SchemaNode o.Double → Json o.Double → Text → Step) (n : SchemaNode o.Double)
      (v : Json o.Double) (place : Text)
      → All (λ m. All (Enters Allowed enter) (children m)) (children n)
      → Safe Allowed (check_pattern_properties o enter n v place)
  unfolding check_pattern_properties
  Safe-check_pattern_properties enter n (object fs) place h = Safe-for_each Allowed (children n) _ (
      All-map (children n)
        (λ child k. Safe-for_each Allowed (fields_of fs) _ (
          All-of _ λ f. Safe-when Allowed _ _ (
            Safe->>> Allowed _ _ (Safe-visit_all Allowed enter (children child) f.1 _ k)
              (Safe-note_property Allowed _))))
        h)
  Safe-check_pattern_properties enter n _ place h = Safe-skip Allowed

  pub Safe-check_dependent_required :
      (n : SchemaNode o.Double) (v : Json o.Double) (loc : Text)
      → Safe Allowed (check_dependent_required o n v loc)
  unfolding check_dependent_required
  Safe-check_dependent_required n (object fs) loc = Safe-for_each Allowed (children n) _ (
      All-of _ λ child. Safe-when Allowed _ _ (
        Safe-with_first Allowed (λ m. Unit) child _ (All-of _ λ m. tt)
          λ m _.
            Safe-for_each Allowed (children m) _
              (All-of _ λ r. Safe-when Allowed _ _ (Safe-report_error Allowed loc _))))
  Safe-check_dependent_required n _ loc = Safe-skip Allowed

  name_messages-Settled :
      (k : Keyword) (limit : Json o.Double) (link : Parent) (key s : Text)
      → Sound Allowed k limit link
      → Settled Allowed (name_messages o k limit key s)
  unfolding name_messages
  name_messages-Settled Keyword.enum (array xs) link key s h = tt
  name_messages-Settled Keyword.enum _ link key s h = h
  name_messages-Settled _ limit link key s h = tt

  Safe-check_name_by :
      (s : Option Text) (key : Text) (subs : List (SchemaNode o.Double))
      → All (IsSound Allowed) subs
      → Safe Allowed (check_name_by o s key subs)
  unfolding check_name
  Safe-check_name_by none key subs h = Safe-skip Allowed
  Safe-check_name_by (some s) key subs h = Safe-for_each Allowed subs _ (
      All-map subs
        (λ sub sound.
          Safe-report_messages Allowed _ _ (
            name_messages-Settled (info sub).keyword (info sub).value (info sub).parent key s
              sound))
        h)

  pub Safe-check_property_names :
      (n : SchemaNode o.Double) (v : Json o.Double) (loc : Text)
      → All (λ m. All (IsSound Allowed) (children m)) (children n)
      → Safe Allowed (check_property_names o n v loc)
  unfolding check_property_names
  Safe-check_property_names n (object fs) loc h =
      Safe-with_first Allowed (λ m. All (IsSound Allowed) (children m)) n _ h
        λ m k. Safe-for_each Allowed (fields_of fs) _ (
          All-of _ λ f. record {
            holds = λ st.
                Fine-bind Allowed st _ _
                  ((Safe-check_name_by (get_string f.1) f.0 (children m) k).holds st)
                  λ after b. Safe-later Allowed st after _ b (
                    Safe-when Allowed (ltb (length st.errors) (length after.errors)) _
                      (Safe-report_error Allowed loc _));
          })
  Safe-check_property_names n _ loc h = Safe-skip Allowed

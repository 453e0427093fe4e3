-- ===== src/Validator/Branches/Items.antt =====
-- jsonschema/src/schema_types.cpp, `validate_node`: `oneOf` and the keywords that go through the items of an array.
use siesta.Prelude.{
  ℕ, Text, lit, false, ◌++◌, Option, none, some, if◌then◌else◌, ◌||◌, not, length, get_or, ltb, leb,
  ◌==◌,
}
use siesta.Validator.Json.{Json, array, items_of}
use siesta.Validator.Node.{SchemaNode, children}
use siesta.Validator.Run.{done, ◌>>=◌, Step, ◌>>>◌, skip, report_error, when, resize, for_each}
use siesta.Validator.Locations.{location_below}
use siesta.Validator.Branches.{
  note_item, with_first, items_in, indexed, count_clean, node_at, contains_message,
}

module _ {D : Type 0} (enter : SchemaNode D → Json D → Text → Step) (print_nat : ℕ → Text) where
  unfoldable pub check_one_of : SchemaNode D → Json D → Text → Text → Step
  unfolding count_clean
  check_one_of n v loc place st = count_clean (λ m. enter m v place) (children n) 0 st >>= λ r.
      when (not (r.0 == 1))
        (report_error loc (
          lit "Value must match exactly one of the oneOf schemas"
          ++ (if r.0 == 0
              then lit " (matched " ++ (print_nat r.0 ++ lit ")")
              else lit " (matched " ++ (print_nat r.0 ++ lit ", expected 1)"))))
        (resize (length st.errors) r.1)

  abbrev pub enter_item : SchemaNode D → Text → ℕ × Json D → Step
  enter_item m place x = enter m x.1 (location_below place (print_nat x.0))

  unfoldable pub check_items : SchemaNode D → Json D → Text → Step
  unfolding for_each location_below
  check_items n v place =
      with_first n λ m. for_each (indexed 0 (items_in v)) λ x. enter_item m place x >>> note_item

  abbrev pub enter_pick : Option (SchemaNode D) → Text → ℕ × Json D → Step
  enter_pick none place x = skip
  enter_pick (some m) place x = enter_item m place x

  unfoldable pub check_prefix_items : SchemaNode D → Json D → Text → Step
  unfolding for_each location_below
  check_prefix_items n v place =
      for_each (indexed 0 (items_in v))
        λ x. enter_pick (node_at (children n) x.0) place x >>> note_item

  unfoldable pub check_contains : SchemaNode D → Json D → Text → Text → Step
  unfolding count_clean location_below
  check_contains n v loc place = elim v [
    | array xs ↦ with_first n λ m st.
        count_clean (enter_item m place) (indexed 0 (items_of xs)) 0 st >>= λ r.
        when (ltb r.0 1) (report_error loc contains_message) r.1
    | _ ↦ skip
  ]

  unfoldable pub check_unevaluated_items : SchemaNode D → Json D → Text → Step
  unfolding for_each location_below
  check_unevaluated_items n v place = with_first n λ m. for_each (indexed 0 (items_in v)) λ x st.
      if leb (length st.evaluated_items) x.0 || not (get_or st.evaluated_items x.0 false)
      then enter_item m place x st
      else done st

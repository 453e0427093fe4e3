-- ===== src/Validator/Check/Fine/Items.antt =====
-- The same for the keywords that go through the items of an array, and for `oneOf`.
use siesta.Prelude.{
  ℕ, Text, false, not, length, All, All-map, Option, none, some, ◌≡◌, refl, if_cases, leb, ◌||◌,
  get_or,
}
use siesta.Validator.Json.{Json, array, items_of}
use siesta.Validator.Node.{SchemaNode, children}
use siesta.Validator.Run.{Step, resize}
use siesta.Validator.Run.Growth.{
  Begins-refl, Begins-resize, Fine, Safe, Fine-bind_pair, Safe-later, Safe-skip, Safe-report_error,
  Safe-when, Safe->>>, Safe-for_each, All-of,
}
use siesta.Validator.Branches.{contains_message, items_in, indexed, node_at}
use siesta.Validator.Branches.Items.{
  enter_pick, check_one_of, check_items, check_prefix_items, check_contains,
  check_unevaluated_items,
}
use siesta.Validator.Check.Fine.{
  Enters, Safe-with_first, Safe-note_item, FinePair-count_clean, All-node_at,
}

module _ (Allowed : Type 0) {D : Type 0} (enter : SchemaNode D → Json D → Text → Step)
    (print_nat : ℕ → Text) where
  pub Safe-check_one_of :
      (n : SchemaNode D) (v : Json D) (loc place : Text)
      → All (Enters Allowed enter) (children n)
      → Safe Allowed (check_one_of enter print_nat n v loc place)
  unfolding check_one_of
  Safe-check_one_of n v loc place h = record {
    holds = λ st.
        Fine-bind_pair Allowed st _ _
          (FinePair-count_clean Allowed _ (children n) 0 st
            (All-map (children n) (λ m k. k v place) h))
          λ r b.
            let back = resize (length st.errors) r.1 in
            Safe-later Allowed st back _ (Begins-resize st r.1 b)
              (Safe-when Allowed _ _ (Safe-report_error Allowed loc _));
  }

  pub Safe-check_items :
      (n : SchemaNode D) (v : Json D) (place : Text)
      → All (Enters Allowed enter) (children n)
      → Safe Allowed (check_items enter print_nat n v place)
  unfolding check_items
  Safe-check_items n v place h = Safe-with_first Allowed (Enters Allowed enter) n _ h λ m k.
      Safe-for_each Allowed (indexed 0 (items_in v)) _
        (All-of _ λ x. Safe->>> Allowed _ _ (k x.1 _) (Safe-note_item Allowed))

  Safe-enter_pick :
      (m : Option (SchemaNode D)) (place : Text) (x : ℕ × Json D)
      → ((k : SchemaNode D) → m ≡ some k → Enters Allowed enter k)
      → Safe Allowed (enter_pick enter print_nat m place x)
  Safe-enter_pick none place x h = Safe-skip Allowed
  Safe-enter_pick (some m) place x h = h m refl x.1 _

  pub Safe-check_prefix_items :
      (n : SchemaNode D) (v : Json D) (place : Text)
      → All (Enters Allowed enter) (children n)
      → Safe Allowed (check_prefix_items enter print_nat n v place)
  unfolding check_prefix_items
  Safe-check_prefix_items n v place h = Safe-for_each Allowed (indexed 0 (items_in v)) _ (
      All-of _ λ x.
        Safe->>> Allowed _ _
          (Safe-enter_pick (node_at (children n) x.0) place x
            (λ k e. All-node_at Allowed (Enters Allowed enter) (children n) x.0 k h e))
          (Safe-note_item Allowed))

  pub Safe-check_contains :
      (n : SchemaNode D) (v : Json D) (loc place : Text)
      → All (Enters Allowed enter) (children n)
      → Safe Allowed (check_contains enter print_nat n v loc place)
  unfolding check_contains
  Safe-check_contains n (array xs) loc place h =
      Safe-with_first Allowed (Enters Allowed enter) n _ h λ m k. record {
        holds = λ st.
            Fine-bind_pair Allowed st _ _
              (FinePair-count_clean Allowed _ (indexed 0 (items_of xs)) 0 st
                (All-of _ λ x. k x.1 _))
              λ r b.
                Safe-later Allowed st r.1 _ b
                  (Safe-when Allowed _ _ (Safe-report_error Allowed loc contains_message));
      }
  Safe-check_contains n _ loc place h = Safe-skip Allowed

  pub Safe-check_unevaluated_items :
      (n : SchemaNode D) (v : Json D) (place : Text)
      → All (Enters Allowed enter) (children n)
      → Safe Allowed (check_unevaluated_items enter print_nat n v place)
  unfolding check_unevaluated_items
  Safe-check_unevaluated_items n v place h =
      Safe-with_first Allowed (Enters Allowed enter) n _ h λ m k.
        Safe-for_each Allowed (indexed 0 (items_in v)) _ (
          All-of _ λ x. record {
            holds = λ st.
                if_cases (Fine Allowed st)
                  (leb (length st.evaluated_items) x.0 || not (get_or st.evaluated_items x.0 false))
                  (λ _. (k x.1 _).holds st) (λ _. Begins-refl st.errors);
          })

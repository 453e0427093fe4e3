-- ===== src/Validator/Check/Fine.antt =====
-- The keywords that visit other nodes: they only add errors, and the fuel does not run out, where the
-- same holds of the visits.
pub mod Items
pub mod Linked
pub mod Names
use siesta.Prelude.{
  ℕ, zero, suc, subst, some-injective, arith, Text, Bool, true, false, not, List, [], ◌∷◌, ◌++◌,
  if◌then◌else◌, ◌==◌, length, All, All-map, Option, none, some, ◌≡◌, refl, if_cases, ltb, leb,
  ◌||◌, has, get_or,
}
use siesta.Validator.Json
use siesta.Validator.Json.{Json, array, object, items_of, fields_of}
use siesta.Validator.Node
use siesta.Validator.Node.{SchemaNode, node, Nodes, children}
use siesta.Validator.Values.{find_field}
use siesta.Validator.Run.{
  Outcome, done, ◌>>=◌, State, Step, ◌>>>◌, skip, report_error, when, resize, for_each,
}
use siesta.Validator.Run.Growth.{
  Begins, Begins-refl, Begins-trans, Begins-resize, Fine, FinePair, Safe, Fine-bind, Fine-bind_pair,
  FinePair-bind, Fine-earlier, FinePair-earlier, Safe-then, Safe-later, Safe-skip,
  Safe-report_error, Safe-when, Safe->>>, Safe-if, Safe-for_each, All-of,
}
use siesta.Validator.Branches.{
  report_all, note_property, note_item, as_clean, not_message, contains_message, with_first,
  fields_in, items_in, has_name, schema_name, indexed, nth, last_of, count_clean, any_clean,
  attempt, node_at, visit_all, enter_rest, enter_property, check_all_of, check_any_of, check_not,
  check_properties, check_additional_properties, check_unevaluated_properties,
  check_dependent_schemas,
}
use siesta.Validator.Branches.Items.{
  enter_item, enter_pick, check_one_of, check_items, check_prefix_items, check_contains,
  check_unevaluated_items,
}

module _ (Allowed : Type 0) where
  pub Safe-report_all : (loc : Text) (ms : List Text) → Safe Allowed (report_all loc ms)
  Safe-report_all loc [] = Safe-skip Allowed
  Safe-report_all loc (m ∷ ms) =
      Safe->>> Allowed (report_error loc m) (report_all loc ms) (Safe-report_error Allowed loc m)
        (Safe-report_all loc ms)

  pub Safe-note_property : (name : Text) → Safe Allowed (note_property name)
  Safe-note_property name = record { holds = λ st. Begins-refl st.errors }

  pub Safe-note_item : Safe Allowed note_item
  Safe-note_item = record { holds = λ st. Begins-refl st.errors }

  pub Safe-with_first :
      {D : Type 0} (P : SchemaNode D → Type 0) (n : SchemaNode D) (f : SchemaNode D → Step)
      → All P (children n)
      → ((m : SchemaNode D) → P m → Safe Allowed (f m))
      → Safe Allowed (with_first n f)
  Safe-with_first P (node i Nodes.nil) f h k = Safe-skip Allowed
  Safe-with_first P (node i (Nodes.cons m ms)) f h k = k m h.0

  module _ {ℓ} {A : Type ℓ} where
    pub FinePair-count_clean :
        (f : A → Step) (xs : List A) (k : ℕ) (st : State)
        → All (λ x. Safe Allowed (f x)) xs
        → FinePair Allowed st (count_clean f xs k st)
    unfolding count_clean
    FinePair-count_clean f [] k st _ = Begins-refl st.errors
    FinePair-count_clean f (x ∷ xs) k st (h, hs) =
        FinePair-bind Allowed st (f x st) _ (h.holds st) λ after b.
          let back = resize (length st.errors) after in
          if_cases (FinePair Allowed st) (as_clean st after)
            (λ _.
              FinePair-earlier Allowed st after _ b (FinePair-count_clean f xs (suc k) after hs))
            (λ _.
              FinePair-earlier Allowed st back _ (Begins-resize st after b)
                (FinePair-count_clean f xs k back hs))

    FinePair-any_clean :
        (f : A → Step) (xs : List A) (st : State)
        → All (λ x. Safe Allowed (f x)) xs
        → FinePair Allowed st (any_clean f xs st)
    unfolding any_clean
    FinePair-any_clean f [] st _ = Begins-refl st.errors
    FinePair-any_clean f (x ∷ xs) st (h, hs) =
        FinePair-bind Allowed st (f x st) _ (h.holds st) λ after b.
          if_cases (FinePair Allowed st) (as_clean st after) (λ _. b)
            (λ _. FinePair-earlier Allowed st after _ b (FinePair-any_clean f xs after hs))

    All-nth : (P : A → Type 0) (xs : List A) (i : ℕ) (x : A) → All P xs → nth xs i ≡ some x → P x
    All-nth P [] i x h e = cc
    All-nth P (y ∷ xs) zero x (h, hs) e = subst P (some-injective _ _ e) h
    All-nth P (y ∷ xs) (suc i) x (h, hs) e = All-nth P xs i x hs e

    All-last_of : (P : A → Type 0) (xs : List A) (x : A) → All P xs → last_of xs ≡ some x → P x
    All-last_of P [] x h e = cc
    All-last_of P (y ∷ []) x (h, hs) e = subst P (some-injective _ _ e) h
    All-last_of P (y ∷ z ∷ xs) x (h, hs) e = All-last_of P (z ∷ xs) x hs e

    pub All-node_at :
        (P : A → Type 0) (xs : List A) (i : ℕ) (x : A) → All P xs → node_at xs i ≡ some x → P x
    All-node_at P xs i x h e = ground (arith, All-nth P xs i x h, All-last_of P xs x h)

  pub Safe-attempt :
      (f : Step) (next : Bool → Step)
      → Safe Allowed f
      → ((matched : Bool) → Safe Allowed (next matched))
      → Safe Allowed (attempt f next)
  Safe-attempt f next h k = record {
    holds = λ st. Fine-bind Allowed st (f st) _ (h.holds st) λ after b.
        let back = resize (length st.errors) after in
        Fine-earlier Allowed st back _ (Begins-resize st after b)
          ((k (as_clean st after)).holds back);
  }

module _ (Allowed : Type 0) {D : Type 0} (enter : SchemaNode D → Json D → Text → Step) where
  -- A node may be entered with any instance.
  abbrev pub Enters : SchemaNode D → Type 0
  Enters m = (v : Json D) (place : Text) → Safe Allowed (enter m v place)

  pub Safe-visit_all :
      (ms : List (SchemaNode D)) (v : Json D) (place : Text)
      → All Enters ms
      → Safe Allowed (visit_all enter ms v place)
  Safe-visit_all ms v place h = Safe-for_each Allowed ms _ (All-map ms (λ m k. k v place) h)

  pub Safe-check_all_of :
      (n : SchemaNode D) (v : Json D) (place : Text)
      → All Enters (children n)
      → Safe Allowed (check_all_of enter n v place)
  unfolding check_all_of
  Safe-check_all_of n v place h = Safe-visit_all (children n) v place h

  pub Safe-check_any_of :
      (n : SchemaNode D) (v : Json D) (loc place : Text)
      → All Enters (children n)
      → Safe Allowed (check_any_of enter n v loc place)
  unfolding check_any_of
  Safe-check_any_of n v loc place h = record {
    holds = λ st.
        Fine-bind_pair Allowed st _ _
          (FinePair-any_clean Allowed _ (children n) st (All-map (children n) (λ m k. k v place) h))
          λ r b.
            let back = resize (length st.errors) r.1 in
            Fine-earlier Allowed st back _ (Begins-resize st r.1 b)
              ((Safe-when Allowed _ _ (Safe-report_error Allowed loc _)).holds back);
  }

  pub Safe-check_not :
      (n : SchemaNode D) (v : Json D) (loc place : Text)
      → All Enters (children n)
      → Safe Allowed (check_not enter n v loc place)
  unfolding check_not
  Safe-check_not n v loc place h = Safe-with_first Allowed Enters n _ h λ m k. record {
    holds = λ st. Fine-bind Allowed st _ _ ((k v place).holds st) λ after b.
        if_cases (Fine Allowed st) (as_clean st after)
          (λ _.
            Safe-later Allowed st after (report_error loc not_message) b
              (Safe-report_error Allowed loc not_message))
          (λ _. Begins-resize st after b);
  }

  Safe-enter_property :
      (found : Option (Json D)) (child : SchemaNode D) (place : Text)
      → All Enters (children child)
      → Safe Allowed (enter_property enter found child place)
  Safe-enter_property none child place h = Safe-skip Allowed
  Safe-enter_property (some w) child place h =
      Safe->>> Allowed _ _ (Safe-visit_all (children child) w _ h) (Safe-note_property Allowed _)

  pub Safe-check_properties :
      (n : SchemaNode D) (v : Json D) (place : Text)
      → All (λ m. All Enters (children m)) (children n)
      → Safe Allowed (check_properties enter n v place)
  unfolding check_properties
  Safe-check_properties n (object fs) place h = Safe-for_each Allowed (children n) _ (
      All-map (children n)
        (λ child k. Safe-enter_property (find_field (schema_name child) fs) child place k) h)
  Safe-check_properties n _ place h = Safe-skip Allowed

  Safe-rest :
      (n : SchemaNode D) (fs : List (Text × Json D)) (place : Text)
      → All Enters (children n)
      → Safe Allowed (with_first n λ m. for_each fs (enter_rest enter m place))
  Safe-rest n fs place h = Safe-with_first Allowed Enters n _ h λ m k. Safe-for_each Allowed fs _ (
      All-of fs λ f. record {
        holds = λ st.
            if_cases (Fine Allowed st) (has f.0 st.evaluated_properties)
              (λ _. Begins-refl st.errors) (λ _. (k f.1 _).holds st);
      })

  pub Safe-check_additional_properties :
      (n : SchemaNode D) (v : Json D) (place : Text)
      → All Enters (children n)
      → Safe Allowed (check_additional_properties enter n v place)
  unfolding check_additional_properties
  Safe-check_additional_properties n (object fs) place h = Safe-rest n (fields_of fs) place h
  Safe-check_additional_properties n _ place h = Safe-skip Allowed

  pub Safe-check_unevaluated_properties :
      (n : SchemaNode D) (v : Json D) (place : Text)
      → All Enters (children n)
      → Safe Allowed (check_unevaluated_properties enter n v place)
  unfolding check_unevaluated_properties
  Safe-check_unevaluated_properties n (object fs) place h = Safe-rest n (fields_of fs) place h
  Safe-check_unevaluated_properties n _ place h = Safe-skip Allowed

  pub Safe-check_dependent_schemas :
      (n : SchemaNode D) (v : Json D) (place : Text)
      → All (λ m. All Enters (children m)) (children n)
      → Safe Allowed (check_dependent_schemas enter n v place)
  unfolding check_dependent_schemas
  Safe-check_dependent_schemas n (object fs) place h = Safe-for_each Allowed (children n) _ (
      All-map (children n)
        (λ child k. Safe-when Allowed _ _ (Safe-visit_all (children child) (object fs) place k)) h)
  Safe-check_dependent_schemas n _ place h = Safe-skip Allowed

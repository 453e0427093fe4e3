-- ===== src/Validator/Leaves/Required.antt =====
-- `required`: what passes.
use siesta.Prelude.{Text, true, List, [], ◌∷◌, All, ◌≡◌, ◌↔◌, refl, arith, Bool-cases, inl, inr}
use siesta.Validator.Json.{
  Json, string, array, object, Fields, end, field, Items, items_of, Outside,
}
use siesta.Validator.Values.{find_field}
use siesta.Validator.Values.Equality.{has_field}
use siesta.Validator.Run.{done}
use siesta.Validator.Leaves.{is_present, missing_messages, required_messages}

-- If the value is a text, it is the name of a field.
abbrev pub NamesField : {D : Type 0} → Fields D → Json D → Type 0
NamesField fs (string name) = has_field name fs ≡ true
NamesField fs _ = Unit

is_present-find_field :
    {D : Type 0} (name : Text) (fs : Fields D) → is_present (find_field name fs) ≡ has_field name fs
unfolding find_field
is_present-find_field name end = refl
is_present-find_field name (field j v fs) = ground (arith, is_present-find_field name fs)

module _ (o : Outside) where
  missing_messages-none :
      (names : List (Json o.Double)) (fs : Fields o.Double)
      → All (NamesField fs) names
      → missing_messages o names fs ≡ []
  unfolding missing_messages
  missing_messages-none [] fs h = refl
  missing_messages-none (string name ∷ names) fs (h, hs) =
      rw (is_present-find_field name fs, h) (missing_messages-none names fs hs)
  missing_messages-none (_ ∷ names) fs (h, hs) = missing_messages-none names fs hs

  missing_messages-All :
      (names : List (Json o.Double)) (fs : Fields o.Double)
      → missing_messages o names fs ≡ []
      → All (NamesField fs) names
  unfolding missing_messages
  missing_messages-All [] fs h = tt
  missing_messages-All (string name ∷ names) fs h = elim (Bool-cases (has_field name fs)) [
    | inl e ↦ (e, missing_messages-All names fs (rw (is_present-find_field name fs, e) at h))
    | inr e ↦ cc (rw (is_present-find_field name fs, e) at h)
  ]
  missing_messages-All (_ ∷ names) fs h = (tt, missing_messages-All names fs h)

-- Of an object, `required` reports no error exactly if every text of its list is the name of a field.
pub required_messages-NamesField :
    (o : Outside) (names : Items o.Double) (fs : Fields o.Double)
    → (required_messages o (array names) (object fs) ≡ done [])
      ↔ All (NamesField fs) (items_of names)
unfolding required_messages
required_messages-NamesField o names fs = (
  λ e. missing_messages-All o (items_of names) fs cc,
  λ h. rw (missing_messages-none o (items_of names) fs h) refl,
)

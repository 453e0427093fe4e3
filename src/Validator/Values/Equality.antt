-- ===== src/Validator/Values/Equality.antt =====
-- Which values count as equal.
use siesta.Prelude.{
  Text, text_eq, text_eq_iff, text_eq_refl, Bool, true, false, some, ◌||◌, ◌≡◌, refl, arith,
  Bool-cases, inl, inr,
}
use siesta.Validator.Json.{
  Json, null, bool, int64, uint64, double, string, array, object, Items, nil, cons, Fields, end,
  field, Outside,
}
use siesta.Validator.Values.{find_field, close, json_equal, items_equal, fields_equal}

abbrev pub has_field : {D : Type 0} → Text → Fields D → Bool
has_field k end = false
has_field k (field j _ fs) = text_eq j k || has_field k fs

-- No object has two fields of one name, at any depth, and every number is within the tolerance of itself,
-- which holds of all numbers but infinities and what is no number.
module _ (o : Outside) where
  abbrev mutual
    pub IsSimple : Json o.Double → Type 0
    IsSimple (array xs) = AllSimple xs
    IsSimple (object fs) = FieldsSimple fs
    IsSimple (int64 z) = close o (o.of_int z) (o.of_int z) ≡ true
    IsSimple (uint64 n) = close o (o.of_nat n) (o.of_nat n) ≡ true
    IsSimple (double d) = close o d d ≡ true
    IsSimple _ = Unit

    pub AllSimple : Items o.Double → Type 0
    AllSimple nil = Unit
    AllSimple (cons x xs) = IsSimple x × AllSimple xs

    pub FieldsSimple : Fields o.Double → Type 0
    FieldsSimple end = Unit
    FieldsSimple (field k v fs) = IsSimple v × ((has_field k fs ≡ false) × FieldsSimple fs)

find_field-has_field :
    {D : Type 0} (k : Text) (fs : Fields D) (v : Json D)
    → find_field k fs ≡ some v
    → has_field k fs ≡ true
unfolding find_field
find_field-has_field k end v h = cc
find_field-has_field k (field j w fs) v h = ground (arith, find_field-has_field k fs v)

find_field-behind :
    {D : Type 0} (k j : Text) (v w : Json D) (fs : Fields D)
    → has_field k fs ≡ false
    → find_field j fs ≡ some w
    → find_field j (field k v fs) ≡ some w
unfolding find_field
find_field-behind k j v w fs fresh h = elim (Bool-cases (text_eq k j)) [
  | inl e ↦ absurd (ground (arith, find_field-has_field j fs w, text_eq_iff k j))
  | inr e ↦ rw e h
]

find_field-first :
    {D : Type 0} (k : Text) (v : Json D) (fs : Fields D) → find_field k (field k v fs) ≡ some v
unfolding find_field
find_field-first k v fs = rw (text_eq_refl k) refl

module _ (o : Outside) where
  mutual
    unfolding json_equal items_equal fields_equal

    equal_self : (v : Json o.Double) → IsSimple o v → json_equal o v v ≡ true
    equal_self null s = refl
    equal_self (bool true) s = refl
    equal_self (bool false) s = refl
    equal_self (int64 z) s = s
    equal_self (uint64 n) s = s
    equal_self (double d) s = s
    equal_self (string t) s = text_eq_refl t
    equal_self (array xs) s = items_self xs s
    equal_self (object fs) s = fields_self fs fs s (λ k v h. h)

    items_self : (xs : Items o.Double) → AllSimple o xs → items_equal o xs xs ≡ true
    items_self nil s = refl
    items_self (cons x xs) (s, ss) = ground (arith, equal_self x s, items_self xs ss)

    fields_self :
        (fs gs : Fields o.Double)
        → FieldsSimple o fs
        → ((k : Text) (v : Json o.Double) → find_field k fs ≡ some v → find_field k gs ≡ some v)
        → fields_equal o fs gs ≡ true
    fields_self end gs s h = refl
    fields_self (field k v fs) gs (s, (fresh, ss)) h =
        let here : find_field k gs ≡ some v = h k v (find_field-first k v fs) in
        rw (here, fields_equal)
          (ground (
            arith,
            equal_self v s,
            fields_self fs gs ss (λ j w e. h j w (find_field-behind k j v w fs fresh e)),
          ))

-- A value is equal to itself if no object in it has two fields of one name and every number in it is within
-- the tolerance of itself.
pub json_equal_refl : (o : Outside) (v : Json o.Double) → IsSimple o v → json_equal o v v ≡ true
json_equal_refl o v s = equal_self o v s

-- A field that only the right object has changes nothing: an object with more fields than the left one
-- still counts as equal to it.
pub json_equal-field :
    (o : Outside) (k : Text) (v : Json o.Double) (fs gs : Fields o.Double)
    → has_field k fs ≡ false
    → json_equal o (object fs) (object (field k v gs)) ≡ json_equal o (object fs) (object gs)
unfolding json_equal fields_equal find_field
json_equal-field o k v end gs h = refl
json_equal-field o k v (field j w fs) gs h =
    ground (arith, json_equal-field o k v fs gs, text_eq_iff k j, text_eq_iff j k)

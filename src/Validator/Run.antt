-- ===== src/Validator/Run.antt =====
-- How code of jsonschema/src/schema_types.cpp ends, and the state of a validation.
pub mod Growth
use siesta.Prelude.{
  ℕ, zero, suc, ◌-◌, ◌+◌, ◌^◌, ◌<◌, Text, lit, text_eq, Bool, true, false, List, [], ◌∷◌, ◌++◌,
  Option, none, some, if◌then◌else◌, length, ltb, ℤ, pos, negsuc, has,
}
use siesta.Validator.Uri.{InstanceLocation, no_location}

-- A result; an exception; a read through a pointer to something that is gone; and a recursion that the
-- model cuts off.
pub data Outcome (A : Type 0) : Type 0 where
  done : A → Outcome A
  threw : Outcome A
  undefined : Outcome A
  out_of_fuel : Outcome A

infixl 5 ◌>>=◌
abbrev pub ◌>>=◌ : {A B : Type 0} → Outcome A → (A → Outcome B) → Outcome B
done a >>= f = f a
threw >>= f = threw
undefined >>= f = undefined
out_of_fuel >>= f = out_of_fuel

pub record ValidationError : Type 0 where
  pub instance_location : InstanceLocation
  pub schema_uri : Text
  pub message : Text

-- `errors_`, and the context of the evaluation.
pub record State : Type 0 where
  pub errors : List ValidationError
  pub evaluated_items : List Bool
  pub evaluated_properties : List Text
  pub min_contains_count : ℕ
  pub max_contains_count : ℕ

abbrev pub Step : Type 0
Step = State → Outcome State

infixl 6 ◌>>>◌
abbrev pub ◌>>>◌ : Step → Step → Step
◌>>>◌ f g st = f st >>= g

abbrev pub skip : Step
skip st = done st

abbrev pub fail_with : Text → Text → State → State
fail_with schema_location message st = record st {
  errors =
      st.errors
      ++ record { instance_location = no_location; schema_uri = schema_location; message = message }
        ∷ [];
}

-- errors_.emplace_back(InstanceLocation(), schema_location, message)
abbrev pub report_error : Text → Text → Step
report_error schema_location message st = done (fail_with schema_location message st)

abbrev pub when : Bool → Step → Step
when true f = f
when false f = skip

abbrev pub take {ℓ} : {A : Type ℓ} → ℕ → List A → List A
take zero xs = []
take (suc n) [] = []
take (suc n) (x ∷ xs) = x ∷ take n xs

-- errors_.resize(n), for an n that is not more than the size
abbrev pub resize : ℕ → State → State
resize n st = record st { errors = take n st.errors }

-- `for (const auto& x : xs)`
unfoldable pub for_each {ℓ} : {A : Type ℓ} → List A → (A → Step) → Step
for_each [] f st = done st
for_each (x ∷ xs) f st = f x st >>= for_each xs f

-- The same with an index.
unfoldable pub for_indexed {ℓ} : {A : Type ℓ} → ℕ → List A → (ℕ → A → Step) → Step
for_indexed i [] f st = done st
for_indexed i (x ∷ xs) f st = f i x st >>= for_indexed (suc i) xs f

-- static_cast<size_t> of an int64_t
abbrev pub to_size : ℤ → ℕ
to_size (pos n) = n
to_size (negsuc n) = 2 ^ 64 - suc n

-- `static_cast<int64_t>(n) < z`, and `> z`
abbrev pub below_int : ℕ → ℤ → Bool
below_int n (pos m) = ltb n m
below_int n (negsuc m) = false

abbrev pub above_int : ℕ → ℤ → Bool
above_int n (pos m) = ltb m n
above_int n (negsuc m) = true

-- ===== src/Validator/Run/Growth.antt =====
-- Steps that only add errors, one rule for each way to build a step.
use siesta.Prelude.{
  Text, Bool, true, false, List, [], ◌∷◌, ◌++◌, append_assoc, append-nil, if◌then◌else◌, length,
  All, ◌≡◌, refl, sym,
}
use siesta.Validator.Run.{
  Outcome, done, threw, undefined, out_of_fuel, ◌>>=◌, State, Step, ◌>>>◌, skip, report_error, when,
  take, for_each,
}

-- The first list is the beginning of the second.
abbrev pub Begins {ℓ} : {A : Type ℓ} → List A → List A → Type ℓ
Begins {A = A} xs ys = (zs : List A) × (ys ≡ xs ++ zs)

module _ {ℓ} {A : Type ℓ} where
  pub Begins-refl : (xs : List A) → Begins xs xs
  Begins-refl xs = ([], sym (append-nil xs))

  pub Begins-trans : (xs ys zs : List A) → Begins xs ys → Begins ys zs → Begins xs zs
  Begins-trans xs ys zs (us, e) (vs, d) = (us ++ vs, rw d (rw e (append_assoc xs us vs)))

  pub take-append : (xs ys : List A) → take (length xs) (xs ++ ys) ≡ xs
  take-append [] ys = refl
  take-append (x ∷ xs) ys = rw (take-append xs ys) refl

  pub take-Begins : (xs ys : List A) → Begins xs ys → take (length xs) ys ≡ xs
  take-Begins xs ys (zs, e) = rw e (take-append xs zs)

-- The errors of a result that is one begin with those of before; `Allowed` says whether there may be none: by an
-- exception, a stale pointer or the end of the fuel.
abbrev pub Fine : Type 0 → State → Outcome State → Type 0
Fine Allowed st (done after) = Begins st.errors after.errors
Fine Allowed st threw = Allowed
Fine Allowed st undefined = Allowed
Fine Allowed st out_of_fuel = Allowed

abbrev pub FinePair : {A : Type 0} → Type 0 → State → Outcome (A × State) → Type 0
FinePair Allowed st (done r) = Begins st.errors r.1.errors
FinePair Allowed st threw = Allowed
FinePair Allowed st undefined = Allowed
FinePair Allowed st out_of_fuel = Allowed

pub record Safe (Allowed : Type 0) (f : Step) : Type 0 where
  pub holds : (st : State) → Fine Allowed st (f st)

-- The errors of a state that comes later, taken back.
pub Begins-resize :
    (st after : State)
    → Begins st.errors after.errors
    → Begins st.errors (take (length st.errors) after.errors)
Begins-resize st after b =
    ([], rw (take-Begins st.errors after.errors b) (sym (append-nil st.errors)))

module _ (Allowed : Type 0) where
  -- What comes after a fine result.
  pub Fine-bind :
      (st : State) (out : Outcome State) (f : Step)
      → Fine Allowed st out
      → ((after : State) → Begins st.errors after.errors → Fine Allowed st (f after))
      → Fine Allowed st (out >>= f)
  Fine-bind st (done after) f h k = k after h
  Fine-bind st threw f h k = h
  Fine-bind st undefined f h k = h
  Fine-bind st out_of_fuel f h k = h

  pub Fine-bind_pair :
      {A : Type 0} (st : State) (out : Outcome (A × State)) (f : A × State → Outcome State)
      → FinePair Allowed st out
      → ((r : A × State) → Begins st.errors r.1.errors → Fine Allowed st (f r))
      → Fine Allowed st (out >>= f)
  Fine-bind_pair st (done r) f h k = k r h
  Fine-bind_pair st threw f h k = h
  Fine-bind_pair st undefined f h k = h
  Fine-bind_pair st out_of_fuel f h k = h

  pub FinePair-bind :
      {A : Type 0} (st : State) (out : Outcome State) (f : State → Outcome (A × State))
      → Fine Allowed st out
      → ((after : State) → Begins st.errors after.errors → FinePair Allowed st (f after))
      → FinePair Allowed st (out >>= f)
  FinePair-bind st (done after) f h k = k after h
  FinePair-bind st threw f h k = h
  FinePair-bind st undefined f h k = h
  FinePair-bind st out_of_fuel f h k = h

  -- A state may be replaced by an earlier one.
  pub Fine-earlier :
      (st mid : State) (out : Outcome State)
      → Begins st.errors mid.errors
      → Fine Allowed mid out
      → Fine Allowed st out
  Fine-earlier st mid (done after) b h = Begins-trans st.errors mid.errors after.errors b h
  Fine-earlier st mid threw b h = h
  Fine-earlier st mid undefined b h = h
  Fine-earlier st mid out_of_fuel b h = h

  pub FinePair-earlier :
      {A : Type 0} (st mid : State) (out : Outcome (A × State))
      → Begins st.errors mid.errors
      → FinePair Allowed mid out
      → FinePair Allowed st out
  FinePair-earlier st mid (done r) b h = Begins-trans st.errors mid.errors r.1.errors b h
  FinePair-earlier st mid threw b h = h
  FinePair-earlier st mid undefined b h = h
  FinePair-earlier st mid out_of_fuel b h = h

  pub Safe-then :
      (st : State) (out : Outcome State) (f : Step)
      → Fine Allowed st out
      → Safe Allowed f
      → Fine Allowed st (out >>= f)
  Safe-then st out f h k =
      Fine-bind st out f h λ after b. Fine-earlier st after (f after) b (k.holds after)

  pub Safe-later :
      (st after : State) (f : Step)
      → Begins st.errors after.errors
      → Safe Allowed f
      → Fine Allowed st (f after)
  Safe-later st after f b h = Fine-earlier st after (f after) b (h.holds after)

  pub Safe-skip : Safe Allowed skip
  Safe-skip = record { holds = λ st. Begins-refl st.errors }

  pub Safe-report_error : (loc message : Text) → Safe Allowed (report_error loc message)
  Safe-report_error loc message = record { holds = λ st. (_, refl) }

  pub Safe-when : (b : Bool) (f : Step) → Safe Allowed f → Safe Allowed (when b f)
  Safe-when true f h = h
  Safe-when false f h = Safe-skip

  pub Safe->>> : (f g : Step) → Safe Allowed f → Safe Allowed g → Safe Allowed (f >>> g)
  Safe->>> f g h k = record { holds = λ st. Safe-then st (f st) g (h.holds st) k }

  pub Safe-if :
      (b : Bool) (f g : Step) (st : State)
      → Safe Allowed f
      → Safe Allowed g
      → Fine Allowed st (if b then f st else g st)
  Safe-if true f g st h k = h.holds st
  Safe-if false f g st h k = k.holds st

  pub Safe-for_each {ℓ} :
      {A : Type ℓ} (xs : List A) (f : A → Step)
      → All (λ x. Safe Allowed (f x)) xs
      → Safe Allowed (for_each xs f)
  unfolding for_each
  Safe-for_each [] f _ = Safe-skip
  Safe-for_each (x ∷ xs) f (h, hs) = record {
    holds = λ st. Safe-then st (f x st) (for_each xs f) (h.holds st) (Safe-for_each xs f hs);
  }

pub All-of {ℓ k} : {A : Type ℓ} {P : A → Type k} → (xs : List A) → ((x : A) → P x) → All P xs
All-of [] f = tt
All-of (x ∷ xs) f = (f x, All-of xs f)

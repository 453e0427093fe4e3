-- ===== src/Validator/Check/Errors.antt =====
-- The errors of a validation: what there were before it stay.
use siesta.Prelude.{ℕ, zero, suc, Text, ◌≡◌, subst}
use siesta.Validator.Json.{Json, Outside}
use siesta.Validator.Node.{SchemaNode, info}
use siesta.Validator.Refs.{Compiled}
use siesta.Validator.Run.{done, State}
use siesta.Validator.Run.Growth.{Begins, Fine, Safe, All-of}
use siesta.Validator.Check.{validate_node}
use siesta.Validator.Check.Soundness.{Sound-Unit}
use siesta.Validator.Check.Switch.{Safe-validate_node}

module _ (o : Outside) (c : Compiled o.Double) where
  adds_only :
      (fuel : ℕ) (n : SchemaNode o.Double) (v : Json o.Double) (loc place : Text)
      → Safe Unit (validate_node o c fuel n v loc place)
  unfolding validate_node
  adds_only zero n v loc place = record { holds = λ st. tt }
  adds_only (suc fuel) n v loc place =
      let visit : (m : SchemaNode o.Double) (w : Json o.Double) (p : Text) → _ =
        λ m w p. adds_only fuel m w _ p in
      Safe-validate_node Unit o c fuel n v loc place (record {
        sound = Sound-Unit (info n).keyword (info n).value (info n).parent;
        names =
            All-of _ λ m. All-of _ λ s. Sound-Unit (info s).keyword (info s).value (info s).parent;
        own = All-of _ visit;
        below = All-of _ λ m. All-of _ visit;
        follow = All-of _ λ m _. visit m;
        target = λ _ m t _. visit m;
      })

-- Whatever the schema and its references, a validation that ends has all the errors of before,
-- unchanged and in front of those it adds.
pub validate_node-Begins :
    (o : Outside) (c : Compiled o.Double) (fuel : ℕ) (n : SchemaNode o.Double) (v : Json o.Double)
    (loc place : Text) (st after : State)
    → validate_node o c fuel n v loc place st ≡ done after
    → Begins st.errors after.errors
validate_node-Begins o c fuel n v loc place st after e =
    subst (Fine Unit st) e ((adds_only o c fuel n v loc place).holds st)

-- ===== src/Validator/Check/Ending.antt =====
-- A validation against a tree of sound nodes gives a result: the number of nested visits is bounded by the
-- tree's height.
use siesta.Prelude.{
  ℕ, zero, suc, max, ◌<◌, Text, All, All-map, ◌≡◌, refl, subst, arith, true, inl, inr, ◌⊎◌,
}
use siesta.Validator.Json.{Json, Outside}
use siesta.Validator.Node.{
  Keyword, SchemaNode, node, Nodes, nil, cons, info, children, nodes_list, Every, AllEvery,
}
use siesta.Validator.Refs.{Compiled}
use siesta.Validator.Run.{Outcome, done, threw, undefined, out_of_fuel, State}
use siesta.Validator.Run.Growth.{Fine, Safe, All-of}
use siesta.Validator.Branches.Parents.{is_then_word, is_else_word}
use siesta.Validator.Check.{validate_node, leaf_messages, check_branch, or_branch, enter_by}
use siesta.Validator.Check.Soundness.{Sound, IsSound}
use siesta.Validator.Check.Fine.{Enters}
use siesta.Validator.Check.Switch.{Safe-validate_node, Safe-check_boolean}

-- A node alone has height one.
abbrev mutual
  pub height : {D : Type 0} → SchemaNode D → ℕ
  height (node i ns) = suc (heights ns)

  pub heights : {D : Type 0} → Nodes D → ℕ
  heights nil = 0
  heights (cons n ns) = max (height n) (heights ns)

-- Every node of the tree is sound, with nothing allowed.
abbrev pub IsSoundTree : {D : Type 0} → SchemaNode D → Type 0
IsSoundTree = Every (IsSound ⊥)

abbrev AllSound : {D : Type 0} → Nodes D → Type 0
AllSound = AllEvery (IsSound ⊥)

abbrev Within : {D : Type 0} → ℕ → SchemaNode D → Type 0
Within k n = IsSoundTree n × (height n < k)

list-Within :
    {D : Type 0} (k : ℕ) (ns : Nodes D)
    → AllSound ns
    → heights ns < k
    → All (Within k) (nodes_list ns)
list-Within k nil h l = tt
list-Within k (cons n ns) (h, hs) l =
    ((h, omega (arith, l)), list-Within k ns hs (omega (arith, l)))

children-Within :
    {D : Type 0} (k : ℕ) (n : SchemaNode D) → Within (suc k) n → All (Within k) (children n)
children-Within k (node i ns) ((_, h), l) = list-Within k ns h (omega (arith, l))

grandchildren-Within :
    {D : Type 0} (k : ℕ) (n : SchemaNode D)
    → Within (suc k) n
    → All (λ m. All (Within k) (children m)) (children n)
grandchildren-Within k n w =
    All-map (children n) (λ m (h, l). children-Within k m (h, omega (arith, l)))
      (children-Within k n w)

Within-IsSound : {D : Type 0} (k : ℕ) (n : SchemaNode D) → Within k n → IsSound ⊥ n
Within-IsSound k (node i ns) ((s, _), _) = s

module _ (o : Outside) (c : Compiled o.Double) where
  -- `then` and `else` have no keyword of their own to check: the visit goes no further.
  then_else-Safe :
      (fuel : ℕ) (k : Keyword) (m : SchemaNode o.Double) (v : Json o.Double) (loc place : Text)
      → (is_then_word k ≡ true) ⊎ (is_else_word k ≡ true)
      → Safe ⊥ (
          or_branch o c
            (leaf_messages o k (info m).value v)
            loc
            (check_branch o c (enter_by o c (validate_node o c fuel)) k m v loc place))
  unfolding leaf_messages check_branch
  then_else-Safe fuel Keyword.then_schema m v loc place h =
      Safe-check_boolean ⊥ o c (info m).value loc
  then_else-Safe fuel Keyword.else_schema m v loc place h =
      Safe-check_boolean ⊥ o c (info m).value loc
  then_else-Safe fuel _ m v loc place (inl e) = cc
  then_else-Safe fuel _ m v loc place (inr e) = cc

  ends :
      (fuel : ℕ) (n : SchemaNode o.Double) (v : Json o.Double) (loc place : Text)
      → Within fuel n
      → Safe ⊥ (validate_node o c fuel n v loc place)
  unfolding validate_node
  ends zero (node i ns) v loc place (h, l) = absurd (omega (arith, l))
  ends (suc zero) (node i ns) v loc place (h, l) = absurd (omega (arith, l))
  ends (suc (suc fuel)) n v loc place w =
      let visit : (m : SchemaNode o.Double)
          → Within (suc fuel) m
          → Enters ⊥ (enter_by o c (validate_node o c (suc fuel))) m =
        λ m k u p. ends (suc fuel) m u _ p k in
      Safe-validate_node ⊥ o c (suc fuel) n v loc place (record {
        sound = Within-IsSound _ n w;
        names =
            All-map _ (λ m. All-map _ (Within-IsSound (suc fuel)))
              (grandchildren-Within (suc fuel) n w);
        own = All-map _ visit (children-Within (suc fuel) n w);
        below = All-map _ (λ m. All-map _ visit) (grandchildren-Within (suc fuel) n w);
        follow = All-of _ λ m t u p. then_else-Safe fuel (info m).keyword m u _ p t;
        target = λ r m t _.
            absurd (subst (λ k. Sound ⊥ k (info n).value (info n).parent) r (Within-IsSound _ n w));
      })

-- Against a tree of sound nodes, fuel above its height is enough for every instance: the validation
-- gives a state, whatever the rest of the schema is.
pub validate_node-done :
    (o : Outside) (c : Compiled o.Double) (fuel : ℕ) (n : SchemaNode o.Double) (v : Json o.Double)
    (loc place : Text) (st : State)
    → IsSoundTree n
    → height n < fuel
    → (after : State) × (validate_node o c fuel n v loc place st ≡ done after)
validate_node-done o c fuel n v loc place st h l =
    result_of (validate_node o c fuel n v loc place st)
      ((ends o c fuel n v loc place (h, l)).holds st)
  where
    result_of : (out : Outcome State) → Fine ⊥ st out → (after : State) × (out ≡ done after)
    result_of (done after) h = (after, refl)
    result_of threw h = absurd h
    result_of undefined h = absurd h
    result_of out_of_fuel h = absurd h

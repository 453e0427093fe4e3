-- ===== src/Tests/Validation.antt =====
-- jsonschema/src/schema_types.cpp on small schemas.
use siesta.Prelude.{
  inr, ◌||◌, ◌&&◌, ◌↔◌, All, ℕ, ◌+◌, ◌-◌, ◌%◌, Text, lit, text_eq, Bool, true, false, List, [], ◌∷◌,
  Option, none, some, ltb, leb, ◌==◌, ℤ, pos, negsuc, ◌≡◌, refl,
}
use siesta.Validator.Json
use siesta.Validator.Json.{
  Json, bool, int64, string, array, object, Items, Fields, end, field, Outside,
}
use siesta.Validator.Node.{SchemaNode, Nodes, Keyword, keyword_of, no_parent, Every}
use siesta.Validator.Uri.{no_location}
use siesta.Validator.Values.{type_to_string, check_type_match, json_equal}
use siesta.Validator.Values.Types.{is_whole, check_type_match_lem}
use siesta.Validator.Values.Equality.{has_field, json_equal_refl, json_equal-field}
use siesta.Validator.Refs.{Compiled, compile}
use siesta.Validator.Refs.Found.{Resolves, compile-Resolves}
use siesta.Validator.Build.{shape_of}
use siesta.Validator.Build.Keywords.{Has}
use siesta.Validator.Run.{Outcome, done, State, ValidationError}
use siesta.Validator.Run.Growth.{Begins}
use siesta.Validator.Leaves.{required_messages}
use siesta.Validator.Leaves.Required.{NamesField, required_messages-NamesField}
use siesta.Validator.Check.{validate, validate_node, no_context}
use siesta.Validator.Check.Errors.{validate_node-Begins}
use siesta.Validator.Check.Trees.{IsListed, compile-unlisted, IsWellMade, Answers, validate-done}

-- Numbers of one digit, and doubles that are natural numbers.
abbrev distance : ℕ → ℕ → ℕ
distance a b = (a - b) + (b - a)

abbrev magnitude : ℤ → ℕ
magnitude (pos n) = n
magnitude (negsuc n) = 0

abbrev digit : ℕ → Text
digit n = (48 + n) ∷ []

abbrev pub small : Outside
small = record {
  Double = ℕ;
  of_int = magnitude;
  of_nat = λ n. n;
  zero_double = 0;
  tolerance = 1;
  sub = distance;
  abs = λ n. n;
  floor = λ n. n;
  fmod = λ a b. a % b;
  less = ltb;
  less_eq = leb;
  equal = λ a b. a == b;
  print_double = digit;
  stream_double = digit;
  print_int = λ z. digit (magnitude z);
  print_nat = digit;
  regex = λ p. none;
  minify = λ v. [];
}

-- {"properties": {"a": {"type": "string"}}, "required": ["a"]}
abbrev schema : Json ℕ
schema = object (
    field (lit "properties")
      (object (field (lit "a") (object (field (lit "type") (string (lit "string")) end)) end))
      (field (lit "required") (array (Json.cons (string (lit "a")) Json.nil)) end))

-- {"a": "x"} and {"a": 1}
abbrev good : Json ℕ
good = object (field (lit "a") (string (lit "x")) end)

abbrev bad : Json ℕ
bad = object (field (lit "a") (int64 (pos 1)) end)

abbrev no_tree : Compiled ℕ
no_tree = record {
  root =
      SchemaNode.node
        (record {
          uri = record { base = []; fragment = [] };
          id = [];
          anchor = [];
          dynamic_anchor = [];
          keyword = Keyword.unknown;
          value = Json.null;
          parent = no_parent;
        })
        Nodes.nil;
  anchors = [];
  ids = [];
}

abbrev tree_of : Outcome (Option (Compiled ℕ)) → Compiled ℕ
tree_of (done (some c)) = c
tree_of _ = no_tree

unfoldable tree : Compiled ℕ
unfolding compile
tree = tree_of (compile small (some schema))

schema-compile : compile small (some schema) ≡ done (some tree)
unfolding compile tree text_eq
schema-compile = refl

abbrev answer : Outcome (Bool × List ValidationError) → Option Bool
answer (done (b, _)) = some b
answer _ = none

good-validate : answer (validate small tree 5 (inr good)) ≡ some true
unfolding validate tree text_eq
good-validate = refl

bad-validate : answer (validate small tree 5 (inr bad)) ≡ some false
unfolding validate tree text_eq
bad-validate = refl

check_type_match_lem_example : check_type_match small (int64 (pos 3)) (lit "number") ≡ (
    text_eq (lit "number") (type_to_string {D = ℕ} (int64 (pos 3)))
    || ((is_whole small (int64 (pos 3)) && text_eq (lit "number") (lit "number"))
        || (is_whole small (int64 (pos 3)) && text_eq (lit "number") (lit "integer"))))
check_type_match_lem_example = check_type_match_lem small (int64 (pos 3)) (lit "number")

json_equal_refl_example : json_equal small bad bad ≡ true
json_equal_refl_example = json_equal_refl small bad (refl, (refl, tt))

no_b : has_field {D = ℕ} (lit "b") (field (lit "a") (Json.bool true) end) ≡ false
unfolding text_eq
no_b = refl

json_equal-field_example :
    json_equal small
      (object (field (lit "a") (bool true) end))
      (object (field (lit "b") (bool false) (field (lit "a") (bool true) end)))
    ≡ json_equal small
        (object (field (lit "a") (bool true) end))
        (object (field (lit "a") (bool true) end))
json_equal-field_example =
    json_equal-field small (lit "b") (bool false) (field (lit "a") (bool true) end)
      (field (lit "a") (bool true) end) no_b

abbrev state_of : Outcome State → State
state_of (done st) = st
state_of _ = no_context small tree []

abbrev before : State
before =
    no_context small tree (
      record { instance_location = no_location; schema_uri = lit "#"; message = lit "earlier" }
      ∷ [])

unfoldable after_bad : State
unfolding validate_node tree
after_bad = state_of (validate_node small tree 5 tree.root bad (lit "#") [] before)

bad-run : validate_node small tree 5 tree.root bad (lit "#") [] before ≡ done after_bad
unfolding validate_node tree after_bad text_eq
bad-run = refl

validate_node-Begins_example : Begins before.errors after_bad.errors
validate_node-Begins_example =
    validate_node-Begins small tree 5 tree.root bad (lit "#") [] before after_bad bad-run

-- {"properties": {"$ref": {"type": "string"}}, "if": {"required": ["$ref"]}, "then": false}
abbrev linked : Json ℕ
linked = object (
    field (lit "properties")
      (object (field (lit "$ref") (object (field (lit "type") (string (lit "string")) end)) end))
      (field (lit "if")
        (object (field (lit "required") (array (Json.cons (string (lit "$ref")) Json.nil)) end))
        (field (lit "then") (bool false) end)))

linked-IsWellMade : IsWellMade linked
unfolding keyword_of shape_of text_eq
linked-IsWellMade = ((tt, (((tt, tt), tt), tt)), ((tt, ((tt, tt), tt)), ((tt, tt), tt)))

validate-done_example :
    (c : Compiled ℕ) × ((compile small (some linked) ≡ done (some c)) × Answers small c 0 bad)
validate-done_example = validate-done small linked bad 0 linked-IsWellMade

compile-unlisted_example : Has (λ k. IsListed k → ⊥) tree.root
compile-unlisted_example = compile-unlisted small schema tree schema-compile

compile-Resolves_example : Every (Resolves tree) tree.root
compile-Resolves_example = compile-Resolves small schema tree schema-compile

required_messages-NamesField_example :
    (required_messages small (array (Json.cons (string (lit "a")) Json.nil)) good ≡ done [])
    ↔ All (NamesField {D = ℕ} (field (lit "a") (string (lit "x")) end)) (string (lit "a") ∷ [])
required_messages-NamesField_example =
    required_messages-NamesField small (Json.cons (string (lit "a")) Json.nil)
      (field (lit "a") (string (lit "x")) end)

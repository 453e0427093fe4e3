-- ===== src/Driver/Resolution.antt =====
-- Documents without dangling references.
use siesta.Prelude.{
  keys, ◌≤◌, count, Text, has, true, List, [], ◌∷◌, HashOrder, All, All-map, ◌≡◌, arith, text_eq,
  text_eq_iff, Bool-cases, inl, inr,
}
use siesta.Support.Sanitize.{sanitize}
use siesta.Frontend.Ast.{SchemaType, has_type, validate}
use siesta.Frontend.Ast.Validation
use siesta.Frontend.Ast.Validation.{references, validate_iff}
use siesta.Frontend.Schema.{JsonSchema}
use siesta.Frontend.Parser.{Printing, ParseState, parse_schema}
use siesta.Frontend.Parser.Resolution.{
  IsScoped, IsKnown, IsResolved, Step, Step-none, Step-append, add_type-Step, has_type-add_type,
  has_type-add_type_self,
}
use siesta.Frontend.Parser.Resolution.Results.{parse_schema-Step}
use siesta.Driver.{no_types, enter_schema, parse_schemas}

-- The names that the components of the document get.
abbrev pub component_names : List (Text × JsonSchema) → List Text
component_names [] = []
component_names ((name, _) ∷ schemas) = sanitize name ∷ component_names schemas

-- Each `$ref` of each schema, at any depth, has one of these names.
abbrev pub EachScoped : List Text → List (Text × JsonSchema) → Type 0
EachScoped allowed = All (λ e. IsScoped allowed e.1)

module _ (std : Printing) (allowed : List Text) where
  enter_schema-Step :
      (name : Text) (t : SchemaType) (a st : ParseState)
      → Step allowed (references t) a st
      → Step allowed [] a (enter_schema name (t, st))
  enter_schema-Step name t a st p =
      Step-append allowed [] [] (record { resolved = p.resolved; grown = p.grown; known = tt })
        (add_type-Step allowed name t st st.added_types p.resolved p.known
          (λ n h. has_type-add_type allowed name n t st.ast (p.resolved.entered n h)))

  parse_schemas-Step :
      (schemas : List (Text × JsonSchema)) (st : ParseState)
      → EachScoped allowed schemas
      → IsResolved allowed st
      → Step allowed [] st (parse_schemas std schemas st)
  unfolding parse_schemas
  parse_schemas-Step [] st h i = Step-none allowed st i
  parse_schemas-Step ((name, schema) ∷ schemas) st (here, rest) i =
      let p = parse_schema std schema (sanitize name) st in
      let one =
        enter_schema-Step (sanitize name) p.0 st p.1
          (parse_schema-Step std allowed schema (sanitize name) st here i) in
      Step-append allowed [] [] one
        (parse_schemas-Step schemas (enter_schema (sanitize name) p) rest one.resolved)

  parse_schemas-entered :
      (schemas : List (Text × JsonSchema)) (st : ParseState) (n : Text)
      → EachScoped allowed schemas
      → IsResolved allowed st
      → has n (component_names schemas) ≡ true
      → has_type (parse_schemas std schemas st).ast n ≡ true
  unfolding parse_schemas has
  parse_schemas-entered ((name, schema) ∷ schemas) st n (here, rest) i h =
      let safe_name = sanitize name in
      let p = parse_schema std schema safe_name st in
      let st' = enter_schema safe_name p in
      let one =
        enter_schema-Step safe_name p.0 st p.1
          (parse_schema-Step std allowed schema safe_name st here i) in
      elim (Bool-cases (text_eq n safe_name)) [
        | inl e ↦ (parse_schemas-Step schemas st' rest one.resolved).grown n (
            rw ((text_eq_iff n safe_name).0 e)
              (has_type-add_type_self allowed safe_name p.0 p.1.ast))
        | inr e ↦ parse_schemas-entered schemas st' n rest one.resolved (ground arith)
      ]
  parse_schemas-entered [] st n sc i h = absurd (ground arith)

no_types-IsResolved : (allowed : List Text) → IsResolved allowed no_types
no_types-IsResolved allowed = record {
  types = tt;
  table = λ n. unfold count in omega arith;
  entered = λ n h. absurd (unfold has in ground arith);
}

-- No name stands twice in the table.
pub parse_schemas-once :
    (std : Printing) (schemas : List (Text × JsonSchema)) (n : Text)
    → EachScoped (component_names schemas) schemas
    → count n (keys (parse_schemas std schemas no_types).ast.types) ≤ 1
parse_schemas-once std schemas n h =
    let allowed = component_names schemas in
    let done = parse_schemas-Step std allowed schemas no_types h (no_types-IsResolved allowed) in
    done.resolved.table n

-- If each `$ref` of the schemas, at any depth, leads to the name of a component after sanitizing, then
-- the table of types that the driver builds from the schemas passes validation: every name that a type
-- mentions, those of the types made up for schemas written in place among them, is in the table.
pub validate-parse_schemas :
    (std : Printing) (order : HashOrder) (schemas : List (Text × JsonSchema))
    → EachScoped (component_names schemas) schemas
    → validate order (parse_schemas std schemas no_types).ast ≡ []
validate-parse_schemas std order schemas h =
    let allowed = component_names schemas in
    let st = parse_schemas std schemas no_types in
    let done = parse_schemas-Step std allowed schemas no_types h (no_types-IsResolved allowed) in
    (validate_iff order st.ast).1 (
      All-map {P = λ e. All (IsKnown allowed st) (references e.1)}
        {Q = Validation.IsResolved (has_type st.ast)} st.ast.types
        (λ e k.
          All-map {P = IsKnown allowed st} {Q = λ n. has_type st.ast n ≡ true} (references e.1)
            (λ n known. ground (
              arith,
              parse_schemas-entered std allowed schemas no_types n h (no_types-IsResolved allowed),
            ))
            k)
        done.resolved.types)

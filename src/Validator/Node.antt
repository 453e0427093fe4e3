-- ===== src/Validator/Node.antt =====
-- jsonschema/src/schema_types.hpp, schema_types.cpp: keywords and the nodes of a schema tree.
use siesta.Prelude.{Text, lit, List, [], ◌∷◌, Option, none, some, Dict, find}
use siesta.Validator.Json.{Json}
use siesta.Validator.Uri.{SchemaUri}

pub data Keyword : Type 0 where
  unknown type enum const multiple_of maximum minimum exclusive_maximum : Keyword
  exclusive_minimum max_length min_length pattern max_items min_items unique_items max_contains :
      Keyword
  min_contains max_properties min_properties required dependent_required all_of any_of one_of :
      Keyword
  not_schema properties pattern_properties additional_properties property_names items prefix_items
        additional_items :
      Keyword
  unevaluated_items unevaluated_properties contains title description default deprecated read_only :
      Keyword
  write_only content_encoding content_media_type content_schema schema id anchor ref : Keyword
  dynamic_ref dynamic_anchor defs definitions if_schema then_schema else_schema dependent_schemas :
      Keyword

-- The chain of tests that maps a key to its keyword, as a table in its order.
abbrev pub keyword_table : Dict Keyword
keyword_table =
    (lit "$schema", Keyword.schema)
    ∷ (lit "$id", Keyword.id)
    ∷ (lit "$anchor", Keyword.anchor)
    ∷ (lit "$ref", Keyword.ref)
    ∷ (lit "$dynamicRef", Keyword.dynamic_ref)
    ∷ (lit "$dynamicAnchor", Keyword.dynamic_anchor)
    ∷ (lit "$defs", Keyword.defs)
    ∷ (lit "definitions", Keyword.definitions)
    ∷ (lit "type", Keyword.type)
    ∷ (lit "enum", Keyword.enum)
    ∷ (lit "const", Keyword.const)
    ∷ (lit "multipleOf", Keyword.multiple_of)
    ∷ (lit "maximum", Keyword.maximum)
    ∷ (lit "minimum", Keyword.minimum)
    ∷ (lit "exclusiveMaximum", Keyword.exclusive_maximum)
    ∷ (lit "exclusiveMinimum", Keyword.exclusive_minimum)
    ∷ (lit "maxLength", Keyword.max_length)
    ∷ (lit "minLength", Keyword.min_length)
    ∷ (lit "pattern", Keyword.pattern)
    ∷ (lit "maxItems", Keyword.max_items)
    ∷ (lit "minItems", Keyword.min_items)
    ∷ (lit "uniqueItems", Keyword.unique_items)
    ∷ (lit "maxContains", Keyword.max_contains)
    ∷ (lit "minContains", Keyword.min_contains)
    ∷ (lit "maxProperties", Keyword.max_properties)
    ∷ (lit "minProperties", Keyword.min_properties)
    ∷ (lit "required", Keyword.required)
    ∷ (lit "dependentRequired", Keyword.dependent_required)
    ∷ (lit "properties", Keyword.properties)
    ∷ (lit "patternProperties", Keyword.pattern_properties)
    ∷ (lit "additionalProperties", Keyword.additional_properties)
    ∷ (lit "unevaluatedProperties", Keyword.unevaluated_properties)
    ∷ (lit "propertyNames", Keyword.property_names)
    ∷ (lit "items", Keyword.items)
    ∷ (lit "prefixItems", Keyword.prefix_items)
    ∷ (lit "additionalItems", Keyword.additional_items)
    ∷ (lit "unevaluatedItems", Keyword.unevaluated_items)
    ∷ (lit "contains", Keyword.contains)
    ∷ (lit "allOf", Keyword.all_of)
    ∷ (lit "anyOf", Keyword.any_of)
    ∷ (lit "oneOf", Keyword.one_of)
    ∷ (lit "not", Keyword.not_schema)
    ∷ (lit "if", Keyword.if_schema)
    ∷ (lit "then", Keyword.then_schema)
    ∷ (lit "else", Keyword.else_schema)
    ∷ (lit "dependentSchemas", Keyword.dependent_schemas)
    ∷ (lit "title", Keyword.title)
    ∷ (lit "description", Keyword.description)
    ∷ (lit "default", Keyword.default)
    ∷ (lit "deprecated", Keyword.deprecated)
    ∷ (lit "readOnly", Keyword.read_only)
    ∷ (lit "writeOnly", Keyword.write_only)
    ∷ (lit "contentEncoding", Keyword.content_encoding)
    ∷ (lit "contentMediaType", Keyword.content_media_type)
    ∷ (lit "contentSchema", Keyword.content_schema)
    ∷ []

abbrev pub or_unknown : Option Keyword → Keyword
or_unknown none = Keyword.unknown
or_unknown (some k) = k

unfoldable pub keyword_of : Text → Keyword
unfolding find
keyword_of key = or_unknown (find key keyword_table)

-- What the pointer to the parent is worth once the tree is built: null, the root, or the address of a
-- local variable that is gone.
pub data Parent : Type 0 where
  no_parent root_parent dangling : Parent

pub record Info (D : Type 0) : Type 0 where
  pub uri : SchemaUri
  pub id : Text
  pub anchor : Text
  pub dynamic_anchor : Text
  pub keyword : Keyword
  pub value : Json D
  pub parent : Parent

mutual
  pub data SchemaNode (D : Type 0) : Type 0 where
    node : Info D → Nodes D → SchemaNode D

  pub data Nodes (D : Type 0) : Type 0 where
    nil : Nodes D
    cons : SchemaNode D → Nodes D → Nodes D

module _ {D : Type 0} where
  abbrev pub info : SchemaNode D → Info D
  info (node i ns) = i

  abbrev pub child_nodes : SchemaNode D → Nodes D
  child_nodes (node i ns) = ns

  abbrev pub nodes_list : Nodes D → List (SchemaNode D)
  nodes_list nil = []
  nodes_list (cons n ns) = n ∷ nodes_list ns

  abbrev pub children : SchemaNode D → List (SchemaNode D)
  children n = nodes_list (child_nodes n)

  abbrev pub append_nodes : Nodes D → Nodes D → Nodes D
  append_nodes nil ms = ms
  append_nodes (cons n ns) ms = cons n (append_nodes ns ms)

-- A property of every node of a tree.
module _ {D : Type 0} (P : SchemaNode D → Type 0) where
  abbrev mutual
    pub Every : SchemaNode D → Type 0
    Every (node i ns) = P (node i ns) × AllEvery ns

    pub AllEvery : Nodes D → Type 0
    AllEvery nil = Unit
    AllEvery (cons n ns) = Every n × AllEvery ns

module _ {D : Type 0} (P Q : SchemaNode D → Type 0) (f : (n : SchemaNode D) → P n → Q n) where
  mutual
    pub Every-map : (n : SchemaNode D) → Every P n → Every Q n
    Every-map (node i ns) (p, h) = (f (node i ns) p, AllEvery-map ns h)

    pub AllEvery-map : (ns : Nodes D) → AllEvery P ns → AllEvery Q ns
    AllEvery-map nil h = tt
    AllEvery-map (cons n ns) (p, h) = (Every-map n p, AllEvery-map ns h)

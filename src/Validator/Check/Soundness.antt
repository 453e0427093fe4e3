-- ===== src/Validator/Check/Soundness.antt =====
-- Nodes whose keyword is checked without an exception, without a read through a pointer to something
-- that is gone, and without a visit outside the node's own tree.
use siesta.Validator.Json.{Json, array}
use siesta.Validator.Node.{Keyword, Parent, root_parent, dangling, SchemaNode, info}

-- `Allowed` where the check may go wrong: at a reference; at an `if` whose pointer to its parent is
-- dangling; at `additionalItems` unless its pointer is to the root; at an `enum` or `required` that
-- has no array.
abbrev pub Sound : {D : Type 0} → Type 0 → Keyword → Json D → Parent → Type 0
Sound Allowed Keyword.ref v link = Allowed
Sound Allowed Keyword.if_schema v dangling = Allowed
Sound Allowed Keyword.additional_items v root_parent = Unit
Sound Allowed Keyword.additional_items v link = Allowed
Sound Allowed Keyword.enum (array xs) link = Unit
Sound Allowed Keyword.enum v link = Allowed
Sound Allowed Keyword.required (array xs) link = Unit
Sound Allowed Keyword.required v link = Allowed
Sound Allowed _ v link = Unit

abbrev pub IsSound : {D : Type 0} → Type 0 → SchemaNode D → Type 0
IsSound Allowed n = Sound Allowed (info n).keyword (info n).value (info n).parent

-- Where everything is allowed, every node is sound.
pub Sound-Unit : {D : Type 0} (k : Keyword) (v : Json D) (link : Parent) → Sound Unit k v link
Sound-Unit Keyword.ref v link = tt
Sound-Unit Keyword.if_schema v dangling = tt
Sound-Unit Keyword.additional_items v root_parent = tt
Sound-Unit Keyword.additional_items v link = tt
Sound-Unit Keyword.enum (array xs) link = tt
Sound-Unit Keyword.enum v link = tt
Sound-Unit Keyword.required (array xs) link = tt
Sound-Unit Keyword.required v link = tt
Sound-Unit _ v link = tt

-- ===== src/Validator/Uri.antt =====
-- jsonschema/src/schema_types.hpp, schema_types.cpp: `SchemaURI` and `InstanceLocation`.
use siesta.Prelude.{Text, lit, List, [], ◌∷◌, ◌++◌, none, some, find_byte, if◌then◌else◌}
use siesta.Frontend.Schema.{is_given}

pub record SchemaUri : Type 0 where
  pub base : Text
  pub fragment : Text

-- Split at the first `#`, which the fragment keeps.
unfoldable pub parse_uri : Text → SchemaUri
unfolding find_byte
parse_uri uri = elim (find_byte b'#' uri) [
  | some (before, behind) ↦ record { base = before; fragment = b'#' ∷ behind }
  | none ↦ record { base = uri; fragment = [] }
]

unfoldable pub uri_text : SchemaUri → Text
uri_text u = if is_given u.fragment then u.base ++ u.fragment else u.base

unfoldable pub resolve_fragment : SchemaUri → Text
resolve_fragment u =
    if is_given u.fragment then u.fragment else if is_given u.base then u.base else lit "#"

pub record InstanceLocation : Type 0 where
  pub segments : List Text

unfoldable pub location_segments : List Text → Text
location_segments [] = []
location_segments (seg ∷ segs) = b'/' ∷ seg ++ location_segments segs

unfoldable pub location_text : InstanceLocation → Text
unfolding location_segments
location_text l = location_segments l.segments

unfoldable pub descend : InstanceLocation → Text → InstanceLocation
descend l segment = record { segments = l.segments ++ segment ∷ [] }

abbrev pub no_location : InstanceLocation
no_location = record { segments = [] }

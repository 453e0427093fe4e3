-- ===== src/Validator/Locations.antt =====
-- jsonschema/src/schema_types.cpp: the searches in texts, and the locations that `validate_node` passes on.
use siesta.Prelude.{Text, Bool, [], ◌∷◌, ◌++◌, none, some, if◌then◌else◌, ◌||◌}
use siesta.Frontend.Schema.{is_given}
use siesta.Support.Names.{behind_last, starts_with}

-- What follows the last slash, which `rfind` finds.
unfoldable pub last_segment : Text → Text
unfolding behind_last
last_segment s = elim (behind_last b'/' s) [ some t ↦ t | none ↦ s ]

-- str.find(part) != npos
unfoldable pub contains_text : Text → Text → Bool
unfolding starts_with
contains_text [] part = starts_with part []
contains_text (b ∷ s) part = starts_with part (b ∷ s) || contains_text s part

unfoldable pub location_below : Text → Text → Text
location_below location key = if is_given location then location ++ b'/' ∷ key else b'/' ∷ key

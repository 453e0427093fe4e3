-- ===== src/Support/Names.antt =====
-- generator/src/Support/Utils.hpp: the last component of a path, and the names of C++ types that are
-- not types of the schema; `refComponentName` of generator/src/IR/EndpointIR.hpp is the former again.
use siesta.Prelude.{
  ℕ, Text, lit, text_eq, Bool, true, false, List, [], ◌∷◌, Option, none, some, ◌==◌, ◌&&◌, ◌||◌,
  if◌then◌else◌, any_of, map,
}

-- find_last_of, and the text behind what it finds
unfoldable pub behind_last : ℕ → Text → Option Text
behind_last c [] = none
behind_last c (b ∷ s) = elim (behind_last c s) [
  | some t ↦ some t
  | none ↦ if b == c then some s else none
]

-- `path.substr(path.find_last_of('/') + 1)`: npos + 1 is 0
unfoldable pub component_path : Text → Text
unfolding behind_last
component_path path = elim (behind_last b'/' path) [ some t ↦ t | none ↦ path ]

-- `s.rfind(prefix, 0) == 0`
unfoldable pub starts_with : Text → Text → Bool
starts_with [] s = true
starts_with (p ∷ ps) [] = false
starts_with (p ∷ ps) (c ∷ s) = p == c && starts_with ps s

abbrev pub builtin_names : List Text
builtin_names = map lit (
    "int" ∷ "long" ∷ "short" ∷ "unsigned" ∷ "signed" ∷ "char" ∷ "wchar_t" ∷ "bool" ∷ "float"
    ∷ "double" ∷ "void" ∷ [])

unfoldable pub is_synthetic_cpp_type : Text → Bool
unfolding starts_with text_eq
is_synthetic_cpp_type name =
    starts_with (lit "std::") name || any_of (λ w. text_eq name w) builtin_names

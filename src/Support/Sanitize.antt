-- ===== src/Support/Sanitize.antt =====
-- generator/src/Support/Utils.cpp: `sanitize` and `sanitize_enum_identifier`, over the bytes of a name.
pub mod Laws
pub mod Results
use siesta.Prelude.{
  Text, lit, has, Bool, true, false, List, [], ◌∷◌, ◌++◌, map, any_of, leb, ◌==◌, ◌&&◌, ℕ,
  if◌then◌else◌,
}

-- RESERVED
unfoldable pub reserved : List Text
reserved = map lit (
    "operator" ∷ "long" ∷ "short" ∷ "public" ∷ "protected" ∷ "private" ∷ "default" ∷ "delete"
    ∷ "namespace" ∷ "template" ∷ "static" ∷ "const" ∷ "volatile" ∷ "virtual" ∷ "explicit" ∷ "friend"
    ∷ "typedef" ∷ "typename" ∷ "enum" ∷ "struct" ∷ "class" ∷ "union" ∷ "if" ∷ "else" ∷ "for"
    ∷ "while" ∷ "do" ∷ "switch" ∷ "case" ∷ "break" ∷ "continue" ∷ "return" ∷ "goto" ∷ "try"
    ∷ "catch" ∷ "throw" ∷ "new" ∷ "delete" ∷ "this" ∷ "sizeof" ∷ "alignof" ∷ "decltype" ∷ "noexcept"
    ∷ "nullptr" ∷ "true" ∷ "false" ∷ "bool" ∷ "char" ∷ "wchar_t" ∷ "char16_t" ∷ "char32_t"
    ∷ "signed" ∷ "unsigned" ∷ "int" ∷ "float" ∷ "double" ∷ "void" ∷ "auto" ∷ "register" ∷ "extern"
    ∷ "mutable" ∷ "inline" ∷ "constexpr" ∷ "consteval" ∷ "constinit" ∷ "concept" ∷ "requires"
    ∷ "co_await" ∷ "co_yield" ∷ "co_return" ∷ "module" ∷ "export" ∷ "import" ∷ "unix" ∷ "linux"
    ∷ "i386" ∷ "x86_64" ∷ "amd64" ∷ "arm" ∷ "aarch64" ∷ "__unix" ∷ "__linux" ∷ "__linux__"
    ∷ "__unix__" ∷ "unix__" ∷ [])

-- The characters that `sanitize` replaces.
abbrev pub is_replaced : ℕ → Bool
is_replaced c = any_of (λ d. c == d) (lit "/-.:+ ()@")

-- std::isdigit
abbrev pub is_digit : ℕ → Bool
is_digit c = leb b'0' c && leb c b'9'

unfoldable pub replace_chars : Text → Text
replace_chars [] = []
replace_chars (c ∷ s) = (if is_replaced c then b'_' else c) ∷ replace_chars s

unfoldable pub push_if_reserved : Text → Text
push_if_reserved s = if has s reserved then s ++ lit "_" else s

unfoldable pub prefix_if_digit : Text → Text
prefix_if_digit [] = []
prefix_if_digit (c ∷ s) = if is_digit c then b'_' ∷ c ∷ s else c ∷ s

unfoldable pub sanitize : Text → Text
unfolding replace_chars push_if_reserved prefix_if_digit has reserved
sanitize [] = []
sanitize (c ∷ s) = prefix_if_digit (push_if_reserved (replace_chars (c ∷ s)))

-- The second pass of `sanitize_enum_identifier`.
unfoldable pub replace_dots : Text → Text
replace_dots [] = []
replace_dots (c ∷ s) = (if c == b'.' then b'_' else c) ∷ replace_dots s

unfoldable pub sanitize_enum_identifier : Text → Text
unfolding sanitize replace_dots prefix_if_digit
sanitize_enum_identifier s = prefix_if_digit (replace_dots (sanitize s))

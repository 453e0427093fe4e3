-- ===== src/Encoding.antt =====
-- include/siesta/encoding.hpp: `url_encode` and the `query_value` overloads for bool and string.
pub mod Decoding
use siesta.Prelude.{
  ℕ, ◌/◌, ◌%◌, Text, lit, Bool, [], ◌∷◌, ◌++◌, ◌==◌, leb, ◌&&◌, ◌||◌, if◌then◌else◌, get_or,
}

-- The bytes that are passed as they are: letters, digits, `-`, `_`, `.`, `~`.
abbrev pub is_unreserved : ℕ → Bool
is_unreserved c =
    leb b'a' c && leb c b'z'
    || (leb b'A' c && leb c b'Z'
        || (leb b'0' c && leb c b'9' || (c == b'-' || (c == b'_' || (c == b'.' || c == b'~')))))

-- "0123456789ABCDEF"[n]
abbrev pub hex_digit : ℕ → ℕ
hex_digit n = get_or (lit "0123456789ABCDEF") n 0

-- `c >> 4` is `c / 16` and `c & 15` is `c % 16`.
unfoldable pub encode_byte : ℕ → Text
encode_byte c =
    if is_unreserved c then c ∷ [] else b'%' ∷ hex_digit (c / 16) ∷ hex_digit (c % 16) ∷ []

unfoldable pub url_encode : Text → Text
unfolding encode_byte
url_encode [] = []
url_encode (c ∷ s) = encode_byte c ++ url_encode s

unfoldable pub query_value_bool : Bool → Text
query_value_bool v = if v then lit "true" else lit "false"

unfoldable pub query_value_string : Text → Text
unfolding url_encode
query_value_string v = url_encode v

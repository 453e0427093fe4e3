-- ===== src/Encoding/Decoding.antt =====
-- A percent decoder, written from RFC 3986, takes an encoded text back.
use siesta.Prelude.{
  ℕ, ◌+◌, ◌-◌, ◌*◌, ◌/◌, ◌%◌, ◌<◌, Text, Bool, true, false, [], ◌∷◌, ◌++◌, ◌==◌, ==_iff, leb, ◌&&◌,
  ◌||◌, if◌then◌else◌, Option, none, some, ◌≡◌, refl, arith, All, All-append, ap, Bool-cases, inl,
  inr, ◌∙◌, test_below, test_below-true,
}
use siesta.Encoding.{is_unreserved, hex_digit, encode_byte, url_encode}

abbrev hex_value : ℕ → Option ℕ
hex_value c =
    if leb b'0' c && leb c b'9'
    then some (c - b'0')
    else if leb b'A' c && leb c b'F'
    then some (c - b'A' + 10)
    else none

abbrev put_byte : Option ℕ → Option ℕ → Option Text → Option Text
put_byte (some h) (some l) (some s) = some ((h * 16 + l) ∷ s)
put_byte _ _ _ = none

abbrev keep_byte : ℕ → Option Text → Option Text
keep_byte c none = none
keep_byte c (some s) = some (c ∷ s)

-- `none` at a percent sign without two hexadecimal digits.
unfoldable pub url_decode : Text → Option Text
url_decode [] = some []
url_decode (c ∷ []) = if c == b'%' then none else some (c ∷ [])
url_decode (c ∷ h ∷ []) = if c == b'%' then none else keep_byte c (url_decode (h ∷ []))
url_decode (c ∷ h ∷ l ∷ s) =
    let coded = put_byte (hex_value h) (hex_value l) (url_decode s) in
    let plain = keep_byte c (url_decode (h ∷ l ∷ s)) in if c == b'%' then coded else plain

url_decode_plain :
    (c : ℕ) (s : Text) → (c == b'%') ≡ false → url_decode (c ∷ s) ≡ keep_byte c (url_decode s)
unfolding url_decode
url_decode_plain c [] h = rw h refl
url_decode_plain c (a ∷ []) h = rw h refl
url_decode_plain c (a ∷ b ∷ s) h = rw h refl

abbrev reads_as : ℕ → Option ℕ → Bool
reads_as n none = false
reads_as n (some m) = m == n

reads_as_sound : (n : ℕ) (o : Option ℕ) → reads_as n o ≡ true → o ≡ some n
reads_as_sound n none h = cc
reads_as_sound n (some m) h = ground (arith, ==_iff m n)

hex_digits : test_below (λ n. reads_as n (hex_value (hex_digit n))) 16 ≡ true
unfolding test_below
hex_digits = refl

hex_value-hex_digit : (n : ℕ) → n < 16 → hex_value (hex_digit n) ≡ some n
hex_value-hex_digit n h =
    reads_as_sound n (hex_value (hex_digit n))
      (test_below-true (λ m. reads_as m (hex_value (hex_digit m))) 16 hex_digits n h)

decode_coded :
    (h l m n : ℕ) (s : Text)
    → hex_value h ≡ some m
    → hex_value l ≡ some n
    → url_decode (b'%' ∷ h ∷ l ∷ s) ≡ keep_byte (m * 16 + n) (url_decode s)
unfolding url_decode
decode_coded h l m n s p q = rw (p, q) (go (url_decode s))
  where
    go : (o : Option Text) → put_byte (some m) (some n) o ≡ keep_byte (m * 16 + n) o
    go none = refl
    go (some t) = refl

decode-encode_byte :
    (c : ℕ) (s : Text) → c < 256 → url_decode (encode_byte c ++ s) ≡ keep_byte c (url_decode s)
unfolding encode_byte
decode-encode_byte c s h = elim (Bool-cases (is_unreserved c)) [
  | inl e ↦ rw e (url_decode_plain c s (ground arith))
  | inr e ↦ rw e (
      decode_coded (hex_digit (c / 16)) (hex_digit (c % 16)) (c / 16) (c % 16) s
        (hex_value-hex_digit (c / 16) (omega arith)) (hex_value-hex_digit (c % 16) (omega arith))
      ∙ ap (λ b. keep_byte b (url_decode s)) whole)
]
  where
    whole : c / 16 * 16 + c % 16 ≡ c
    whole = omega arith

-- Decoding an encoded text of bytes gives the text back.
pub url_decode-url_encode : (s : Text) → All (λ c. c < 256) s → url_decode (url_encode s) ≡ some s
unfolding url_encode
url_decode-url_encode [] h = unfold url_decode in refl
url_decode-url_encode (c ∷ s) (p, h) =
    decode-encode_byte c (url_encode s) p ∙ rw (url_decode-url_encode s h) refl

-- A byte that a query may hold: unreserved, or part of an escape.
abbrev pub is_query_byte : ℕ → Bool
is_query_byte c = is_unreserved c || c == b'%'

hex_digits_unreserved : test_below (λ n. is_query_byte (hex_digit n)) 16 ≡ true
unfolding test_below
hex_digits_unreserved = refl

encode_byte-All : (c : ℕ) → c < 256 → All (λ b. is_query_byte b ≡ true) (encode_byte c)
unfolding encode_byte
encode_byte-All c h = elim (Bool-cases (is_unreserved c)) [
  | inl e ↦ rw e (rw e refl, tt)
  | inr e ↦
      let table = test_below-true (λ n. is_query_byte (hex_digit n)) 16 hex_digits_unreserved in
      rw e (refl, (table (c / 16) (omega arith), (table (c % 16) (omega arith), tt)))
]

-- An encoded text of bytes holds unreserved bytes and percent signs only: no separator of a query.
pub url_encode-All :
    (s : Text) → All (λ c. c < 256) s → All (λ b. is_query_byte b ≡ true) (url_encode s)
unfolding url_encode
url_encode-All [] h = tt
url_encode-All (c ∷ s) (p, h) =
    All-append (λ b. is_query_byte b ≡ true) (encode_byte c) (url_encode s) (encode_byte-All c p)
      (url_encode-All s h)

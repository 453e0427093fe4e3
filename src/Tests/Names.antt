-- ===== src/Tests/Names.antt =====
-- The texts that the generator writes, and the queries of the client, at concrete inputs.
use siesta.Prelude.{Text, lit, List, [], ◌∷◌, ◌++◌, some, All, Without, ◌≡◌, arith, true}
use siesta.Support.Sanitize.{sanitize, sanitize_enum_identifier}
use siesta.Support.Sanitize.Laws.{IsSafeName}
use siesta.Support.Sanitize.Results.{
  sanitize-IsSafeName, sanitize_idempotent, sanitize_enum_identifier-eq-sanitize,
}
use siesta.Support.Escape.{escape_cpp_string}
use siesta.Support.Escape.Reading.{read_literal, read_literal-escape}
use siesta.Support.Comment.{put_lines, write_multiline_comment}
use siesta.Support.Comment.Lines.{visible, all_visible, write_multiline_comment_lem}
use siesta.Encoding.{url_encode}
use siesta.Encoding.Decoding.{url_decode, is_query_byte, url_decode-url_encode, url_encode-All}

sanitize-IsSafeName_example : IsSafeName (sanitize (lit "3-class"))
sanitize-IsSafeName_example = sanitize-IsSafeName (lit "3-class")

sanitize_idempotent_example : sanitize (sanitize (lit "class")) ≡ sanitize (lit "class")
sanitize_idempotent_example = sanitize_idempotent (lit "class")

sanitize_enum_identifier-eq-sanitize_example :
    sanitize_enum_identifier (lit "1.class") ≡ sanitize (lit "1.class")
sanitize_enum_identifier-eq-sanitize_example = sanitize_enum_identifier-eq-sanitize (lit "1.class")

read_literal-escape_example :
    read_literal (escape_cpp_string (lit "a\\b") ++ 34 ∷ lit ";") ≡ some (lit "a\\b", lit ";")
read_literal-escape_example = read_literal-escape (lit "a\\b") (lit ";")

write_multiline_comment_lem_example :
    (lines : List Text) × (write_multiline_comment [] (lit "one two") (lit "  ")
      ≡ some ([] ++ put_lines (lit "  ") lines))
    × All (Without 10) lines
    × (all_visible lines ≡ visible (lit "one two"))
write_multiline_comment_lem_example = write_multiline_comment_lem [] (lit "one two") (lit "  ")

url_decode-url_encode_example : url_decode (url_encode (32 ∷ 38 ∷ [])) ≡ some (32 ∷ 38 ∷ [])
url_decode-url_encode_example =
    url_decode-url_encode (32 ∷ 38 ∷ []) (omega arith, (omega arith, tt))

url_encode-All_example : All (λ b. is_query_byte b ≡ true) (url_encode (32 ∷ 38 ∷ []))
url_encode-All_example = url_encode-All (32 ∷ 38 ∷ []) (omega arith, (omega arith, tt))

-- ===== src/Support/Sanitize/Results.antt =====
-- What `sanitize` guarantees of every name.
use siesta.Prelude.{Text, text_eq, [], ◌∷◌, ◌≡◌, refl}
use siesta.Support.Sanitize.{sanitize, sanitize_enum_identifier, replace_chars}
use siesta.Support.Sanitize.Laws.{
  IsSafeName, All-replace_chars, push_prefix-IsSafeName, prefix_if_digit_id, sanitize_id,
  replace_dots_id,
}

-- Every result of `sanitize` holds none of the nine characters that it replaces, does not begin with
-- a digit and is not a reserved word.
pub sanitize-IsSafeName : (s : Text) → IsSafeName (sanitize s)
unfolding sanitize text_eq
sanitize-IsSafeName [] = record { chars = tt; first = refl; free = refl }
sanitize-IsSafeName (c ∷ s) =
    push_prefix-IsSafeName (replace_chars (c ∷ s)) (All-replace_chars (c ∷ s))

-- Sanitizing a name a second time changes nothing.
pub sanitize_idempotent : (s : Text) → sanitize (sanitize s) ≡ sanitize s
sanitize_idempotent s = sanitize_id (sanitize s) (sanitize-IsSafeName s)

-- The passes that `sanitize_enum_identifier` adds change nothing: it is `sanitize`.
pub sanitize_enum_identifier-eq-sanitize : (s : Text) → sanitize_enum_identifier s ≡ sanitize s
unfolding sanitize_enum_identifier
sanitize_enum_identifier-eq-sanitize s =
    let safe = sanitize-IsSafeName s in
    rw (replace_dots_id (sanitize s) safe.chars) (prefix_if_digit_id (sanitize s) safe.first)

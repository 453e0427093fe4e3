-- ===== src/Ir/Endpoint/Paths.antt =====
-- Paths with placeholders, and what becomes of them in a path template.
use siesta.Prelude.{
  ℕ, zero, ◌-◌, Text, lit, text_eq, text_eq_iff, false, List, [], ◌∷◌, ◌++◌, if◌then◌else◌, length,
  ◌==◌, ==_iff, All, Without, append_assoc, ◌≡◌, refl, arith, ap, ◌∙◌, sym, if_cases, Bool-cases,
  inl, inr,
}
use siesta.Support.Names.{starts_with}
use siesta.Ir.Endpoint.{ClientParam}
use siesta.Ir.Endpoint.Template.{replace_all, placeholder, path_template}

-- A piece of a path: a byte, or a placeholder for a parameter.
pub data Piece : Type 0 where
  byte : ℕ → Piece
  hole : Text → Piece

abbrev pub show : List Piece → Text
show [] = []
show (byte c ∷ ps) = c ∷ show ps
show (hole y ∷ ps) = b'{' ∷ y ++ b'}' ∷ show ps

-- A name without braces.
pub record IsName (x : Text) : Type 0 where
  pub no_open : Without b'{' x
  pub no_close : Without b'}' x

abbrev pub IsPiece : Piece → Type 0
IsPiece (byte c) = (c == b'{') ≡ false
IsPiece (hole y) = IsName y

-- The placeholders of one name lose it.
abbrev pub erase : Text → List Piece → List Piece
erase x [] = []
erase x (byte c ∷ ps) = byte c ∷ erase x ps
erase x (hole y ∷ ps) = hole (if text_eq x y then [] else y) ∷ erase x ps

-- What is passed over does not matter.
replace_all-skip : (ph y s : Text) → replace_all (length y) ph (y ++ s) ≡ replace_all zero ph s
unfolding replace_all
replace_all-skip ph [] s = refl
replace_all-skip ph (c ∷ y) s = replace_all-skip ph y s

-- Bytes without an opening brace are copied.
replace_all-copy :
    (x y s : Text)
    → Without b'{' y
    → replace_all zero (placeholder x) (y ++ s) ≡ y ++ replace_all zero (placeholder x) s
unfolding replace_all starts_with
replace_all-copy x [] s h = refl
replace_all-copy x (c ∷ y) s (n, h) =
    let no : (b'{' == c) ≡ false = ground (arith, ==_iff b'{' c, ==_iff c b'{') in
    rw (no, replace_all) (ap (λ (t : Text). c ∷ t) (replace_all-copy x y s h))

starts_with-hole :
    (x y s : Text)
    → Without b'}' x
    → Without b'}' y
    → starts_with (x ++ lit "}") (y ++ b'}' ∷ s) ≡ text_eq x y
unfolding starts_with text_eq
starts_with-hole [] [] s h k = refl
starts_with-hole [] (c ∷ y) s h (k, ks) = ground (arith, ==_iff b'}' c, ==_iff c b'}')
starts_with-hole (b ∷ x) [] s (h, hs) k = ground arith
starts_with-hole (b ∷ x) (c ∷ y) s (h, hs) (k, ks) = ground (arith, starts_with-hole x y s hs ks)

replace_all-passed :
    (ph x y s : Text)
    → x ≡ y
    → replace_all (length (placeholder x) - 1) ph (y ++ b'}' ∷ s) ≡ replace_all zero ph s
replace_all-passed ph x y s e =
    let passed : (length (placeholder x) - 1) ≡ length (x ++ lit "}") = omega arith in
    rw (passed, e)
      (ap (λ (t : Text). replace_all (length (y ++ lit "}")) ph t)
          (sym (append_assoc y (lit "}") s))
        ∙ replace_all-skip ph (y ++ lit "}") s)

-- Replacing one placeholder.
replace_all-show :
    (x : Text) (ps : List Piece)
    → IsName x
    → All IsPiece ps
    → replace_all zero (placeholder x) (show ps) ≡ show (erase x ps)
unfolding replace_all
replace_all-show x [] n h = refl
replace_all-show x (byte c ∷ ps) n (b, h) =
    replace_all-copy x (c ∷ []) (show ps) (b, tt)
    ∙ ap (λ (t : Text). c ∷ t) (replace_all-show x ps n h)
replace_all-show x (hole y ∷ ps) n (m, h) =
    let rest = replace_all-show x ps n h in
    elim (Bool-cases (text_eq x y)) [
      | inl e ↦ rw (starts_with-hole x y (show ps) n.no_close m.no_close) (
          rw (e, replace_all)
            (ap (λ (t : Text). lit "{}" ++ t)
              (replace_all-passed (placeholder x) x y (show ps) ((text_eq_iff x y).0 e) ∙ rest)))
      | inr e ↦ rw (starts_with-hole x y (show ps) n.no_close m.no_close) (
          rw (e, replace_all)
            (ap (λ (t : Text). b'{' ∷ t)
              (replace_all-copy x y (b'}' ∷ show ps) m.no_open
                ∙ ap (λ (t : Text). y ++ t)
                    (replace_all-copy x (lit "}") (show ps) (refl, tt)
                      ∙ ap (λ (t : Text). b'}' ∷ t) rest))))
    ]

-- The empty placeholder holds no brace.
erase-IsPiece : (x : Text) (ps : List Piece) → All IsPiece ps → All IsPiece (erase x ps)
erase-IsPiece x [] h = tt
erase-IsPiece x (byte c ∷ ps) (b, h) = (b, erase-IsPiece x ps h)
erase-IsPiece x (hole y ∷ ps) (m, h) = (
  if_cases IsName (text_eq x y) (λ e. record { no_open = tt; no_close = tt }) (λ e. m),
  erase-IsPiece x ps h,
)

-- The placeholders of all path parameters lose their names.
abbrev pub erase_all : List ClientParam → List Piece → List Piece
erase_all [] ps = ps
erase_all (p ∷ params) ps =
    erase_all params (if text_eq p.location (lit "path") then erase p.name ps else ps)

-- If the names of the parameters and of the placeholders hold no braces, and the path has a `{` only
-- where a placeholder starts, then the template of the path keeps all its bytes and has `{}` for
-- exactly those of its placeholders that are named like a path parameter.
pub path_template-show :
    (params : List ClientParam) (ps : List Piece)
    → All (λ p. IsName p.name) params
    → All IsPiece ps
    → path_template params (show ps) ≡ show (erase_all params ps)
unfolding path_template
path_template-show [] ps n h = refl
path_template-show (p ∷ params) ps (m, n) h = elim (Bool-cases (text_eq p.location (lit "path"))) [
  | inl e ↦
      rw (e, path_template)
        (rw (replace_all-show p.name ps m h)
          (path_template-show params (erase p.name ps) n (erase-IsPiece p.name ps h)))
  | inr e ↦ rw (e, path_template) (path_template-show params ps n h)
]

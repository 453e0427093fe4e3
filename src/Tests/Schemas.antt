-- ===== src/Tests/Schemas.antt =====
-- generator/src/Driver/Driver.cpp on a document of two schemas.
use siesta.Prelude.{Text, lit, false, List, [], ◌∷◌, has, text_eq, as_listed, ◌≡◌, refl}
use siesta.Support.Sanitize.{sanitize}
use siesta.Frontend.Ast.{validate}
use siesta.Frontend.Schema.{Kind, Head, JsonSchema, plain, nil, end, property}
use siesta.Frontend.Parser.{Printing, extract_type_ref}
use siesta.Driver.{no_types, parse_schemas}
use siesta.Driver.Resolution.{EachScoped, component_names, validate-parse_schemas}

-- Numbers are written in unary.
abbrev pub unary : Printing
unary = record { nat = λ n. []; int = λ n. [] }

abbrev plain_head : Head
plain_head = record {
  ref = [];
  format = [];
  description = [];
  enum = [];
  has_properties = false;
  has_all_of = false;
  has_additional_properties = false;
}

abbrev owner_link : JsonSchema
owner_link =
    plain Kind.unknown (record plain_head { ref = lit "#/components/schemas/Owner" }) nil nil nil
      end

-- A pet has a list of owners and an address, which is written in place.
abbrev pub document : List (Text × JsonSchema)
document =
    (
      lit "Pet",
      plain Kind.object plain_head nil nil nil (
          property (lit "owners") (JsonSchema.array plain_head owner_link) (
            property (lit "address")
              (plain Kind.object plain_head nil nil nil (property (lit "of") owner_link end)) end)),
    )
    ∷ (lit "Owner", plain Kind.string plain_head nil nil nil end)
    ∷ []

pub document-EachScoped : EachScoped (component_names document) document
unfolding sanitize extract_type_ref has text_eq
document-EachScoped = (
  (
    tt,
    (
      tt,
      (
        tt,
        (
          refl,
          (
            (refl, (tt, (tt, (tt, tt)))),
            (refl, ((tt, (tt, (tt, (refl, ((tt, (tt, (tt, tt))), tt))))), tt)),
          ),
        ),
      ),
    ),
  ),
  ((tt, (tt, (tt, tt))), tt),
)

validate-parse_schemas_example : validate as_listed (parse_schemas unary document no_types).ast ≡ []
validate-parse_schemas_example = validate-parse_schemas unary as_listed document document-EachScoped

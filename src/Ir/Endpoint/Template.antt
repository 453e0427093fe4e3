-- ===== src/Ir/Endpoint/Template.antt =====
-- generator/src/IR/EndpointIR.cpp: the path template of an endpoint, in which `{}` stands for each
-- path parameter.
use siesta.Prelude.{
  ℕ, zero, suc, Text, lit, text_eq, true, false, List, [], ◌∷◌, ◌++◌, if◌then◌else◌, length, ◌-◌,
}
use siesta.Support.Names.{starts_with}
use siesta.Ir.Endpoint.{ClientParam}

-- The loop over the places at which the placeholder is found. The first argument counts the bytes that
-- are still to be passed over.
unfoldable pub replace_all : ℕ → Text → Text → Text
unfolding starts_with
replace_all skip ph [] = []
replace_all (suc skip) ph (c ∷ s) = replace_all skip ph s
replace_all zero ph (c ∷ s) = elim (starts_with ph (c ∷ s)) [
  | true ↦ lit "{}" ++ replace_all (length ph - 1) ph s
  | false ↦ c ∷ replace_all zero ph s
]

abbrev pub placeholder : Text → Text
placeholder name = b'{' ∷ name ++ lit "}"

unfoldable pub path_template : List ClientParam → Text → Text
unfolding replace_all text_eq
path_template [] tmpl = tmpl
path_template (p ∷ params) tmpl =
    path_template params
      (if text_eq p.location (lit "path") then replace_all zero (placeholder p.name) tmpl else tmpl)

-- ===== src/PathTree/Split.antt =====
-- Splitting a path at its slashes loses nothing, and is the split at the first slash, repeated.
use siesta.Prelude.{Text, find_byte, List, [], ◌∷◌, ◌++◌, Option, none, some, ◌≡◌, refl, ap, arith}
use siesta.PathTree.{Segments, segments}

abbrev first_split : Text → Option (Text × Text) → Segments
first_split path none = record { token = path; more = [] }
first_split path (some (before, behind)) = record {
  token = before;
  more = (segments behind).token ∷ (segments behind).more;
}

pub segments-find_byte : (path : Text) → segments path ≡ first_split path (find_byte b'/' path)
unfolding segments find_byte
segments-find_byte [] = refl
segments-find_byte (c ∷ s) = ground (arith, segments-find_byte s)

-- The path that segments come from.
abbrev pub join_more : List Text → Text
join_more [] = []
join_more (t ∷ ts) = b'/' ∷ t ++ join_more ts

abbrev pub join : Segments → Text
join s = s.token ++ join_more s.more

pub join-segments : (path : Text) → join (segments path) ≡ path
unfolding segments
join-segments [] = refl
join-segments (c ∷ s) = ground (arith, join-segments s)

pub segments_injective : (p q : Text) → segments p ≡ segments q → p ≡ q
segments_injective p q e = cc (join-segments p, join-segments q, ap join e)

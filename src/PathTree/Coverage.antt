-- ===== src/PathTree/Coverage.antt =====
-- Which paths `contains` finds: the prefixes of inserted paths, a wildcard of which stands for any segment.
use siesta.Prelude.{Text, text_eq, Bool, false, List, [], ◌∷◌, ◌&&◌, ◌||◌}
use siesta.PathTree.{wildcard}

-- The second path is no longer than the first one, and each of its segments is the first one's there, or the
-- first one has a wildcard there.
abbrev pub covers : Text → List Text → Text → List Text → Bool
covers t more s [] = text_eq t s || text_eq t wildcard
covers t [] s (_ ∷ _) = false
covers t (u ∷ more) s (w ∷ ms) = (text_eq t s || text_eq t wildcard) && covers u more w ms

-- ===== src/Validator/Values/Types.antt =====
-- A value is of the type that is printed for it, and of which others.
use siesta.Prelude.{Text, lit, text_eq, Bool, true, false, ◌≡◌, arith, ◌||◌, ◌&&◌}
use siesta.Validator.Json.{Json, null, bool, int64, uint64, double, string, array, object, Outside}
use siesta.Validator.Values.{type_to_string, check_type_match}

-- The doubles that count as integers: those that are their own floor.
abbrev pub is_whole : (o : Outside) → Json o.Double → Bool
is_whole o (int64 _) = true
is_whole o (uint64 _) = true
is_whole o (double d) = o.equal (o.floor d) d
is_whole o _ = false

-- A value matches the name of its own type; an integer matches `number` as well, and a number that is
-- its own floor matches `integer`; nothing else matches.
pub check_type_match_lem :
    (o : Outside) (v : Json o.Double) (type : Text)
    → check_type_match o v type ≡ (
        text_eq type (type_to_string v)
        || ((is_whole o v && text_eq type (lit "number"))
            || (is_whole o v && text_eq type (lit "integer"))))
unfolding check_type_match type_to_string
check_type_match_lem o (array _) type = ground arith
check_type_match_lem o (object _) type = ground arith
check_type_match_lem o (string _) type = ground arith
check_type_match_lem o (bool _) type = ground arith
check_type_match_lem o null type = ground arith
check_type_match_lem o (int64 _) type = ground arith
check_type_match_lem o (uint64 _) type = ground arith
check_type_match_lem o (double d) type = ground arith

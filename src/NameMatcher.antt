-- ===== src/NameMatcher.antt =====
-- common/namematcher/matcher.go: patterns on the names of relays.
-- A rule is a suffix, written `suffix$`, or one whole name, written `^name$`.
pub mod Superset
mod Tests
use snowflake.Common.{Bool, if◌then◌else◌, ◌&&◌}
use snowflake.Common.Bytes.{Bytes, codes, eqb, has_prefix, has_suffix, trim_prefix, trim_suffix}

pub record NameMatcher : Type 0 where
  pub exact : Bool
  pub suffix : Bytes

unfoldable pub new_name_matcher : Bytes → NameMatcher
unfolding trim_prefix trim_suffix has_prefix
new_name_matcher rule =
    let rule' = trim_suffix rule (codes "$") in
    record { suffix = trim_prefix rule' (codes "^"); exact = has_prefix rule' (codes "^") }

unfoldable pub is_valid_rule : Bytes → Bool
unfolding has_suffix
is_valid_rule rule = has_suffix rule (codes "$")

unfoldable pub is_superset_of : NameMatcher → NameMatcher → Bool
is_superset_of m matcher =
    if m.exact
    then matcher.exact && eqb m.suffix matcher.suffix
    else has_suffix matcher.suffix m.suffix

unfoldable pub is_member : NameMatcher → Bytes → Bool
is_member m s = if m.exact then eqb s m.suffix else has_suffix s m.suffix

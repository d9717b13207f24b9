-- ===== src/NameMatcher/Tests.antt =====
-- Runs of the matcher.
use snowflake.Common.{◌≡◌, ◌↔◌, refl, true, false}
use snowflake.Common.Bytes.{Bytes, codes, eqb}
use snowflake.NameMatcher.{NameMatcher, new_name_matcher, is_superset_of, is_member, is_valid_rule}
use snowflake.NameMatcher.Superset.{superset_iff}

abbrev broker_rule : NameMatcher
broker_rule = record { exact = true; suffix = codes "01.snowflake.net" }

abbrev proxy_rule : NameMatcher
proxy_rule = record { exact = false; suffix = codes "snowflake.net" }

runs :
    (new_name_matcher (codes "^01.snowflake.net$") ≡ broker_rule)
    × (new_name_matcher (codes "snowflake.net$") ≡ proxy_rule)
    × (is_superset_of proxy_rule broker_rule ≡ true)
    × (is_superset_of broker_rule proxy_rule ≡ false)
    × (is_valid_rule (codes "snowflake.net") ≡ false)
unfolding is_superset_of new_name_matcher is_valid_rule eqb
runs = (refl, refl, refl, refl, refl)

superset_iff_example :
    (is_superset_of proxy_rule broker_rule ≡ true)
    ↔ ((s : Bytes) → is_member broker_rule s ≡ true → is_member proxy_rule s ≡ true)
superset_iff_example = superset_iff proxy_rule broker_rule

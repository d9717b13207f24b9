-- ===== src/ClientLib/Rendezvous/NatPolicy/Tests.antt =====
-- A client whose NAT check fails, and whose first attempt times out.
use snowflake.Common.{Bool, true, false, Option, none, some, List, [], ◌∷◌, ◌≡◌, refl}
use snowflake.ClientLib.Rendezvous.NatPolicy.{
  Attempt, Connected, timed_out, opened, success, new_nat_policy, nat_type_to_send, type_to_send,
  wait_open, failure, connect, update_nat_type, attempts,
}
use snowflake.ClientLib.Rendezvous.NatPolicy.Spoofing.{
  told_type, unknown_timed_out, attempts-spoof_once,
}

abbrev blocked : Attempt
blocked = record { prepared = true; negotiates = λ sent. true; accepted = true; opens = false }

abbrev smooth : Attempt
smooth = record { prepared = true; negotiates = λ sent. true; accepted = true; opens = true }

abbrev waited : Connected
waited = record {
  outcome = timed_out;
  sent = some "unrestricted";
  policy = some (record { assumed_unrestricted_nat_and_failed_to_connect = true });
}

abbrev connected : Connected
connected = record {
  outcome = opened;
  sent = some "unknown";
  policy = some (record { assumed_unrestricted_nat_and_failed_to_connect = true });
}

abbrev tries : List (List (Option Bool) × Attempt)
tries = (none ∷ [], blocked) ∷ ([], smooth) ∷ []

told :
    attempts (some new_nat_policy) "unknown" tries
    ≡ ("unknown", waited) ∷ ("unknown", connected) ∷ []
unfolding attempts connect type_to_send nat_type_to_send wait_open failure success update_nat_type
told = refl

attempts-spoof_once_example :
    "unknown" ≡ told_type (unknown_timed_out (("unknown", waited) ∷ [])) "unknown"
attempts-spoof_once_example =
    attempts-spoof_once "unknown" tries (("unknown", waited) ∷ []) [] "unknown" "unknown" connected
      told refl

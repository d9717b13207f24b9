-- ===== src/ClientLib/Rendezvous/NatPolicy.antt =====
-- NATPolicy of client/lib/rendezvous.go, with connect of client/lib/webrtc.go, which calls it, and updateNATType of
-- client/lib/snowflake.go. The mutexes and the events are left out.
pub mod Spoofing
mod Tests
use Prim.Native.String.{String}
use snowflake.Common.{
  Bool, true, false, Option, none, some, List, [], ◌∷◌, not, ◌&&◌, if◌then◌else◌,
}
use snowflake.Common.Text.{str_eq}
use snowflake.Messages.{nat_unknown, nat_restricted, nat_unrestricted}

pub record NatPolicy : Type 0 where
  pub assumed_unrestricted_nat_and_failed_to_connect : Bool

abbrev pub new_nat_policy : NatPolicy
new_nat_policy = record { assumed_unrestricted_nat_and_failed_to_connect = false }

unfoldable pub nat_type_to_send : NatPolicy → String → String
nat_type_to_send p actual =
    if not p.assumed_unrestricted_nat_and_failed_to_connect && str_eq actual nat_unknown
    then nat_unrestricted
    else actual

unfoldable pub success : NatPolicy → (actual sent : String) → NatPolicy
success p actual sent = p

unfoldable pub failure : NatPolicy → (actual sent : String) → NatPolicy
failure p actual sent =
    if str_eq actual nat_unknown && str_eq sent nat_unrestricted
    then record { assumed_unrestricted_nat_and_failed_to_connect = true }
    else p

-- What an attempt meets: whether the connection can be prepared, whether the broker answers an offer that is sent
-- with a NAT type, whether the answer is accepted, and whether the data channel opens in time.
pub record Attempt : Type 0 where
  pub prepared : Bool
  pub negotiates : String → Bool
  pub accepted : Bool
  pub opens : Bool

pub data Outcome : Type 0 where
  not_prepared not_negotiated not_accepted opened timed_out : Outcome

-- How the attempt ends, the NAT type that the broker was told, and the policy behind it; a nil policy is `none`.
pub record Connected : Type 0 where
  pub outcome : Outcome
  pub sent : Option String
  pub policy : Option NatPolicy

unfoldable pub type_to_send : Option NatPolicy → String → String
unfolding nat_type_to_send
type_to_send none actual = actual
type_to_send (some p) actual = nat_type_to_send p actual

-- The select on the opening of the data channel.
unfoldable pub wait_open : Option NatPolicy → (opens : Bool) → (actual sent : String) → Connected
unfolding success failure
wait_open none true actual sent = record { outcome = opened; sent = some sent; policy = none }
wait_open none false actual sent = record { outcome = timed_out; sent = some sent; policy = none }
wait_open (some p) true actual sent = record {
  outcome = opened;
  sent = some sent;
  policy = some (success p actual sent);
}
wait_open (some p) false actual sent = record {
  outcome = timed_out;
  sent = some sent;
  policy = some (failure p actual sent);
}

-- connect
unfoldable pub connect : Option NatPolicy → (actual : String) → Attempt → Connected
unfolding type_to_send wait_open
connect policy actual a =
    if a.prepared
    then (if a.negotiates (type_to_send policy actual)
        then (if a.accepted
            then wait_open policy a.opens actual (type_to_send policy actual)
            else record {
              outcome = not_accepted;
              sent = some (type_to_send policy actual);
              policy = policy;
            })
        else record {
          outcome = not_negotiated;
          sent = some (type_to_send policy actual);
          policy = policy;
        })
    else record { outcome = not_prepared; sent = none; policy = policy }

-- updateNATType on what CheckIfRestrictedNAT finds at each server, `none` for its error: the NAT type behind it.
unfoldable pub update_nat_type : List (Option Bool) → String → String
update_nat_type [] nat_type = nat_type
update_nat_type (some true ∷ _) nat_type = nat_restricted
update_nat_type (some false ∷ _) nat_type = nat_unrestricted
update_nat_type (none ∷ []) nat_type = nat_unknown
update_nat_type (none ∷ check ∷ checks) nat_type = update_nat_type (check ∷ checks) nat_type

-- Attempts one after the other, as Peers.Collect makes them, each behind a check of the NAT type: what was actual
-- and how the attempt went.
unfoldable pub attempts :
    Option NatPolicy
    → (nat_type : String) → List (List (Option Bool) × Attempt)
    → List (String × Connected)
unfolding connect update_nat_type
attempts policy nat_type [] = []
attempts policy nat_type ((checks, a) ∷ as') =
    let actual = update_nat_type checks nat_type in
    let c = connect policy actual a in (actual, c) ∷ attempts c.policy actual as'

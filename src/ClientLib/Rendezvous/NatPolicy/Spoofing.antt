-- ===== src/ClientLib/Rendezvous/NatPolicy/Spoofing.antt =====
-- When the broker is told another NAT type than the actual one.
use Prim.Native.String.{String}
use snowflake.Common.{
  Bool, true, false, Option, some, List, [], ◌∷◌, ◌++◌, ◌≡◌, ap, ◌∙◌, arith, inl, inr, Bool-cases,
  get_or, drop, ◌&&◌, ◌||◌, if◌then◌else◌,
}
use snowflake.Common.Text.{str_eq}
use snowflake.Messages.{nat_unknown, nat_unrestricted}
use snowflake.ClientLib.Rendezvous.NatPolicy.{
  success, NatPolicy, Attempt, Outcome, timed_out, Connected, connect, update_nat_type, attempts,
  nat_type_to_send, failure, type_to_send, wait_open, new_nat_policy,
}

abbrev is_timed_out : Outcome → Bool
is_timed_out timed_out = true
is_timed_out _ = false

-- Whether one of the attempts was made with the unknown type, and its data channel did not open in time.
abbrev pub unknown_timed_out : List (String × Connected) → Bool
unknown_timed_out [] = false
unknown_timed_out ((actual, c) ∷ cs) =
    (str_eq actual nat_unknown && is_timed_out c.outcome) || unknown_timed_out cs

-- What the broker is to be told.
abbrev pub told_type : (unknown_failed : Bool) → (actual : String) → String
told_type true actual = actual
told_type false actual = if str_eq actual nat_unknown then nat_unrestricted else actual

abbrev policy_of : Bool → NatPolicy
policy_of b = record { assumed_unrestricted_nat_and_failed_to_connect = b }

connect-sent :
    (b : Bool) (actual sent : String) (a : Attempt)
    → (connect (some (policy_of b)) actual a).sent ≡ some sent
    → sent ≡ told_type b actual
unfolding connect type_to_send nat_type_to_send wait_open success failure
connect-sent true actual sent a h = ground arith
connect-sent false actual sent a h = ground arith

connect-policy :
    (b : Bool) (actual : String) (a : Attempt)
    → let c = connect (some (policy_of b)) actual a in
      c.policy ≡ some (policy_of ((str_eq actual nat_unknown && is_timed_out c.outcome) || b))
unfolding connect type_to_send nat_type_to_send wait_open success failure
connect-policy true actual a = ground arith
connect-policy false actual a = elim (Bool-cases (str_eq actual nat_unknown)) [
  | inl e ↦ rw e (ground arith)
  | inr e ↦ rw e (ground arith)
]

-- From any policy on.
told_lem :
    (b : Bool) (nat_type : String) (tries : List (List (Option Bool) × Attempt))
    (xs ys : List (String × Connected)) (actual sent : String) (c : Connected)
    → attempts (some (policy_of b)) nat_type tries ≡ xs ++ (actual, c) ∷ ys
    → c.sent ≡ some sent
    → sent ≡ told_type (unknown_timed_out xs || b) actual
unfolding attempts
told_lem b nat_type [] [] ys actual sent c h s = ground arith
told_lem b nat_type [] (x ∷ xs) ys actual sent c h s = ground arith
told_lem b nat_type ((checks, a) ∷ tries) [] ys actual sent c h s =
    let now = update_nat_type checks nat_type in
    let p : now ≡ actual = ap (λ (l : List (String × Connected)). (get_or l 0 (actual, c)).0) h in
    let q : connect (some (policy_of b)) now a ≡ c =
      ap (λ (l : List (String × Connected)). (get_or l 0 (actual, c)).1) h in
    connect-sent b now sent a (ap (λ (r : Connected). r.sent) q ∙ s) ∙ ap (told_type b) p
told_lem b nat_type ((checks, a) ∷ tries) ((was, d) ∷ xs) ys actual sent c h s =
    let now = update_nat_type checks nat_type in
    let p : now ≡ was = ap (λ (l : List (String × Connected)). (get_or l 0 (was, d)).0) h in
    let q : connect (some (policy_of b)) now a ≡ d =
      ap (λ (l : List (String × Connected)). (get_or l 0 (was, d)).1) h in
    let b' =
      (str_eq now nat_unknown && is_timed_out (connect (some (policy_of b)) now a).outcome) || b in
    let tail : attempts (connect (some (policy_of b)) now a).policy now tries
        ≡ xs ++ (actual, c) ∷ ys =
      ap (λ (l : List (String × Connected)). drop 1 l) h in
    let run : attempts (some (policy_of b')) now tries ≡ xs ++ (actual, c) ∷ ys =
      rw (connect-policy b now a) at tail in
    told_lem b' now tries xs ys actual sent c run s
    ∙ ap (λ (f : Bool). told_type f actual) (rw (← p, ← q) (ground arith))

-- From a new policy on, whatever the checks of the NAT find and the attempts meet: an attempt that tells the broker a
-- NAT type tells it the actual one, but for the unknown type, in whose place it tells the unrestricted one as long as
-- no attempt before it with the unknown type has waited in vain for its data channel to open.
pub attempts-spoof_once :
    (nat_type : String) (tries : List (List (Option Bool) × Attempt))
    (before later : List (String × Connected)) (actual sent : String) (c : Connected)
    → attempts (some new_nat_policy) nat_type tries ≡ before ++ (actual, c) ∷ later
    → c.sent ≡ some sent
    → sent ≡ told_type (unknown_timed_out before) actual
attempts-spoof_once nat_type tries before later actual sent c h s =
    told_lem false nat_type tries before later actual sent c h s
    ∙ ap (λ (f : Bool). told_type f actual) (ground arith)

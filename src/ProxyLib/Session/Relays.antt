-- ===== src/ProxyLib/Session/Relays.antt =====
-- The relays that the clients of a proxy are connected to.
use Prim.Native.String.{String}
use snowflake.Common.{Option, some, List, ◌≡◌, refl, arith, inl, inr, some_or_none, Bool-cases}
use mathlib.Core.Path.{subst}
use snowflake.Common.Bytes.{Bytes}
use snowflake.Common.Members.{All, All-append, All-split, All-join}
use snowflake.Common.Text.{str_eq}
use snowflake.Common.Result.{ok, ok_or_err}
use snowflake.Messages.{Value}
use snowflake.Messages.Proxy.{ProxyPollResponse}
use snowflake.Messages.Sdp.{SessionDescription, deserialize_session_description}
use snowflake.ProxyLib.RelayUrl.{Url, check_is_relay_url_acceptable}
use snowflake.ProxyLib.Session.{
  Session, Change, new_session, Move, fail_poll, refuse, spawn, give_back, keep, give_up, open',
  connect, serve, finish, Proxy, started, Step, begin, move, crash, Steps, stay, go,
}
use snowflake.ProxyLib.Session.Decisions.{SnowflakeProxy, acceptable, accept_offer}

module _ (object : String → Option (List (String × Value))) (parse_url : String → Option Url)
    (parse_ip : String → Option Bytes) (sf : SnowflakeProxy) where
  abbrev pub IsAcceptable : Session → Type 0
  IsAcceptable s = acceptable object parse_url parse_ip sf s.relay ≡ ok tt

  abbrev accept : ProxyPollResponse → Option SessionDescription
  accept = accept_offer object parse_url parse_ip sf

  accepted :
      (resp : ProxyPollResponse) (offer : SessionDescription)
      → accept resp ≡ some offer
      → acceptable object parse_url parse_ip sf resp.relay_url ≡ ok tt
  unfolding accept_offer check_is_relay_url_acceptable
  accepted resp offer h = elim (some_or_none (deserialize_session_description object resp.offer)) [
    | inl e ↦ ground arith
    | inr (d, e) ↦ elim (Bool-cases (str_eq resp.relay_url "")) [
      | inl f ↦ rw (check_is_relay_url_acceptable, f) refl
      | inr f ↦ elim (ok_or_err (acceptable object parse_url parse_ip sf resp.relay_url)) [
        | inl (x, g) ↦ ground arith
        | inr (u, g) ↦ g
      ]
    ]
  ]

  nothing : acceptable object parse_url parse_ip sf "" ≡ ok tt
  unfolding check_is_relay_url_acceptable
  nothing = refl

  move-IsAcceptable :
      (s t : Session) (change : Change) → Move accept s change t → IsAcceptable s → IsAcceptable t
  move-IsAcceptable s t change (fail_poll h) good = good
  move-IsAcceptable s t change (refuse resp h g) good = nothing
  move-IsAcceptable s t change (spawn resp offer h g) good = accepted resp offer g
  move-IsAcceptable s t change (give_back h g) good = good
  move-IsAcceptable s t change (keep h g) good = good
  move-IsAcceptable s t change (give_up h) good = good
  move-IsAcceptable s t change (open' h g) good = good
  move-IsAcceptable s t change (connect h g) good = good
  move-IsAcceptable s t change (serve h) good = good
  move-IsAcceptable s t change (finish h) good = good

  step-IsAcceptable :
      (p q : Proxy accept)
      → Step accept p q
      → All IsAcceptable p.sessions
      → All IsAcceptable q.sessions
  step-IsAcceptable p q (begin up all) good =
      All-append IsAcceptable p.sessions new_session good nothing
  step-IsAcceptable p q (move xs ys s t change up here m) good =
      let (before, now, after) =
        All-split IsAcceptable xs s ys (subst (λ ss. All IsAcceptable ss) here good) in
      All-join IsAcceptable xs t ys before (move-IsAcceptable s t change m now) after
  step-IsAcceptable p q (crash xs ys s up here taken) good = good

  -- Whatever the broker, the clients and the relays do, the relay URL of every session of a proxy has passed the
  -- check of relay URLs with the settings of the proxy; the empty one stands for the proxy's own relay.
  pub Steps-IsAcceptable :
      (p : Proxy accept) → Steps accept (started accept) p → All IsAcceptable p.sessions
  Steps-IsAcceptable p stay = tt
  Steps-IsAcceptable p (go q r steps step) = step-IsAcceptable q p step (Steps-IsAcceptable q steps)

-- ===== src/ProxyLib/Session/Tokens.antt =====
-- What the number of tokens counts.
use snowflake.Common.{
  ℕ, ◌+◌, ◌%◌, Option, List, [], ◌∷◌, ◌++◌, ◌≡◌, refl, arith, ap, ◌∙◌, true, ◌≤◌,
}
use snowflake.Common.Members.{All}
use snowflake.Messages.Proxy.{ProxyPollResponse}
use snowflake.Messages.Sdp.{SessionDescription}
use snowflake.ProxyLib.Session.{
  Main, polling, spawned, released, kept, Channel, serving, Session, Change, add, is_returned,
  new_session, Move, fail_poll, refuse, spawn, give_back, keep, give_up, open', connect, serve,
  finish, Proxy, started, Step, begin, move, crash, Steps, stay, go,
}

abbrev pub of_main : Main → ℕ
of_main released = 0
of_main _ = 1

abbrev pub of_channel : Channel → ℕ
of_channel serving = 1
of_channel _ = 0

abbrev pub of_poll : Main → ℕ
of_poll polling = 1
of_poll spawned = 1
of_poll _ = 0

abbrev pub of_kept : Main → ℕ
of_kept kept = 1
of_kept _ = 0

abbrev pub weight : Session → ℕ
weight s = of_main s.main + of_channel s.channel

abbrev pub total : List Session → ℕ
total [] = 0
total (s ∷ ss) = weight s + total ss

pub total-append : (xs ys : List Session) → total (xs ++ ys) ≡ total xs + total ys
total-append [] ys = omega arith
total-append (x ∷ xs) ys = omega (arith, total-append xs ys)

module _ (accept : ProxyPollResponse → Option SessionDescription) where
  move-weight :
      (s t : Session) (change : Change) (n rest : ℕ)
      → Move accept s change t
      → n ≡ (weight s + rest) % 18446744073709551616
      → add change n ≡ (weight t + rest) % 18446744073709551616
  unfolding add
  move-weight s t change n rest (fail_poll h) e = omega (arith, ap of_main h)
  move-weight s t change n rest (refuse resp h g) e = omega (arith, ap of_main h)
  move-weight s t change n rest (spawn resp offer h g) e = omega (arith, ap of_main h)
  move-weight s t change n rest (give_back h g) e = omega (arith, ap of_main h)
  move-weight s t change n rest (keep h g) e = omega (arith, ap of_main h)
  move-weight s t change n rest (give_up h) e = e
  move-weight s t change n rest (open' h g) e = omega (arith, ap of_channel g)
  move-weight s t change n rest (connect h g) e = e
  move-weight s t change n rest (serve h) e = omega (arith, ap of_channel h)
  move-weight s t change n rest (finish h) e = omega (arith, ap of_channel h)

-- The sessions whose runSession has not returned, those whose token was not given back, and those whose
-- datachannelHandler is running.
abbrev pub polls : List Session → ℕ
polls [] = 0
polls (s ∷ ss) = of_poll s.main + polls ss

abbrev pub losses : List Session → ℕ
losses [] = 0
losses (s ∷ ss) = of_kept s.main + losses ss

abbrev pub served : List Session → ℕ
served [] = 0
served (s ∷ ss) = of_channel s.channel + served ss

polls-append : (xs ys : List Session) → polls (xs ++ ys) ≡ polls xs + polls ys
polls-append [] ys = omega arith
polls-append (x ∷ xs) ys = omega (arith, polls-append xs ys)

pub served-append : (xs ys : List Session) → served (xs ++ ys) ≡ served xs + served ys
served-append [] ys = omega arith
served-append (x ∷ xs) ys = omega (arith, served-append xs ys)

of_main_sum : (m : Main) → of_main m ≡ of_poll m + of_kept m
of_main_sum polling = refl
of_main_sum spawned = refl
of_main_sum released = refl
of_main_sum kept = refl

total_sum : (ss : List Session) → total ss ≡ polls ss + losses ss + served ss
total_sum [] = refl
total_sum (s ∷ ss) = omega (arith, of_main_sum s.main, total_sum ss)

of_poll_returned : (m : Main) → is_returned m ≡ true → of_poll m ≡ 0
of_poll_returned m h = ground arith

polls_returned : (ss : List Session) → All (λ s. is_returned s.main ≡ true) ss → polls ss ≡ 0
polls_returned [] h = refl
polls_returned (s ∷ ss) (h, hs) = omega (arith, of_poll_returned s.main h, polls_returned ss hs)

module _ (accept : ProxyPollResponse → Option SessionDescription) where
  move-polls :
      (s t : Session) (change : Change) → Move accept s change t → of_poll t.main ≤ of_poll s.main
  move-polls s t change (fail_poll h) = omega arith
  move-polls s t change (refuse resp h g) = omega (arith, ap of_poll h)
  move-polls s t change (spawn resp offer h g) = omega (arith, ap of_poll h)
  move-polls s t change (give_back h g) = omega arith
  move-polls s t change (keep h g) = omega arith
  move-polls s t change (give_up h) = omega arith
  move-polls s t change (open' h g) = omega arith
  move-polls s t change (connect h g) = omega arith
  move-polls s t change (serve h) = omega arith
  move-polls s t change (finish h) = omega arith

  abbrev IsCounted : Proxy accept → Type 0
  IsCounted p = (p.tokens ≡ total p.sessions % 18446744073709551616) × (polls p.sessions ≤ 1)

  step-IsCounted : (p q : Proxy accept) → Step accept p q → IsCounted p → IsCounted q
  unfolding add
  step-IsCounted p q (begin up all) (count, one) = (
    omega (arith, total-append p.sessions (new_session ∷ [])),
    omega (arith, polls-append p.sessions (new_session ∷ []), polls_returned p.sessions all),
  )
  step-IsCounted p q (move xs ys s t change up here m) (count, one) =
      let rest = total xs + total ys in
      let before : total p.sessions ≡ weight s + rest =
        omega (arith, ap total here, total-append xs (s ∷ ys)) in
      let polled : polls p.sessions ≡ polls xs + (of_poll s.main + polls ys) =
        ap polls here ∙ polls-append xs (s ∷ ys) in
      let after = move-weight accept s t change p.tokens rest m (omega (arith, before)) in
      (
        omega (arith, after, total-append xs (t ∷ ys)),
        omega (arith, polled, polls-append xs (t ∷ ys), move-polls s t change m),
      )
  step-IsCounted p q (crash xs ys s up here taken) counted = counted

  Steps-IsCounted : (p : Proxy accept) → Steps accept (started accept) p → IsCounted p
  Steps-IsCounted p stay = (refl, omega arith)
  Steps-IsCounted p (go q r steps step) = step-IsCounted q p step (Steps-IsCounted q steps)

  -- Whatever the sessions do, `tokens` is, as a uint64, the number of sessions whose runSession has not returned, which is
  -- at most one, with those whose datachannelHandler is running, and those for which runSession has found
  -- connectedToClient set when it returned: their tokens are never given back.
  pub Steps-tokens :
      (p : Proxy accept)
      → Steps accept (started accept) p
      → (p.tokens
          ≡ (polls p.sessions + losses p.sessions + served p.sessions) % 18446744073709551616)
        × (polls p.sessions ≤ 1)
  Steps-tokens p steps =
      let (count, one) = Steps-IsCounted p steps in
      (omega (arith, count, total_sum p.sessions), one)

-- ===== src/ProxyLib/Session/Unlimited.antt =====
-- How many clients a proxy serves at once.
use snowflake.Common.{
  ℕ, zero, suc, ◌%◌, Option, some, List, [], ◌∷◌, ◌++◌, ◌≡◌, refl, arith, true, false,
}
use mathlib.Core.Path.{subst}
use snowflake.Common.Members.{All, All-append}
use snowflake.Messages.Proxy.{ProxyPollResponse}
use snowflake.Messages.Sdp.{SessionDescription}
use snowflake.ProxyLib.Session.{
  released, spawned, running, connected, opened, serving, Session, Change, same, take, give, add,
  is_returned, new_session, Move, spawn, give_back, open', connect, serve, Proxy, started, begin,
  move, Steps, stay, go,
}
use snowflake.ProxyLib.Session.Tokens.{served, served-append}

module _ (accept : ProxyPollResponse → Option SessionDescription) (resp : ProxyPollResponse)
    (offer : SessionDescription) (good : accept resp ≡ some offer) where
  busy : Session
  busy = record { main = released; worker = connected; channel = serving; relay = resp.relay_url }

  crowd : ℕ → List Session
  crowd zero = []
  crowd (suc n) = crowd n ++ busy ∷ []

  crowd_returned : (n : ℕ) → All (λ s. is_returned s.main ≡ true) (crowd n)
  unfolding crowd busy
  crowd_returned zero = tt
  crowd_returned (suc n) =
      All-append (λ s. is_returned s.main ≡ true) (crowd n) busy (crowd_returned n) refl

  full : ℕ → Proxy accept
  full n = record { tokens = n % 18446744073709551616; sessions = crowd n; crashed = false }

  -- The proxy with one session behind those of n clients.
  beside : ℕ → (tokens : ℕ) → Session → Proxy accept
  beside n tokens s = record { tokens = tokens; sessions = crowd n ++ s ∷ []; crashed = false }

  turn :
      (p : Proxy accept) (n tokens : ℕ) (s t : Session) (change : Change)
      → Steps accept p (beside n tokens s)
      → Move accept s change t
      → Steps accept p (beside n (add change tokens) t)
  unfolding beside
  turn p n tokens s t change steps m =
      go (beside n tokens s) (beside n (add change tokens) t) steps
        (move (crowd n) [] s t change refl refl m)

  counted :
      (n : ℕ)
      → add take (add give (add take (n % 18446744073709551616))) ≡ suc n % 18446744073709551616
  unfolding add
  counted n = omega arith

  -- One more client, while n are being served.
  round : (p : Proxy accept) (n : ℕ) → Steps accept p (full n) → Steps accept p (full (suc n))
  unfolding full crowd busy beside add
  round p n steps =
      let s₁ : Session = record new_session {
        main = spawned;
        worker = running;
        relay = resp.relay_url;
      } in
      let s₂ : Session = record s₁ { main = released } in
      let s₃ : Session = record s₂ { channel = opened } in
      let s₄ : Session = record s₃ { worker = connected } in
      let k₀ = add take (n % 18446744073709551616) in
      let k₁ = add give k₀ in
      let g₀ = go (full n) (beside n k₀ new_session) steps (begin refl (crowd_returned n)) in
      let g₁ = turn p n k₀ new_session s₁ same g₀ (spawn resp offer refl good) in
      let g₂ = turn p n k₀ s₁ s₂ give g₁ (give_back refl refl) in
      let g₃ = turn p n k₁ s₂ s₃ same g₂ (open' refl refl) in
      let g₄ = turn p n k₁ s₃ s₄ same g₃ (connect refl refl) in
      let g₅ = turn p n k₁ s₄ busy take g₄ (serve refl) in
      subst (λ k. Steps accept p (beside n k busy)) (counted n) g₅

  served-crowd : (n : ℕ) → served (crowd n) ≡ n
  unfolding crowd busy
  served-crowd zero = refl
  served-crowd (suc n) = omega (arith, served-append (crowd n) (busy ∷ []), served-crowd n)

  fill : (n : ℕ) → Steps accept (started accept) (full n)
  unfolding full crowd
  fill zero = stay
  fill (suc n) = round (started accept) n (fill n)

  -- If the broker answers polls with an offer that the proxy accepts, any number of clients may be served at once: no
  -- number of tokens keeps the proxy from its next poll.
  pub Steps-served :
      (n : ℕ)
      → (p : Proxy accept) × Steps accept (started accept) p
        × (served p.sessions ≡ n)
        × (p.tokens ≡ n % 18446744073709551616)
  unfolding full
  Steps-served n = (full n, fill n, served-crowd n, refl)

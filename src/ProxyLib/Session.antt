-- ===== src/ProxyLib/Session.antt =====
-- The sessions of a proxy: the loop of Start, runSession with the goroutine that it starts, the callback for data
-- channels of makePeerConnectionFromOffer, and datachannelHandler, all of proxy/lib/snowflake.go.
-- A step is what one goroutine does between two points at which it may wait. What WebRTC, the broker and the relay do
-- is free: every way in which a wait may end has its step. Whether the relay can be reached, events and logs are left out.

pub mod Tokens
pub mod Decisions
pub mod Relays
pub mod Unlimited
mod Tests
use Prim.Native.String.{String}
use snowflake.Common.{
  ℕ, ◌+◌, ◌%◌, ◌^◌, Bool, true, false, Option, none, some, List, [], ◌∷◌, ◌++◌, ◌≡◌,
}
use snowflake.Common.Members.{All}
use snowflake.Messages.Proxy.{ProxyPollResponse}
use snowflake.Messages.Sdp.{SessionDescription}

-- runSession: in pollOffer; the goroutine started; returned, and its token given back or not.
pub data Main : Type 0 where
  polling spawned released kept : Main

-- The goroutine: not started; on its way to the select on dataChan; behind it with connectedToClient set; ended.
pub data Worker : Type 0 where
  absent running connected ended : Worker

-- The data channel and its datachannelHandler: dataChan is closed from `opened` on.
pub data Channel : Type 0 where
  unopened opened serving finished : Channel

pub record Session : Type 0 where
  pub main : Main
  pub worker : Worker
  pub channel : Channel
  -- the relay URL of the poll response
  pub relay : String

abbrev pub is_returned : Main → Bool
is_returned released = true
is_returned kept = true
is_returned _ = false

abbrev pub is_connected : Worker → Bool
is_connected connected = true
is_connected _ = false

abbrev pub is_open : Channel → Bool
is_open unopened = false
is_open _ = true

-- What a step does to the variable `tokens`.
pub data Change : Type 0 where
  same take give : Change

-- atomic.AddUint64 of 0, 1 and ^0.
unfoldable pub add : Change → ℕ → ℕ
add same tokens = tokens
add take tokens = (tokens + 1) % 18446744073709551616
add give tokens = (tokens + 18446744073709551615) % 18446744073709551616

abbrev pub new_session : Session
new_session = record { main = polling; worker = absent; channel = unopened; relay = "" }

-- `accept` is what the goroutine makes of the response before it answers.
module _ (accept : ProxyPollResponse → Option SessionDescription) where
  pub data Move (s : Session) : Change → Session → Type 0 where
    -- pollOffer fails
    fail_poll : s.main ≡ polling → Move s give (record s { main = released })
    -- pollOffer returns no offer, or one that is not accepted
    refuse :
        (resp : ProxyPollResponse)
        → s.main ≡ polling
        → accept resp ≡ none
        → Move s same (record s { main = spawned; worker = ended; relay = "" })
    spawn :
        (resp : ProxyPollResponse) (offer : SessionDescription)
        → s.main ≡ polling
        → accept resp ≡ some offer
        → Move s same (record s { main = spawned; worker = running; relay = resp.relay_url })
    -- the deferred function of runSession
    give_back :
        s.main ≡ spawned
        → is_connected s.worker ≡ false
        → Move s give (record s { main = released })
    keep : s.main ≡ spawned → is_connected s.worker ≡ true → Move s same (record s { main = kept })
    -- no peer connection, no answer sent, or the timeout of the select
    give_up : s.worker ≡ running → Move s same (record s { worker = ended })
    -- the first data channel of the client
    open' : s.worker ≡ running → s.channel ≡ unopened → Move s same (record s { channel = opened })
    connect :
        s.worker ≡ running
        → is_open s.channel ≡ true
        → Move s same (record s { worker = connected })
    -- datachannelHandler begins and ends
    serve : s.channel ≡ opened → Move s take (record s { channel = serving })
    finish : s.channel ≡ serving → Move s give (record s { channel = finished })

  pub record Proxy : Type 0 where
    pub tokens : ℕ
    pub sessions : List Session
    pub crashed : Bool

  abbrev pub started : Proxy
  started = record { tokens = 0; sessions = []; crashed = false }

  pub data Step (p : Proxy) : Proxy → Type 0 where
    -- the loop of Start, whose last call of runSession has returned
    begin :
        p.crashed ≡ false
        → All (λ s. is_returned s.main ≡ true) p.sessions
        → Step p
            (record p { tokens = add take p.tokens; sessions = p.sessions ++ new_session ∷ [] })
    move :
        (xs ys : List Session) (s t : Session) (change : Change)
        → p.crashed ≡ false
        → p.sessions ≡ xs ++ s ∷ ys
        → Move s change t
        → Step p (record p { tokens = add change p.tokens; sessions = xs ++ t ∷ ys })
    -- another data channel of the client: close of a closed channel
    crash :
        (xs ys : List Session) (s : Session)
        → p.crashed ≡ false
        → p.sessions ≡ xs ++ s ∷ ys
        → is_open s.channel ≡ true
        → Step p (record p { crashed = true })

  pub data Steps (p : Proxy) : Proxy → Type 0 where
    stay : Steps p p
    go : (q r : Proxy) → Steps p q → Step q r → Steps p r

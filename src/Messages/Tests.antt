-- ===== src/Messages/Tests.antt =====
-- Witnesses and tests of the messages: codecs that carry one message each, as the single byte 1.
use Prim.Native.String.{String}
use snowflake.Common.{
  Bool, true, false, Option, none, some, List, [], ◌∷◌, ◌&&◌, if◌then◌else◌, ◌==◌, ◌≡◌, arith, ap,
  Bool-cases, inl, inr,
}
use snowflake.Common.Bytes.{eqb}
use snowflake.Common.Text.{str_eq, str_eq_iff}
use snowflake.Messages.{Codec, IsInverse, Value, text}
use snowflake.Messages.Proxy
use snowflake.Messages.Proxy.{
  ProxyJson, ProxyPollRequest, ProxyPollResponse, ProxyAnswerRequest, ProxyAnswerResponse,
}
use snowflake.Messages.Client
use snowflake.Messages.Client.{ClientJson, ClientPollRequest, ClientPollResponse}

module _ {A B : Type 0} (test : A → Bool) (f : A → Option B) (a : A) where
  abbrev pub single : Codec A B
  single = record {
    marshal = λ x. if test x then some (1 ∷ []) else none;
    unmarshal = λ b. if eqb b (1 ∷ []) then f a else none;
  }

  pub single-IsInverse : ((x : A) → test x ≡ true → x ≡ a) → IsInverse single f
  unfolding eqb
  single-IsInverse sound x b h = elim (Bool-cases (test x)) [
    | inl e ↦ rw (sound x e) (ground arith)
    | inr e ↦ ground arith
  ]

abbrev pub poll : ProxyPollRequest
poll = record {
  sid = "ymbcCMto7KHNGYlp";
  version = "1.3";
  type = "standalone";
  nat = "unrestricted";
  clients = 8;
  accepted_relay_pattern = some "snowflake.torproject.net$";
}

abbrev is_pattern : Option String → Bool
is_pattern none = false
is_pattern (some p) = str_eq p "snowflake.torproject.net$"

is_pattern_sound : (p : Option String) → is_pattern p ≡ true → p ≡ some "snowflake.torproject.net$"
is_pattern_sound none h = ground arith
is_pattern_sound (some p) h = ap some ((str_eq_iff p "snowflake.torproject.net$").0 h)

abbrev pub is_poll : ProxyPollRequest → Bool
is_poll req =
    str_eq req.sid poll.sid
    && (str_eq req.version poll.version
        && (str_eq req.type poll.type
            && (str_eq req.nat poll.nat
                && ((req.clients == 8) && is_pattern req.accepted_relay_pattern))))

pub is_poll_sound : (req : ProxyPollRequest) → is_poll req ≡ true → req ≡ poll
is_poll_sound req h = ground (
  arith,
  str_eq_iff req.sid poll.sid,
  str_eq_iff req.version poll.version,
  str_eq_iff req.type poll.type,
  str_eq_iff req.nat poll.nat,
  is_pattern_sound req.accepted_relay_pattern,
)

abbrev pub match : ProxyPollResponse
match = record {
  status = "client match";
  offer = "{}";
  nat = "restricted";
  next_poll = 0;
  relay_url = "wss://snowflake.torproject.net/";
}

abbrev pub is_match : ProxyPollResponse → Bool
is_match r =
    str_eq r.status match.status
    && (str_eq r.offer match.offer
        && (str_eq r.nat match.nat && ((r.next_poll == 0) && str_eq r.relay_url match.relay_url)))

pub is_match_sound : (r : ProxyPollResponse) → is_match r ≡ true → r ≡ match
is_match_sound r h = ground (
  arith,
  str_eq_iff r.status match.status,
  str_eq_iff r.offer match.offer,
  str_eq_iff r.nat match.nat,
  str_eq_iff r.relay_url match.relay_url,
)

abbrev pub answer : ProxyAnswerRequest
answer = record { version = "1.3"; sid = "ymbcCMto7KHNGYlp"; answer = "an answer" }

abbrev pub is_answer : ProxyAnswerRequest → Bool
is_answer r =
    str_eq r.version answer.version && (str_eq r.sid answer.sid && str_eq r.answer answer.answer)

pub is_answer_sound : (r : ProxyAnswerRequest) → is_answer r ≡ true → r ≡ answer
is_answer_sound r h = ground (
  arith,
  str_eq_iff r.version answer.version,
  str_eq_iff r.sid answer.sid,
  str_eq_iff r.answer answer.answer,
)

abbrev pub is_success : ProxyAnswerResponse → Bool
is_success r = str_eq r.status "success"

pub is_success_sound :
    (r : ProxyAnswerResponse) → is_success r ≡ true → r ≡ record { status = "success" }
is_success_sound r h = ground (arith, str_eq_iff r.status "success")

-- The object of a session description of type offer.
abbrev object : String → Option (List (String × Value))
object s = some (("type", text "offer") ∷ ("sdp", text "v=0") ∷ [])

abbrev pub proxy_json : ProxyJson
proxy_json = record {
  poll_request = single is_poll Proxy.as_read poll;
  poll_response = single is_match some match;
  answer_request = single is_answer some answer;
  answer_response = single is_success some (record { status = "success" });
  object = object;
}

-- A client that names no bridge.
abbrev pub client_poll : ClientPollRequest
client_poll = record { offer = "{}"; nat = ""; fingerprint = Client.default_bridge_fingerprint }

abbrev pub is_client_poll : ClientPollRequest → Bool
is_client_poll r =
    str_eq r.offer client_poll.offer
    && (str_eq r.nat "" && str_eq r.fingerprint client_poll.fingerprint)

pub is_client_poll_sound : (r : ClientPollRequest) → is_client_poll r ≡ true → r ≡ client_poll
is_client_poll_sound r h = ground (
  arith,
  str_eq_iff r.offer client_poll.offer,
  str_eq_iff r.nat "",
  str_eq_iff r.fingerprint client_poll.fingerprint,
)

abbrev pub client_json : ClientJson
client_json = record {
  poll_request = single is_client_poll some client_poll;
  poll_response = record { marshal = λ r. none; unmarshal = λ b. none };
  object = object;
}

abbrev pub normal_poll : ClientPollRequest
normal_poll = record client_poll { nat = "unknown" }

-- ===== src/Messages.antt =====
-- common/messages: what clients, proxies and the broker send each other, and its JSON.
-- encoding/json is a parameter: a codec for each message, whose law is that Unmarshal reads back what
-- Marshal has written. `none` of a codec is an error of the package.
pub mod Sdp
pub mod Proxy
pub mod Client
pub mod RoundTrip
pub mod Valid
pub mod Tests
use Prim.Native.String.{String}
use snowflake.Common.{ℕ, Bool, Option, none, some, List, ◌≡◌, ◌||◌, if◌then◌else◌}
use snowflake.Common.Bytes.{Bytes}
use snowflake.Common.Text.{str_eq}

-- int64.
pub data ℤ : Type 0 where
  pos : ℕ → ℤ
  negsuc : ℕ → ℤ

pub record Codec (A B : Type 0) : Type 0 where
  pub marshal : A → Option Bytes
  pub unmarshal : Bytes → Option B

-- Unmarshal reads what Marshal has written, as `f` tells.
abbrev pub IsInverse : {A B : Type 0} → Codec A B → (A → Option B) → Type 0
IsInverse {A} c f = (a : A) (b : Bytes) → c.marshal a ≡ some b → c.unmarshal b ≡ f a

-- A member of a JSON object: a string, or another value.
pub data Value : Type 0 where
  text : String → Value
  other : Value

pub data DecodeError : Type 0 where
  bad_json unknown_version no_session_id invalid_nat invalid_data no_offer extra_info : DecodeError
  no_sid_or_answer malformed_sdp unsupported_version bad_fingerprint empty_response : DecodeError
  -- the status of a poll response that is neither a match nor none
  status : String → DecodeError

-- common/nat: the names of the NAT types.
abbrev pub nat_unknown : String
nat_unknown = "unknown"

abbrev pub nat_restricted : String
nat_restricted = "restricted"

abbrev pub nat_unrestricted : String
nat_unrestricted = "unrestricted"

-- `switch message.NAT` of both polls: the NAT type, or `none` for an invalid one.
unfoldable pub normal_nat : String → Option String
normal_nat nat =
    if str_eq nat ""
    then some nat_unknown
    else if str_eq nat nat_unknown || (str_eq nat nat_restricted || str_eq nat nat_unrestricted)
    then some nat
    else none

-- ===== src/ClientLib/Rendezvous/AmpCache/Tests.antt =====
-- A client behind an AMP cache, with hexadecimal digits in the place of base64.
use mathlib.Core.List.{append-nil}
use Prim.Native.String.{String}
use snowflake.Common.{Option, none, some, List, [], ◌∷◌, ◌++◌, ◌≡◌, refl, arith, length, leb, true}
use snowflake.Common.Bytes.{Bytes, codes, eqb, has_prefix, trim_prefix}
use snowflake.Common.GoMap
use snowflake.Common.Hex.{hex_encode, digit_hex, hex_decode, hex_decode-hex_encode}
use snowflake.Common.Stream.{HttpResponse}
use snowflake.Common.Result.{ok}
use snowflake.Messages.{normal_nat}
use snowflake.Messages.Client
use snowflake.Messages.Sdp.{deserialize_session_description}
use snowflake.Messages.Tests.{single-IsInverse, client_poll, is_client_poll, is_client_poll_sound}
use snowflake.Amp.Cache.{
  Libraries, Url, cache_url, result_host, domain_prefix, scheme_component, is_default_port,
  domain_prefix_basic, hyphenated, replaced, replace_all,
}
use snowflake.Amp.Path.{encode_path}
use snowflake.Amp.Path.Tests
use snowflake.Amp.Decoder.Tests.{tokenize, tokenize-IsTokenizer, hexadecimal, letters}
use snowflake.Broker.BridgeList.{get_bridge_info}
use snowflake.Broker.Context.{new_broker_context}
use snowflake.Broker.Ipc
use snowflake.Broker.Ipc.{answered}
use snowflake.Common.Hex
use snowflake.Amp.Path
use snowflake.Amp.Armor
use snowflake.Broker.Http.{ipc_client_offers}
use snowflake.Broker.Amp
use snowflake.Broker.Amp.{route, amp_client_offers}
use snowflake.ClientLib.Rendezvous.{negotiate}
use snowflake.ClientLib.Rendezvous.Http.{HttpRequest}
use snowflake.ClientLib.Rendezvous.Tests.{
  answer, is_the_answer, is_the_answer_sound, json, context, description,
}
use snowflake.ClientLib.Rendezvous.AmpCache.{Target, cached, target, get, exchange}
use snowflake.ClientLib.Rendezvous.AmpCache.Negotiated.{arrived, negotiate-amp_client_offers}

abbrev lib : Libraries
lib = record {
  to_unicode = λ b. some b;
  to_ascii = λ b. some b;
  base32_sum = λ b. b;
  path_escape = λ b. b;
  path_unescape = λ b. some b;
  path_join = λ parts. [];
  join_host_port = λ h p. h;
}

abbrev broker_url : Url
broker_url = record {
  scheme = codes "https";
  user = none;
  hostname = codes "a.b";
  port = [];
  escaped_path = [];
  raw_query = [];
  fragment = [];
}

abbrev cache : Url
cache = record broker_url { hostname = codes "cdn" }

abbrev resolve : Url → Bytes → Url
resolve url path = record url { escaped_path = path }

abbrev request_of : Target → Option (String × String)
request_of t = some ("a-b.cdn", "/c/s/a.b")

abbrev body : Bytes
body = b'1' ∷ b'.' ∷ b'0' ∷ 10 ∷ 1 ∷ []

abbrev pieces : Bytes → List Bytes
pieces d = hex_encode d ∷ []

abbrev document : Bytes
document =
    (amp_client_offers json hexadecimal pieces
      (ipc_client_offers json (λ e. "error") "hex" "fingerprint" "bridge" context (answered "{}"))
      (route ++ encode_path hexadecimal (7 ∷ []) body)).body

abbrev round_trip : HttpRequest → Option HttpResponse
round_trip req = some (arrived document)

abbrev the_target : Target
the_target = cached (record {
  scheme = codes "https";
  user = none;
  host = codes "a-b.cdn";
  path = [];
  raw_path = [];
  raw_query = [];
  fragment = [];
})

abbrev request : HttpRequest
request = record {
  method = "GET";
  url_host = "a-b.cdn";
  url_rest = "/c/s/a.b";
  host = "a-b.cdn";
  body = [];
}

targeted :
    target lib hexadecimal hexadecimal tokenize resolve request_of round_trip broker_url
      (some cache)
      (7 ∷ [])
      body
    ≡ some the_target
unfolding target cache_url eqb result_host domain_prefix scheme_component is_default_port
    domain_prefix_basic hyphenated replaced replace_all
targeted = refl

small : leb (length document) 100_000 ≡ true
unfolding amp_client_offers Amp.amp_reply Amp.write_armor ipc_client_offers Ipc.client_offers_start
    Ipc.client_offers_finish Ipc.send_client_response Client.encode_client_poll_response
    Client.decode_client_poll_request Client.check_client_poll_request Client.split_line
    Client.fingerprint_from_hex_string Client.fingerprint_from_bytes normal_nat
    deserialize_session_description GoMap.lookup get_bridge_info new_broker_context hex_encode
    digit_hex hex_decode Hex.hex_digit eqb has_prefix trim_prefix encode_path Path.decode_path
    Path.behind_last_slash Armor.armor Armor.armor_close Armor.element_close Armor.element_write
    Armor.emit Armor.end_chunk Armor.end_element Armor.new_armor_encoder Armor.open_element
    Armor.write Armor.write_all Armor.write_loop Armor.write_round Armor.write_within
small = refl

negotiate-amp_client_offers_example :
    negotiate json
      (λ d. some "{}")
      (exchange lib hexadecimal hexadecimal tokenize resolve request_of round_trip broker_url
        (some cache)
        []
        0
        (7 ∷ []))
      ""
      description
      ""
    ≡ ok description
unfolding Client.encode_client_poll_request Client.check_client_poll_request normal_nat eqb
    Client.fingerprint_from_hex_string Client.fingerprint_from_bytes deserialize_session_description
    GoMap.lookup hex_decode new_broker_context get_bridge_info get
negotiate-amp_client_offers_example =
    negotiate-amp_client_offers lib hexadecimal hexadecimal tokenize resolve request_of round_trip
      json (λ d. some "{}") (λ e. "error") "hex" "fingerprint" "bridge" context (answered "{}")
      pieces broker_url (some cache) [] 0 (7 ∷ []) the_target request "" "" "{}" description body
      (1 ∷ []) (single-IsInverse is_client_poll some client_poll is_client_poll_sound)
      (single-IsInverse is_the_answer some answer is_the_answer_sound)
      (record { inverse = hex_decode-hex_encode; letters = Tests.letters })
      (record { inverse = hex_decode-hex_encode; letters = letters }) tokenize-IsTokenizer
      (λ d. append-nil (hex_encode d))
      (omega arith, (omega arith, (omega arith, (omega arith, (omega arith, tt)))))
      (omega arith, tt) refl refl refl targeted refl refl (ground (arith, small))

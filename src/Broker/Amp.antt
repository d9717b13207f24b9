-- ===== src/Broker/Amp.antt =====
-- broker/amp.go: the endpoint for clients behind an AMP cache, around ClientOffers of broker/ipc.go.
-- `path_encoding` and `armor_encoding` are the two encodings of encoding/base64, `pieces` the pieces in which the encoder
-- of the second hands its text on. The response writer takes everything; its headers are left out.
pub mod Served
mod Tests
use snowflake.Common.{Bool, none, List, [], if◌then◌else◌}
use snowflake.Common.Bytes.{Bytes, codes, eqb, trim_prefix}
use snowflake.Common.Result.{Result, ok, err}
use snowflake.Amp.{Encoding}
use snowflake.Amp.Path.{decode_path}
use snowflake.Amp.Armor.{armor}
use snowflake.Messages.Client.{ClientJson}
use snowflake.Broker.Ipc.{Reply, client_error}
use snowflake.Broker.Http.{Response, only_status, ok_response}

abbrev pub route : Bytes
route = codes "/amp/client/"

unfoldable pub amp_reply :
    ClientJson → (path_encoding : Encoding) → (ipc : Bytes → Reply) → (path : Bytes) → Reply
amp_reply json path_encoding ipc path = elim (decode_path path_encoding path) [
  | ok enc_poll_req ↦ ipc enc_poll_req
  | err e ↦ client_error json "cannot decode URL path"
]

unfoldable pub write_armor : (pieces : Bytes → List Bytes) → Reply → Response
write_armor pieces (err e) = only_status 500
write_armor pieces (ok response) =
    ok_response (armor (record { written = []; room = none }) (pieces response)).1.written

unfoldable pub amp_client_offers :
    ClientJson
    → (path_encoding : Encoding) → (pieces : Bytes → List Bytes) → (ipc : Bytes → Reply)
    → (url_path : Bytes) → Response
unfolding amp_reply write_armor
amp_client_offers json path_encoding pieces ipc url_path =
    let path = trim_prefix url_path route in
    if eqb path url_path
    then only_status 500
    else write_armor pieces (amp_reply json path_encoding ipc path)

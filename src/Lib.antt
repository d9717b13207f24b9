-- ===== src/Lib.antt =====
-- Snowflake is a pluggable transport: a client (client/) asks the broker (broker/) for a volunteer
-- proxy (proxy/), the offer of the client and the answer of the proxy pass through the broker, and the
-- proxy then relays the client's traffic to a server (server/). Go is modelled by functions: a pointer is
-- a number, an error a value, a panic `none`, and memory is passed on. Mutexes make their sections
-- single steps.
--
-- The parts, and the files that model them:
-- - ContainerHeap: package container/heap of Go's library over an interface of operations, with the laws
--   that an implementation fills in (HeapModel) and the theorems that its clients use. The fuel of `up` is
--   one more than the place it starts at, that of `down` one more than the length of the heap; each round
--   halves or doubles a place.
-- - Broker.SnowflakeHeap: broker/snowflake-heap.go. The memory of a pool maps pointers to snowflakes, and
--   `next` is the first pointer that is free. Pool has the theorems of Push, Pop and Remove, Held those of
--   snowflakes that have left the heap.
-- - Broker.BridgeList: broker/bridge-list.go, with the line scanner and the JSON decoder as parameters.
-- - Broker.Context: BrokerContext of broker/broker.go and what the handlers of broker/ipc.go do to it:
--   push_poll, register, remove_snowflake and forget_id are the parts of Broker between its locks,
--   match_snowflake is matchSnowflake.
-- - Broker.Exchange: calls of ProxyPolls, ClientOffers and ProxyAnswers and the goroutines of Broker, as a
--   step relation on the context and the phase of each call. Sound has the invariants, Stuck and Unheard
--   the sends that nobody receives. The contents of the messages, the metrics
--   and the times are left out; a timer may fire at any time.
-- - Broker.Ipc: what ProxyPolls, ClientOffers and ProxyAnswers decide and answer, each split at the point
--   where it blocks. Metrics and logs are left out; the texts of errors of other packages are parameters.
-- - Broker.Http: broker/http.go: the handlers of the endpoints, with the methods of broker/ipc.go as
--   arguments. Legacy has the answers to clients that send an offer alone, Offers and Polls the
--   responses to the offers of clients and the polls of proxies.
-- - Broker.Amp: broker/amp.go, on Amp.Path, Amp.Armor and Amp.Decoder.
-- - Messages: common/messages/proxy.go and client.go, DeserializeSessionDescription of common/util/util.go
--   and common/bridgefingerprint/fingerprint.go. encoding/json is a record of codecs, whose law is that
--   a value is read as it was written.
-- - ClientLib.Peers: client/lib/peers.go; what the tongue catches, which peers close, and when a call that waits for the
--   lock or at the channel goes on are events.
-- - ClientLib.Rendezvous: Negotiate of client/lib/rendezvous.go over any rendezvous method. Http is
--   client/lib/rendezvous_http.go, AmpCache client/lib/rendezvous_ampcache.go; both have the transport
--   and net/url as parameters, and both have a module Negotiated, where the transport is the handler of
--   the broker. NatPolicy has the NAT types, with connect of client/lib/webrtc.go.
-- - ProxyLib.Signaling: the messages of proxy/lib/snowflake.go to the broker. In Polled and Answered the
--   transport is the handler of the broker.
-- - ProxyLib.Session: the loop of Start, runSession and the handlers of data channels in
--   proxy/lib/snowflake.go, as a step relation on the sessions and the number of tokens. Decisions has
--   what is made of a poll response.
-- - ProxyLib.RelayUrl: checkIsRelayURLAcceptable of proxy/lib/snowflake.go and IsLocal of
--   common/util/util.go, with url.Parse and net.ParseIP as parameters. Accepts also joins the check with
--   the one of the broker.
-- - Encapsulation: common/encapsulation/encapsulation.go, over finite streams of bytes, and writers that
--   fail after a number of bytes. The fuel of ReadData is one more than the length of the stream, since
--   each round takes a byte; that of WritePadding has the length of the padding.
-- - NameMatcher: common/namematcher/matcher.go, over byte strings.
-- - ServerLib.Http: server/lib/http.go from the WebSocket stream to the queue of packets, with the writer
--   of client/lib/turbotunnel.go. The fuel of the read loop is one more than the length of the stream:
--   each round takes a byte.
-- - ServerLib.ClientIdMap: the map of server/lib/turbotunnel.go from client ids to addresses.
-- - Task.Backoff: common/task/backoff.go, whose timer is the interval that it was armed with.
-- - Amp: common/amp: Amp.Cache is cache.go, with net/url, IDNA and SHA-256 as parameters, Amp.Path is path.go, Amp.Armor armor_encoder.go, Amp.Decoder armor_decoder.go, with
--   base64 and the tokenizer of golang.org/x/net/html as parameters. The fuel of Write is the length of
--   what it writes, that of the scanner the length of the text: each round takes a byte.
-- - Turbotunnel.ClientMap: common/turbotunnel/clientmap.go, on ContainerHeap. A channel is a number. Search
--   has the map from addresses to records that the heap and its index stand for.
-- - Turbotunnel.QueuePacketConn: common/turbotunnel/queuepacketconn.go, on the client map, as events that
--   follow each other. Runs has the theorems on sequences of calls.
-- - Common: byte strings, streams with limitedRead, hexadecimal digits, Go maps as association lists, results, and lists measured by
--   native numbers.
--
-- Not modelled: the copy of pion/dtls in dtls/, network and file I/O, WebRTC, metrics, command lines,
-- common/task/periodic.go (from v2ray), the SQS rendezvous, and the rest of common/, proxy/, client/
-- and server/.
pub mod Amp
pub mod Broker
pub mod ClientLib
pub mod Common
pub mod ContainerHeap
pub mod Encapsulation
pub mod Messages
pub mod NameMatcher
pub mod ProxyLib
pub mod ServerLib
pub mod Task
pub mod Turbotunnel

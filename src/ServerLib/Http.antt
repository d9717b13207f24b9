-- ===== src/ServerLib/Http.antt =====
-- server/lib/http.go: what the server does with a WebSocket stream, and encapsulationPacketConn of
-- client/lib/turbotunnel.go, which writes it. A stream is the bytes that it gives before its end. The bufio.Writer with
-- its Flush is the writer behind it. The write loop, which shares only the queues with the read loop, is left out.
pub mod Unkeyed
pub mod Delivered
mod Tests
use snowflake.Common.{
  ℕ, zero, suc, ◌+◌, ◌*◌, ◌%◌, Option, none, some, List, [], ◌∷◌, ◌++◌, length, take, drop,
  get_elem?, leb, ltb, if◌then◌else◌,
}
use snowflake.Common.Bytes.{Bytes, eqb}
use snowflake.Encapsulation.{
  Error, short_buffer, ReadResult, Writer, Written, write_data, read_data,
}
use snowflake.Turbotunnel.QueuePacketConn.{QueuePacketConn, queue_incoming}

-- turbotunnel.Token
abbrev pub token : Bytes
token = 0x12 ∷ 0x93 ∷ 0x60 ∷ 0x5d ∷ 0x27 ∷ 0x81 ∷ 0x75 ∷ 0xf5 ∷ []

abbrev pub little_endian : Bytes → ℕ
little_endian [] = 0
little_endian (b ∷ bs) = b + 256 * little_endian bs

-- The first eight bytes, in binary.LittleEndian.Uint64.
abbrev pub uint64 : Bytes → ℕ
uint64 s = little_endian (take 8 s)

-- `mac` is the HMAC of a key and of what was written to it. Sum appends it to its argument, and nothing was written.
unfoldable pub lookup_packet_conn :
    {A : Type 0}
    → (mac : (key message : Bytes) → Bytes) → (pconns : List A)
    → (client_id_lookup_key client_id : Bytes) → Option A
lookup_packet_conn mac pconns client_id_lookup_key client_id =
    let s = client_id ++ mac client_id_lookup_key [] in get_elem? pconns (uint64 s % length pconns)

-- ReadFrom and the read loop of the server: a short buffer is no error.
abbrev pub ignore_short : Option Error → Option Error
ignore_short none = none
ignore_short (some short_buffer) = none
ignore_short (some e) = some e

-- What WriteTo returns of what WriteData has written.
unfoldable pub write_result : (n : ℕ) → Written → ℕ × Option Error × Writer
write_result n s = elim s.error [ none ↦ (n, none, s.writer) | some e ↦ (0, some e, s.writer) ]

-- WriteTo: the number of bytes, the error, and the stream behind it.
unfoldable pub write_to : Writer → Bytes → ℕ × Option Error × Writer
unfolding write_result
write_to w p = write_result (length p) (write_data w p)

-- io.ReadFull of n bytes, and the rest.
unfoldable pub read_full : ℕ → Bytes → Option (Bytes × Bytes)
read_full n r = if leb n (length r) then some (take n r, drop n r) else none

-- The read loop of turbotunnelMode on one connection; `picks` are the buffers that the pool hands out. `none` is the
-- fuel running out.
unfoldable pub read_loop :
    (fuel : ℕ)
    → QueuePacketConn
    → (picks : ℕ → ℕ) → (client_id : Bytes) → Bytes
    → Option QueuePacketConn
read_loop zero c picks client_id r = none
read_loop (suc f) c picks client_id r = elim (read_data r 2048) [
  | none ↦ none
  | some x ↦ elim (ignore_short x.error) [
    | some e ↦ some c
    | none ↦
        read_loop f (queue_incoming c (picks 0) x.chunk client_id) (λ i. picks (suc i)) client_id
          x.rest
  ]
]

-- ServeHTTP behind the upgrade, and turbotunnelMode up to its loops: the client id and the bytes behind it.
unfoldable pub accept : Bytes → Option (Bytes × Bytes)
unfolding read_full
accept r = elim (read_full 8 r) [
  | none ↦ none
  | some (t, behind) ↦ if eqb t token then read_full 8 behind else none
]

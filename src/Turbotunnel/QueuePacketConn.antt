-- ===== src/Turbotunnel/QueuePacketConn.antt =====
-- common/turbotunnel/queuepacketconn.go: a packet connection made of queues.
-- The pool of buffers counts the buffers of each capacity: which one sync.Pool hands out, or that it makes a new one,
-- is the argument `pick`. The contents of a buffer are a value, so nothing is said of a caller who writes to a buffer
-- that it has restored. `outgoing` has what is in the channels of the client map. A method is one step, but for
-- ReadFrom, whose second select is `read_select`. `none` is a panic.
pub mod Steps
mod Reads
mod Calls
pub mod Runs
mod Tests
use snowflake.Common.{
  ℕ, suc, ◌+◌, ◌-◌, Bool, true, false, Option, none, some, List, [], ◌∷◌, ◌++◌, length, take, min,
  ltb, leb, ◌==◌, ◌&&◌, if◌then◌else◌,
}
use snowflake.Common.Bytes.{Bytes}
use snowflake.ContainerHeap.{◌>>=◌}
use snowflake.Turbotunnel.ClientMap.{ClientMapInner, new_client_map, send_queue, remove_expired}

pub data PacketError : Type 0 where
  closed_packet_conn : PacketError
  other_error : ℕ → PacketError

pub data Op : Type 0 where
  read write close : Op

-- net.OpError; the network and the address are those of the connection.
pub record OpError : Type 0 where
  pub op : Op
  pub addr : Bytes
  pub err : PacketError

pub record Buffer : Type 0 where
  pub bytes : Bytes
  pub cap : ℕ

pub record TaggedPacket : Type 0 where
  pub p : Buffer
  pub addr : Bytes

pub record QueuePacketConn : Type 0 where
  pub clients : ClientMapInner
  pub outgoing : ℕ → List Buffer
  pub local_addr : Bytes
  pub recv_queue : List TaggedPacket
  pub close_once : Bool
  pub closed : Bool
  pub mtu : ℕ
  pub buf_pool : ℕ → ℕ
  pub err : Option PacketError

abbrev pub queue_size : ℕ
queue_size = 512

unfoldable pub new_queue_packet_conn : (local_addr : Bytes) (mtu : ℕ) → QueuePacketConn
new_queue_packet_conn local_addr mtu = record {
  clients = new_client_map;
  outgoing = λ q. [];
  local_addr = local_addr;
  recv_queue = [];
  close_once = false;
  closed = false;
  mtu = mtu;
  buf_pool = λ k. 0;
  err = none;
}

-- Get of the pool: the capacity of the buffer.
unfoldable pub get_buffer : QueuePacketConn → (pick : ℕ) → ℕ × QueuePacketConn
get_buffer c pick =
    if ltb 0 (c.buf_pool pick)
    then (
      pick,
      record c { buf_pool = λ k. if k == pick then c.buf_pool pick - 1 else c.buf_pool k },
    )
    else (c.mtu, c)

unfoldable pub restore : QueuePacketConn → (cap : ℕ) → QueuePacketConn
restore c cap =
    if leb c.mtu cap
    then record c { buf_pool = λ k. if k == cap then suc (c.buf_pool cap) else c.buf_pool k }
    else c

unfoldable pub copy_packet : (cap : ℕ) → Bytes → Buffer
copy_packet cap p = record {
  bytes = if ltb (length p) cap then take (length p) p else take cap p;
  cap = cap;
}

unfoldable pub queue_incoming :
    QueuePacketConn → (pick : ℕ) → Bytes → (addr : Bytes) → QueuePacketConn
unfolding get_buffer restore
queue_incoming c pick p addr =
    if c.closed
    then c
    else (let (cap, c') = get_buffer c pick in
        if ltb (length c'.recv_queue) queue_size
        then record c' {
          recv_queue = c'.recv_queue ++ record { p = copy_packet cap p; addr = addr } ∷ [];
        }
        else restore c' cap)

unfoldable pub op_error : QueuePacketConn → Op → Option OpError
op_error c op = c.err >>= λ e. some (record { op = op; addr = c.local_addr; err = e })

pub data ReadResult : Type 0 where
  returned : (n : ℕ) (bytes addr : Bytes) → ReadResult
  read_failed : OpError → ReadResult
  -- nothing to read yet
  waiting : ReadResult

-- The second select of ReadFrom into a slice of n bytes; `pick` chooses if the connection is closed and there is a
-- packet.
unfoldable pub read_queue :
    QueuePacketConn
    → (n : ℕ) → (pick : Bool) → (queue : List TaggedPacket) → Option (ReadResult × QueuePacketConn)
unfolding restore op_error
read_queue c n pick [] =
    if c.closed then (op_error c read >>= λ e. some (read_failed e, c)) else some (waiting, c)
read_queue c n pick (packet ∷ rest) =
    if c.closed && pick
    then (op_error c read >>= λ e. some (read_failed e, c))
    else (let copied = min n (length packet.p.bytes) in
        some (
          returned copied (take copied packet.p.bytes) packet.addr,
          restore (record c { recv_queue = rest }) packet.p.cap,
        ))

unfoldable pub read_select :
    QueuePacketConn → (n : ℕ) → (pick : Bool) → Option (ReadResult × QueuePacketConn)
unfolding read_queue
read_select c n pick = read_queue c n pick c.recv_queue

unfoldable pub read_from :
    QueuePacketConn → (n : ℕ) → (pick : Bool) → Option (ReadResult × QueuePacketConn)
unfolding read_select op_error
read_from c n pick =
    if c.closed then (op_error c read >>= λ e. some (read_failed e, c)) else read_select c n pick

pub data WriteResult : Type 0 where
  written : ℕ → WriteResult
  write_failed : OpError → WriteResult

-- A send on a closed channel is a panic.
unfoldable pub send_packet :
    QueuePacketConn → (queue : ℕ) → (p : Bytes) → (cap : ℕ) → Option (WriteResult × QueuePacketConn)
unfolding restore copy_packet
send_packet c queue p cap =
    if c.clients.closed queue
    then none
    else (let buf = copy_packet cap p in
        if ltb (length (c.outgoing queue)) queue_size
        then some (
          written (length buf.bytes),
          record c {
            outgoing = λ q. if q == queue then c.outgoing queue ++ buf ∷ [] else c.outgoing q;
          },
        )
        else some (written (length p), restore c cap))

unfoldable pub write_to :
    QueuePacketConn
    → (pick : ℕ) → Bytes
    → (addr : Bytes) → (now : ℕ) → Option (WriteResult × QueuePacketConn)
unfolding get_buffer send_packet op_error
write_to c pick p addr now =
    if c.closed
    then (op_error c write >>= λ e. some (write_failed e, c))
    else (let (cap, c') = get_buffer c pick in
        send_queue c'.clients addr now >>= λ (queue, clients).
        send_packet (record c' { clients = clients }) queue p cap)

unfoldable pub outgoing_queue :
    QueuePacketConn → (addr : Bytes) → (now : ℕ) → Option (ℕ × QueuePacketConn)
outgoing_queue c addr now = send_queue c.clients addr now >>= λ (queue, clients).
    some (queue, record c { clients = clients })

-- A nil error is `none`.
abbrev pub kept_error : Option PacketError → PacketError
kept_error none = closed_packet_conn
kept_error (some e) = e

unfoldable pub close_with_error :
    QueuePacketConn → Option PacketError → Option (Option OpError × QueuePacketConn)
unfolding op_error
close_with_error c err =
    if c.close_once
    then (op_error c close >>= λ e. some (some e, c))
    else (if c.closed
        then none
        else some
            (none, record c { close_once = true; err = some (kept_error err); closed = true }))

-- What the goroutine of the client map does at a time.
unfoldable pub expire : QueuePacketConn → (now timeout : ℕ) → Option QueuePacketConn
expire c now timeout =
    remove_expired c.clients now timeout >>= λ clients. some (record c { clients = clients })

-- A receive from the channel of OutgoingQueue, by its user.
unfoldable pub receive : QueuePacketConn → (queue : ℕ) → QueuePacketConn
receive c queue = elim (c.outgoing queue) [
  | [] ↦ c
  | buf ∷ rest ↦ record c { outgoing = λ q. if q == queue then rest else c.outgoing q }
]

-- The methods as events, with the arguments of the calls.
pub data Event : Type 0 where
  incoming : (pick : ℕ) (p addr : Bytes) → Event
  reading selecting : (n : ℕ) (pick : Bool) → Event
  writing : (pick : ℕ) (p addr : Bytes) (now : ℕ) → Event
  opening : (addr : Bytes) (now : ℕ) → Event
  restoring : (cap : ℕ) → Event
  closing : Option PacketError → Event
  expiring : (now timeout : ℕ) → Event
  receiving : (queue : ℕ) → Event

pub data Result : Type 0 where
  done : Result
  was_read : ReadResult → Result
  was_written : WriteResult → Result
  queue_is : ℕ → Result
  was_closed : Option OpError → Result

unfoldable pub step : QueuePacketConn → Event → Option (Result × QueuePacketConn)
unfolding queue_incoming read_from read_select write_to outgoing_queue restore close_with_error
    expire receive
step c (incoming pick p addr) = some (done, queue_incoming c pick p addr)
step c (reading n pick) = read_from c n pick >>= λ (r, c'). some (was_read r, c')
step c (selecting n pick) = read_select c n pick >>= λ (r, c'). some (was_read r, c')
step c (writing pick p addr now) =
    write_to c pick p addr now >>= λ (r, c'). some (was_written r, c')
step c (opening addr now) = outgoing_queue c addr now >>= λ (q, c'). some (queue_is q, c')
step c (restoring cap) = some (done, restore c cap)
step c (closing err) = close_with_error c err >>= λ (r, c'). some (was_closed r, c')
step c (expiring now timeout) = expire c now timeout >>= λ c'. some (done, c')
step c (receiving queue) = some (done, receive c queue)

-- A run and the results of its calls.
unfoldable pub run : QueuePacketConn → List Event → Option (List Result × QueuePacketConn)
unfolding step
run c [] = some ([], c)
run c (e ∷ es) = step c e >>= λ (r, c'). run c' es >>= λ (rs, c''). some (r ∷ rs, c'')

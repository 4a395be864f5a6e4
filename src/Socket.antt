-- ===== src/Socket.antt =====
-- The socket interface of src/socket.cc over the kernel. A function that waits is split there: what
-- it does before the wait, the test that it waits for, and what it does afterwards. What it sends is
-- the Reply with which it calls sendTCPPacket. `none` is an access outside of a map or a buffer: a
-- descriptor without a socket reads past the end of the map. `tmp` is the byte that a packet without
-- data carries, which the code does not set.
pub mod Descriptors
pub mod Open
pub mod Wait
pub mod Write
pub mod Close
pub mod Race
pub mod Traffic
pub mod Intact
pub mod Stream
mod Tests
use i_tcp.Common.{
  ℕ, zero, suc, ◌+◌, ◌-◌, ◌^◌, Bool, true, false, ◌&&◌, Option, none, some, List, [], ◌∷◌, ◌==◌,
  if◌then◌else◌, ◌>>=◌, ◌>>◌, guard, ltb, leb, length,
}
use i_tcp.Word.{set_syn, set_fin, le16, le32, u32}
use i_tcp.Dict.{find, insert, assign, nat_ordered}
use i_tcp.Queue.{new}
use i_tcp.Packet.{memcpy}
use i_tcp.Ip.Arp.{memcmp_eq}
use i_tcp.Tcp.Types.{
  Status, closed, listen, syn_sent, fin_wait1, time_wait, Role, client, server, MySocket, Tuple4,
  Reply, copy_out, set_status,
}
use i_tcp.Tcp.Data.{is_server, my_read, my_write}
use i_tcp.Tcp.Kernel.{Kernel}
use i_tcp.Tcp.Sockets.{socket_create, socket_bind, socket_listen}

-- The socket of a descriptor with another in its place.
abbrev pub put_socket : Kernel → ℕ → MySocket → Kernel
put_socket k fd s = record k { socket_set = assign fd s k.socket_set }

-- A packet of this side of the connection without data.
abbrev pub signal : MySocket → ℕ → ℕ → Reply
signal s tmp flag = record { buf = tmp ∷ []; info = s.address; seq = 0; ack = 0; flag = flag }

-- __wrap_socket, __wrap_bind, __wrap_listen. `false` is the return value -1.
unfoldable pub wrap_socket : Kernel → ℕ → Tuple4 → Bool → ℕ × Kernel
wrap_socket k type address acc_ack_ready = socket_create k type address acc_ack_ready

unfoldable pub wrap_bind : Kernel → ℕ → Tuple4 → Bool × Kernel
wrap_bind k socket address = socket_bind k socket address

unfoldable pub wrap_listen : Kernel → ℕ → ℕ → Option (Bool × Kernel)
wrap_listen k socket backlog =
    if backlog == 1 then (socket_listen k socket >>= λ k'. some (true, k')) else some (false, k)

-- __wrap_connect up to its wait, on its socket.
abbrev pub connecting : MySocket → Tuple4 → MySocket
connecting s address = record s {
  tcb = record { role = client; status = syn_sent };
  address = address;
}

unfoldable pub connect_start : Kernel → ℕ → Tuple4 → ℕ → Option (Kernel × Reply)
connect_start k socket address tmp = do
  s ← find socket k.socket_set
  some (put_socket k socket (connecting s address), signal (connecting s address) tmp (set_syn 0))

abbrev pub connect_returns : MySocket → Bool
connect_returns s = s.conn_ready

-- The loop of __wrap_accept for a descriptor, with as many left as the first number.
unfoldable pub free_from : ℕ → ℕ → Kernel → ℕ
free_from zero connfd k = connfd
free_from (suc left) connfd k =
    let further = free_from left (connfd + 1) k in
    elim (find connfd k.socket_set) [ some _ ↦ further | none ↦ connfd ]

-- The copy constructor that takes a pointer.
abbrev pub copy_socket : MySocket → MySocket
copy_socket cp = record {
  databuf = cp.databuf;
  readp = cp.readp;
  writep = cp.writep;
  sizep = cp.sizep;
  role = cp.role;
  type = cp.type;
  address = cp.address;
  tcb = record { role = cp.tcb.role; status = cp.tcb.status };
  conn_ready = cp.conn_ready;
  acc_syn_ready = cp.acc_syn_ready;
  acc_ack_ready = cp.acc_ack_ready;
}

-- __wrap_accept up to its first wait: a copy of the socket listens in its place.
unfoldable pub accept_start : Kernel → ℕ → Option (ℕ × Kernel)
accept_start k socket = do
  s ← find socket k.socket_set
  let connfd = free_from 100 100 k
  let sockets = insert connfd (copy_socket s) k.socket_set
  let queues = insert connfd (new 2000 []) k.socket_queue
  old ← find socket sockets
  let sockets = assign socket (set_status old closed) sockets
  it ← find connfd sockets
  some (
    connfd,
    record k { socket_queue = queues; socket_set = assign connfd (set_status it listen) sockets },
  )

-- Both waits: the second one is over at once if the acknowledgement has come already.
abbrev pub accept_returns : MySocket → Bool
accept_returns s = s.acc_syn_ready && s.acc_ack_ready

-- After the waits: the old socket listens again.
unfoldable pub accept_finish : Kernel → ℕ → Option Kernel
accept_finish k socket = do
  old ← find socket k.socket_set
  some (put_socket k socket (set_status old listen))

-- __wrap_read; a wait of myread is `none` too. Its `len` is an int: of `nbyte` it has 32 bits, and a
-- negative one makes memcpy leave the buffer.
unfoldable pub wrap_read : Kernel → ℕ → ℕ → Option (List ℕ × Kernel)
wrap_read k fildes nbyte = do
  s ← find fildes k.socket_set
  guard (ltb (u32 nbyte) (2 ^ 31))
  (bytes, s') ← my_read s (u32 nbyte)
  some (bytes, put_socket k fildes s')

-- __wrap_write between its two calls of mutexes: the first packet, with at most 1000 bytes. Where an
-- acknowledgement has moved writep past sizep, Len is negative.
unfoldable pub send_first : MySocket → Option (MySocket × Reply)
send_first s = do
  guard (leb s.writep s.sizep)
  let len = if ltb s.sizep (s.writep + 1000) then s.sizep - s.writep else 1000
  bytes ← copy_out s.databuf s.writep len
  some (
    record s { writep = s.writep + len },
    record { buf = bytes; info = s.address; seq = s.writep; ack = 0; flag = 0 },
  )

-- __wrap_write up to its wait, where no packet is handled between mywrite and the first packet.
unfoldable pub write_start : Kernel → ℕ → List ℕ → Option (Kernel × Reply)
unfolding send_first
write_start k fildes buf = do
  s ← find fildes k.socket_set
  s' ← my_write s buf
  (s'', r) ← send_first s'
  some (put_socket k fildes s'', r)

abbrev pub write_returns : MySocket → Bool
write_returns s = s.writep == s.sizep

-- __wrap_close up to its wait: nothing on a server; a FIN, and then the state, on any other socket.
-- close_send and close_mark are what the two do with the socket.
unfoldable pub close_send : MySocket → ℕ → Option Reply
close_send s tmp = if is_server s.tcb.role then none else some (signal s tmp (set_fin 0))

unfoldable pub close_mark : MySocket → MySocket
close_mark s = if is_server s.tcb.role then s else set_status s fin_wait1

-- The two halves on a descriptor. No mutex is held, so packets may be handled between them.
unfoldable pub close_start : Kernel → ℕ → ℕ → Option (Option Reply)
unfolding close_send
close_start k fildes tmp = do s ← find fildes k.socket_set; some (close_send s tmp)

unfoldable pub close_set : Kernel → ℕ → Option Kernel
unfolding close_mark
close_set k fildes = do s ← find fildes k.socket_set; some (put_socket k fildes (close_mark s))

abbrev pub is_closed : Status → Bool
is_closed closed = true
is_closed _ = false

abbrev pub is_time_wait : Status → Bool
is_time_wait time_wait = true
is_time_wait _ = false

abbrev pub close_returns : MySocket → Bool
close_returns s = if is_server s.tcb.role then is_closed s.tcb.status else is_time_wait s.tcb.status

-- __wrap_getaddrinfo compares with the first socket of the map only. The result is what it puts into
-- `res`; it returns 0 in any case.
unfoldable pub wrap_getaddrinfo : Kernel → List ℕ → List ℕ → Option (Option Tuple4)
wrap_getaddrinfo k node service = elim k.socket_set [
  | [] ↦ none
  | (_, s) ∷ _ ↦ (do
    port ← memcpy service 0 2
    ip ← memcpy node 0 4
    some (
        if memcmp_eq (le16 s.address.src_port) port && memcmp_eq (le32 s.address.src_ip) ip
        then some s.address
        else none))
]

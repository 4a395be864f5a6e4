-- ===== src/Tcp/Kernel.antt =====
-- From recvIPPacket (src/tcp.cc), which finds the socket of a packet and queues it, to
-- processIPPacket (src/daemon.cc), which takes it from there and calls readIPPacket. The queued pair
-- of pointer and length is the packet's bytes. `none` is a wait on a full or empty queue or an access
-- outside of a buffer or map.
use i_tcp.Common.{
  ℕ, Bool, true, false, not, ◌&&◌, Option, none, some, List, [], ◌∷◌, ◌==◌, if◌then◌else◌, ◌>>=◌,
  ◌>>◌, guard, leb, length,
}
use i_tcp.Word.{is_syn, is_ack}
use i_tcp.Dict.{find, assign, nat_ordered}
use i_tcp.Queue.{BlockingQueue, push, pop}
use i_tcp.Packet.{read_ip_hdr, read_tcp_hdr}
use i_tcp.Tcp.Types.{Status, listen, MySocket, Tuple4, Reply, back}
use i_tcp.Tcp.Wire.{parse_packet}
use i_tcp.Tcp.Handler.{handle}

-- The members of iTCP_kernel_t for sockets.
pub record Kernel : Type 0 where
  pub un_solved_socket : BlockingQueue ℕ  -- unSolvedSocket
  pub socket_queue : List (ℕ × BlockingQueue (List ℕ))
  pub socket_set : List (ℕ × MySocket)

-- What recvIPPacket reads of a packet: `info` and `flag`.
unfoldable pub read_info : List ℕ → Option (Tuple4 × ℕ)
read_info buf = do
  (ip_hdr, ip_payload) ← read_ip_hdr buf
  (tcp_hdr, tcp_payload) ← read_tcp_hdr ip_payload
  some (
    record {
      src_ip = ip_hdr.src;
      dst_ip = ip_hdr.dst;
      src_port = tcp_hdr.src_port;
      dst_port = tcp_hdr.dst_port;
    },
    tcp_hdr.flag,
  )

abbrev pub is_listen : Status → Bool
is_listen listen = true
is_listen _ = false

-- The loop for a SYN, with the memcpy behind it: the first socket that listens at the destination
-- gets the packet's addresses. With no such socket, `it` is end() there.
unfoldable pub find_listener : List (ℕ × MySocket) → Tuple4 → Option (ℕ × List (ℕ × MySocket))
find_listener [] info = none
find_listener ((fd, s) ∷ it) info =
    let rest = find_listener it info in
    if is_listen s.tcb.status
      && (s.address.src_ip == info.dst_ip && s.address.src_port == info.dst_port)
    then some (fd, (fd, record s { address = back info }) ∷ it)
    else (rest >>= λ r. some (r.0, (fd, s) ∷ r.1))

-- memcmp of two tuples.
abbrev pub same_tuple : Tuple4 → Tuple4 → Bool
same_tuple a b =
    a.src_ip == b.src_ip
    && (a.dst_ip == b.dst_ip && (a.src_port == b.src_port && a.dst_port == b.dst_port))

-- The loop for any other packet; 100 is the value that connfd starts with.
unfoldable pub find_connected : List (ℕ × MySocket) → Tuple4 → ℕ
find_connected [] info = 100
find_connected ((fd, s) ∷ it) info =
    let rest = find_connected it info in if same_tuple s.address (back info) then fd else rest

unfoldable pub choose : List (ℕ × MySocket) → Tuple4 → ℕ → Option (ℕ × List (ℕ × MySocket))
unfolding find_listener find_connected
choose sockets info flag =
    if is_syn flag && not (is_ack flag)
    then find_listener sockets info
    else some (find_connected sockets info, sockets)

unfoldable pub recv_ip_packet : Kernel → List ℕ → Option (ℕ × Kernel)
unfolding read_info choose
recv_ip_packet k buf = do
  (info, flag) ← read_info buf
  (connfd, sockets) ← choose k.socket_set info flag
  guard (leb (length buf) 2000)
  queue ← find connfd k.socket_queue
  queue' ← push queue buf
  un_solved ← push k.un_solved_socket connfd
  some (
    connfd,
    record {
      un_solved_socket = un_solved;
      socket_queue = assign connfd queue' k.socket_queue;
      socket_set = sockets;
    },
  )

unfoldable pub read_ip_packet : Kernel → ℕ → ℕ → Option (Kernel × List Reply)
read_ip_packet k fd tmp = do
  queue ← find fd k.socket_queue
  (buf, queue') ← pop queue
  g ← parse_packet buf
  s ← find fd k.socket_set
  (s', out) ← handle s g tmp
  some (
    record k {
      socket_queue = assign fd queue' k.socket_queue;
      socket_set = assign fd s' k.socket_set;
    },
    out,
  )

-- One round of the loop of processIPPacket.
unfoldable pub process_ip_packet : Kernel → ℕ → Option (Kernel × List Reply)
unfolding read_ip_packet
process_ip_packet k tmp = do
  (fd, un_solved) ← pop k.un_solved_socket
  read_ip_packet (record k { un_solved_socket = un_solved }) fd tmp

-- ===== src/Program/Session.antt =====
-- The two programs open their connection.
use i_tcp.Common.{ℕ, ◌<◌, ◌≡◌, refl, Bool, true, some, List, [], ◌∷◌, length, ◌⊎◌}
use i_tcp.Word.{set_syn, is_syn, is_ack, ptr2ip_t, h2n}
use i_tcp.Queue.{new}
use i_tcp.Dict.{find, insert, assign, nat_ordered}
use i_tcp.Device.{Device}
use i_tcp.Tcp.Types.{closed, MySocket, Tuple4, Reply, back, set_status}
use i_tcp.Tcp.Sockets.{sock_stream, new_socket, bind, socket_create, create_from, socket_bind}
use i_tcp.Tcp.Kernel.{Kernel, choose, find_listener}
use i_tcp.Tcp.Wire.{segment_of}
use i_tcp.Tcp.Peers.{Peers, Delivery, deliver_all, Proceeds}
use i_tcp.Tcp.Transfer.{Delivered}
use i_tcp.Socket.{
  connect_returns, accept_returns, wrap_socket, wrap_bind, connect_start, accept_start, free_from,
}
use i_tcp.Socket.Open.{dial, open_lem}
use i_tcp.Daemon.{booted}
use i_tcp.Program.{sender_address, sender_work, recver_work}

-- The sender's address, with 10.100.2.1 and 10.100.2.2 as the host reads them, and port 10000 in the
-- byte order of the network.
abbrev pub to_recver : Tuple4
to_recver = record {
  src_ip = 0x102_640a;
  dst_ip = 0x202_640a;
  src_port = 0x1027;
  dst_port = 0x1027;
}

module _ (unset unset' sock : Tuple4) (ready ready' : Bool) (tmp : ℕ) where
  -- The receiver's socket, bound to its own half of the address.
  abbrev pub answering : MySocket
  answering =
      (bind (new_socket sock_stream unset' ready')
        (record sock { src_ip = to_recver.dst_ip; src_port = to_recver.dst_port })).1

  -- The two sockets when both programs wait.
  abbrev pub talk : Peers
  talk = dial (new_socket sock_stream unset ready) answering to_recver tmp

-- From the start of both programs on: the sender's socket is 100, the receiver's connection is 101,
-- and the receiver would hand the sender's SYN to 101 and to no other socket. After any deliveries, of
-- whatever packets in whatever order, either fewer than three were made and a further one is possible
-- without fault, or exactly three were made; then __wrap_connect and __wrap_accept return in the two
-- programs, and the connection is established with an empty stream.
pub session :
    (devices devices' : List Device) (unset unset' sock : Tuple4) (ready ready' : Bool) (tmp : ℕ)
    (ds : List Delivery) {p' : Peers}
    → deliver_all (talk unset unset' sock ready ready' tmp) ds ≡ some p'
    → (k₁ k₂ : Kernel) × (r : Reply) × (sender_work (booted devices).kernel unset ready tmp
        ≡ some (100, k₁, r))
      × (find 100 k₁.socket_set ≡ some (talk unset unset' sock ready ready' tmp).client)
      × ((talk unset unset' sock ready ready' tmp).to_server ≡ segment_of r ∷ [])
      × (recver_work (booted devices').kernel unset' ready' sock ≡ some (101, k₂))
      × (find 101 k₂.socket_set ≡ some (talk unset unset' sock ready ready' tmp).server)
      × ((sockets : List (ℕ × MySocket)) × (choose k₂.socket_set r.info r.flag
            ≡ some (101, sockets))
          × (find 100 sockets ≡ find 100 k₂.socket_set)
          × (find 101 sockets
              ≡ some (record (talk unset unset' sock ready ready' tmp).server {
                address = back r.info;
              })))
      × (((length ds < 3) × Proceeds p')
          ⊎ ((length ds ≡ 3)
              × (connect_returns p'.client ≡ true)
              × (accept_returns p'.server ≡ true)
              × Delivered (λ i. 0) 0 p'))
unfolding sender_work sender_address recver_work wrap_socket wrap_bind connect_start accept_start
    socket_create create_from socket_bind bind free_from find insert assign ptr2ip_t h2n new_socket
    choose find_listener set_syn is_syn is_ack
session devices devices' unset unset' sock ready ready' tmp ds h =
    let p : Peers = talk unset unset' sock ready ready' tmp in
    let k : Kernel = (booted devices).kernel in
    (
      record k { socket_set = (100, p.client) ∷ []; socket_queue = (100, new 1000 []) ∷ [] },
      record k {
        socket_set =
            (100, set_status (answering unset unset' sock ready ready' tmp) closed)
            ∷ (101, p.server)
            ∷ [];
        socket_queue = (100, new 1000 []) ∷ (101, new 2000 []) ∷ [];
      },
      _,
      refl,
      refl,
      refl,
      refl,
      refl,
      (_, refl, refl, refl),
      (open_lem (record k { socket_set = (100, new_socket sock_stream unset ready) ∷ [] }) 100 _
          (answering unset unset' sock ready ready' tmp) to_recver tmp ds refl refl refl refl refl
          h).1,
    )

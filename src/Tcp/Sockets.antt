-- ===== src/Tcp/Sockets.antt =====
-- The socket operations of iTCP_kernel_t and mysocket_t (include/core.h): socket_create, socket_bind
-- and socket_listen. What a new socket's address and acc_ack_ready hold before they are set is an
-- argument.
use i_tcp.Common.{
  ℕ, zero, suc, ◌+◌, Bool, true, false, Option, none, some, [], ◌==◌, if◌then◌else◌, ◌>>=◌,
}
use i_tcp.Dict.{find, insert, assign, nat_ordered}
use i_tcp.Queue.{new}
use i_tcp.Tcp.Types.{unset, closed, listen, no_role, server, MySocket, Tuple4, set_status}
use i_tcp.Tcp.Kernel.{Kernel}

abbrev pub sock_stream : ℕ
sock_stream = 1

-- mysocket_t(_index, _sid, _iTCP_kernel, _domain, _type, _protocol)
unfoldable pub new_socket : ℕ → Tuple4 → Bool → MySocket
new_socket type address acc_ack_ready = record {
  databuf = λ i. 0;
  readp = 0;
  writep = 0;
  sizep = 0;
  role = no_role;
  type = type;
  address = address;
  tcb = record { role = no_role; status = unset };
  conn_ready = false;
  acc_syn_ready = false;
  acc_ack_ready = acc_ack_ready;
}

-- The loop of socket_create, with as many descriptors left as the first number.
unfoldable pub create_from : ℕ → ℕ → Kernel → MySocket → ℕ × Kernel
create_from zero i k mysocket = (i, k)
create_from (suc left) i k mysocket =
    let further = create_from left (i + 1) k mysocket in
    elim (find i k.socket_set) [
      | some _ ↦ further
      | none ↦ (
        i,
        record k {
          socket_set = insert i mysocket k.socket_set;
          socket_queue = insert i (new 1000 []) k.socket_queue;
        },
      )
    ]

unfoldable pub socket_create : Kernel → ℕ → Tuple4 → Bool → ℕ × Kernel
unfolding create_from new_socket
socket_create k type address acc_ack_ready =
    create_from 100 100 k (new_socket type address acc_ack_ready)

-- `false` is the return value -1.
unfoldable pub bind : MySocket → Tuple4 → Bool × MySocket
bind s address = elim s.role [
  | no_role ↦ (
    true,
    record s {
      role = server;
      address = address;
      tcb = if s.type == sock_stream then record { role = server; status = closed } else s.tcb;
    },
  )
  | _ ↦ (false, s)
]

-- bindOK is always 1, and the result of bind is not looked at.
unfoldable pub socket_bind : Kernel → ℕ → Tuple4 → Bool × Kernel
unfolding bind
socket_bind k sfd address = elim (find sfd k.socket_set) [
  | none ↦ (false, k)
  | some s ↦ (true, record k { socket_set = assign sfd (bind s address).1 k.socket_set })
]

-- `none` where the descriptor has no socket: the code reads past the end of the map.
unfoldable pub socket_listen : Kernel → ℕ → Option Kernel
socket_listen k bfd = do
  s ← find bfd k.socket_set
  some (record k { socket_set = assign bfd (set_status s listen) k.socket_set })

-- mysocket_t::listen, which nothing calls: socket_listen does without its tests. `false` is the return
-- value -1.
unfoldable pub self_listen : MySocket → Bool × MySocket
self_listen s = elim s.role [
  | server ↦ elim s.tcb.status [ closed ↦ (true, set_status s listen) | _ ↦ (false, s) ]
  | _ ↦ (false, s)
]

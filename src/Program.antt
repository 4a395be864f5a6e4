-- ===== src/Program.antt =====
-- The two test programs: `work` and the set-up of `main` in src/sender.cc, and `work` in src/recver.cc.
-- Each `work` is split at its waits: the part up to the first wait, and for each wait the part behind
-- it. What the programs leave unset is an argument: the address and
-- acc_ack_ready of a new socket, the destination in recver's sockaddr, and the byte that a packet
-- without data carries.
pub mod Session
pub mod Data
pub mod Calls
pub mod Backlog
pub mod Rounds
pub mod Kept
pub mod Fifo
pub mod Phases
pub mod Sender
pub mod Recver
pub mod Talk
pub mod Ending
pub mod Main
mod Tests
mod RunTests
mod EndingTests
mod MainTests
use i_tcp.Common.{ℕ, Bool, Option, none, some, List, [], ◌∷◌, ◌>>=◌, ◌>>◌, guard, leb}
use i_tcp.Dict.{find, nat_ordered}
use i_tcp.Word.{ptr2ip_t, h2n}
use i_tcp.Device.{Ifaddr}
use i_tcp.Route.{set_routing_table}
use i_tcp.Daemon.{Daemon, main_start}
use i_tcp.Tcp.Types.{MySocket, Tuple4, Reply}
use i_tcp.Tcp.Kernel.{Kernel}
use i_tcp.Tcp.Sockets.{sock_stream}
use i_tcp.Socket.{
  wrap_socket, wrap_bind, wrap_read, connect_start, connect_returns, accept_start, accept_returns,
  accept_finish, write_start, write_returns,
}

-- 10.100.2.1 and 10.100.2.2.
abbrev pub sender_ip : List ℕ
sender_ip = 10 ∷ 100 ∷ 2 ∷ 1 ∷ []

abbrev pub recver_ip : List ℕ
recver_ip = 10 ∷ 100 ∷ 2 ∷ 2 ∷ []

unfoldable pub sender_address : Option Tuple4
sender_address = do
  src ← ptr2ip_t sender_ip
  dst ← ptr2ip_t recver_ip
  some (record { src_ip = src; dst_ip = dst; src_port = h2n 10000; dst_port = h2n 10000 })

-- main of the sender up to the start of its threads, where the default TTL of the route is given too.
-- The result of setRoutingTable is not looked at.
unfoldable pub sender_start : Option (List Ifaddr) → Option (ℕ × Daemon)
sender_start ifaddr = do
  (device_num, d) ← main_start ifaddr
  ip22 ← ptr2ip_t recver_ip
  mask22 ← ptr2ip_t (255 ∷ 255 ∷ 255 ∷ 255 ∷ [])
  let mac2 = 0x82 ∷ 0xf3 ∷ 0xa8 ∷ 0x60 ∷ 0x27 ∷ 0xfd ∷ []
  let table =
      (set_routing_table d.host.curr_device d.host.route_table ip22 mask22 mac2 "veth2-3" 1024).1
  some (device_num, record d { host = record d.host { route_table = table } })

-- `work` of the sender up to the wait of __wrap_connect.
unfoldable pub sender_work : Kernel → Tuple4 → Bool → ℕ → Option (ℕ × Kernel × Reply)
unfolding sender_address
sender_work k unset ready tmp = do
  let (fd, k₁) = wrap_socket k sock_stream unset ready
  sock ← sender_address
  (k₂, r) ← connect_start k₁ fd sock tmp
  some (fd, k₂, r)

-- `work` of the receiver up to the wait of __wrap_accept. It does not call __wrap_listen.
unfoldable pub recver_work : Kernel → Tuple4 → Bool → Tuple4 → Option (ℕ × Kernel)
recver_work k unset ready sock = do
  let (fd, k₁) = wrap_socket k sock_stream unset ready
  src ← ptr2ip_t recver_ip
  accept_start (wrap_bind k₁ fd (record sock { src_ip = src; src_port = h2n 10000 })).1 fd

-- Where `work` of the sender waits: in __wrap_connect, in either __wrap_write; or it is about to call
-- __wrap_close, whose steps are those of Socket.
pub data SenderAt : Type 0 where
  connecting writing writing_again written : SenderAt

-- `work` of the sender from one wait, if it is over, to the next. `writefile` has the bytes of the
-- array of that name, of which the code sets the first four.
unfoldable pub sender_resume :
    Kernel → ℕ → List ℕ → SenderAt → Option (SenderAt × Kernel × List Reply)
sender_resume k fd writefile connecting = do
  s ← find fd k.socket_set
  guard (connect_returns s)
  (k', r) ← write_start k fd writefile
  some (writing, k', r ∷ [])
sender_resume k fd writefile writing = do
  s ← find fd k.socket_set
  guard (write_returns s)
  (k', r) ← write_start k fd writefile
  some (writing_again, k', r ∷ [])
sender_resume k fd writefile writing_again = do
  s ← find fd k.socket_set
  guard (write_returns s)
  some (written, k, [])
sender_resume k fd writefile written = none

-- Where `work` of the receiver waits: in __wrap_accept, in __wrap_read; or it is about to call
-- __wrap_close.
pub data RecverAt : Type 0 where
  accepting reading has_read : RecverAt

-- The array that the receiver reads into, and how much it reads.
abbrev pub readfile1_size : ℕ
readfile1_size = 1001

abbrev pub read_size : ℕ
read_size = 2002

-- `work` of the receiver from one wait, if it is over, to the next. A read of more bytes than the array
-- has overruns it.
unfoldable pub recver_resume : Kernel → ℕ → ℕ → RecverAt → Option (RecverAt × Kernel)
recver_resume k fd connfd accepting = do
  s ← find connfd k.socket_set
  guard (accept_returns s)
  k' ← accept_finish k fd
  some (reading, k')
recver_resume k fd connfd reading = do
  (bytes, k') ← wrap_read k connfd read_size
  guard (leb read_size readfile1_size)
  some (has_read, k')
recver_resume k fd connfd has_read = none

-- ===== src/Program/Calls.antt =====
-- Everything that changes the sockets and the queues of iTCP_kernel_t in a running program, in any
-- order: packets that recvIPPacket gets, rounds of processIPPacket, and the calls of src/socket.cc,
-- each split at its waits.
use i_tcp.Common.{ℕ, ◌≡◌, Bool, Option, some, List, [], ◌∷◌, ◌++◌, ◌==◌, if◌then◌else◌, ◌>>=◌}
use i_tcp.Dict.{find, nat_ordered}
use i_tcp.Queue.{pop}
use i_tcp.Tcp.Types.{Tuple4, Reply}
use i_tcp.Tcp.Kernel.{Kernel, recv_ip_packet, process_ip_packet}
use i_tcp.Socket.{
  wrap_socket, wrap_bind, wrap_listen, connect_start, accept_start, accept_finish, wrap_read,
  write_start, close_start, close_set,
}

-- A packet, with the descriptor of the socket that it was given to.
abbrev pub Given : Type 0
Given = ℕ × List ℕ

pub data Call (k : Kernel) : Kernel → Type 0 where
  sockets :
      (type : ℕ) (address : Tuple4) (ready : Bool) {fd : ℕ} {k' : Kernel}
      → wrap_socket k type address ready ≡ (fd, k')
      → Call k k'
  binds :
      (fd : ℕ) (address : Tuple4) {ok : Bool} {k' : Kernel}
      → wrap_bind k fd address ≡ (ok, k')
      → Call k k'
  listens :
      (fd backlog : ℕ) {ok : Bool} {k' : Kernel}
      → wrap_listen k fd backlog ≡ some (ok, k')
      → Call k k'
  connects :
      (fd : ℕ) (address : Tuple4) (tmp : ℕ) {r : Reply} {k' : Kernel}
      → connect_start k fd address tmp ≡ some (k', r)
      → Call k k'
  accepts : (fd : ℕ) {connfd : ℕ} {k' : Kernel} → accept_start k fd ≡ some (connfd, k') → Call k k'
  accepted : (fd : ℕ) {k' : Kernel} → accept_finish k fd ≡ some k' → Call k k'
  reads :
      (fd nbyte : ℕ) {bytes : List ℕ} {k' : Kernel}
      → wrap_read k fd nbyte ≡ some (bytes, k')
      → Call k k'
  writes :
      (fd : ℕ) (buf : List ℕ) {r : Reply} {k' : Kernel}
      → write_start k fd buf ≡ some (k', r)
      → Call k k'
  closes : (fd tmp : ℕ) {r : Option Reply} → close_start k fd tmp ≡ some r → Call k k
  marks : (fd : ℕ) {k' : Kernel} → close_set k fd ≡ some k' → Call k k'

-- The packet that the next round of processIPPacket takes.
unfoldable pub next : Kernel → Option Given
next k = do
  (fd, _) ← pop k.un_solved_socket
  queue ← find fd k.socket_queue
  (buf, _) ← pop queue
  some (fd, buf)

-- The packets that recvIPPacket has given to sockets, and those that processIPPacket has worked on, in
-- order.
pub data Runs (k : Kernel) : List Given → List Given → Kernel → Type 0 where
  start : Runs k [] [] k
  receives :
      {got worked : List Given} {k₁ k₂ : Kernel} (buf : List ℕ) {fd : ℕ}
      → Runs k got worked k₁
      → recv_ip_packet k₁ buf ≡ some (fd, k₂)
      → Runs k (got ++ ((fd, buf) ∷ [])) worked k₂
  works :
      {got worked : List Given} {k₁ k₂ : Kernel} (tmp : ℕ) {e : Given} {out : List Reply}
      → Runs k got worked k₁
      → next k₁ ≡ some e
      → process_ip_packet k₁ tmp ≡ some (k₂, out)
      → Runs k got (worked ++ (e ∷ [])) k₂
  calls :
      {got worked : List Given} {k₁ k₂ : Kernel}
      → Runs k got worked k₁
      → Call k₁ k₂
      → Runs k got worked k₂

-- The packets that were given to one socket.
unfoldable pub packets_of : ℕ → List Given → List (List ℕ)
packets_of fd [] = []
packets_of fd ((j, buf) ∷ es) = let rest = packets_of fd es in if j == fd then buf ∷ rest else rest

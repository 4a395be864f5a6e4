-- ===== src/Program/Fifo.antt =====
-- The packets between recvIPPacket (src/tcp.cc) and processIPPacket (src/daemon.cc) in a whole run of a
-- program.

use mathlib.Core.List.{append_assoc}
use i_tcp.Common.{ℕ, ◌≡◌, refl, none, List, [], ◌∷◌, ◌++◌, ◌⊎◌}
use i_tcp.Dict.{find, nat_ordered}
use i_tcp.Device.{Device}
use i_tcp.Queue.Holds.{new-Holds}
use i_tcp.Tcp.Kernel.{Kernel, process_ip_packet}
use i_tcp.Daemon.{booted}
use i_tcp.Program.Calls.{Given, packets_of, Runs}
use i_tcp.Program.Kept.{call-IsBacklog}
use i_tcp.Program.Rounds.{Stuck, round_lem, stuck_lem}
use i_tcp.Program.Backlog.{IsBacklog, recv_ip_packet-Received, Received-IsBacklog}

Runs-IsBacklog :
    {k k' : Kernel} {got worked : List Given}
    → Runs k got worked k'
    → IsBacklog k []
    → (pending : List Given) × (got ≡ worked ++ pending) × IsBacklog k' pending
Runs-IsBacklog Runs.start v = ([], refl, v)
Runs-IsBacklog (Runs.receives {got} {worked} {k₁} buf {fd} r h) v =
    let (pending, order, w) = Runs-IsBacklog r v in
    (
      pending ++ ((fd, buf) ∷ []),
      rw order (append_assoc worked pending ((fd, buf) ∷ [])),
      Received-IsBacklog k₁ buf pending (recv_ip_packet-Received k₁ buf h) w,
    )
Runs-IsBacklog (Runs.works {got} {worked} {k₁} tmp r taken h) v =
    let (pending, order, w) = Runs-IsBacklog r v in
    round_lem k₁ tmp got worked pending order w taken h
Runs-IsBacklog (Runs.calls r c) v =
    let (pending, order, w) = Runs-IsBacklog r v in (pending, order, call-IsBacklog pending c w)

booted-IsBacklog : (devices : List Device) → IsBacklog (booted devices).kernel []
unfolding find packets_of
booted-IsBacklog devices = record {
  noted = new-Holds 2000 0;
  queues = λ j q found. absurd (cc found);
  known = λ j none'. refl;
  sockets = λ j (q, found). absurd (cc found);
  queue_keys = tt;
  socket_keys = tt;
}

-- A program that has just started gets packets, works on packets and calls the functions of
-- src/socket.cc, in any order. Then processIPPacket has worked on the packets in the order in which
-- recvIPPacket gave them to sockets, on none twice and without leaving one out; and those that still
-- wait are noted in that order in unSolvedSocket and lie in that order in the queues of their sockets.
pub one_fifo :
    (devices : List Device) {got worked : List Given} {k : Kernel}
    → Runs (booted devices).kernel got worked k
    → (pending : List Given) × (got ≡ worked ++ pending) × IsBacklog k pending
one_fifo devices r = Runs-IsBacklog r (booted-IsBacklog devices)

-- A round of processIPPacket that does not end, after any such run: all packets have been worked on, or
-- the oldest one that has not is too short to be taken apart, or its socket, which exists, cannot
-- handle it without fault. It never waits for a packet of a socket that has been noted.
pub never_waits :
    (devices : List Device) (tmp : ℕ) {got worked : List Given} {k : Kernel}
    → Runs (booted devices).kernel got worked k
    → process_ip_packet k tmp ≡ none
    → (got ≡ worked)
      ⊎ ((fd : ℕ) × (buf : List ℕ) × (rest : List Given) × (got ≡ worked ++ ((fd, buf) ∷ rest))
          × Stuck k tmp fd buf)
never_waits devices tmp {got} {worked} {k} r h =
    let (pending, order, v) = one_fifo devices r in stuck_lem k tmp got worked pending order v h

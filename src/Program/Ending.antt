-- ===== src/Program/Ending.antt =====
-- Runs of src/sender.cc and src/recver.cc on one connection, up to the calls of __wrap_close.

use i_tcp.Common.{
  ℕ, ◌+◌, ◌≤◌, ◌≡◌, true, some, List, ◌++◌, length, arith, ◌⊎◌, inl, inr, >>=-eq-some,
}
use i_tcp.Dict.{find, nat_ordered}
use i_tcp.Tcp.Types.{MySocket, Buffer, buf_size}
use i_tcp.Tcp.Handler.{handle}
use i_tcp.Tcp.Kernel.{Kernel}
use i_tcp.Tcp.Peers.{at_server, at_client, deliver, pick, Proceeds}
use i_tcp.Tcp.Transfer.{Delivered}
use i_tcp.Socket.{wrap_read}
use i_tcp.Program.{connecting, written, reading, read_size}
use i_tcp.Program.Phases.{whole}
use i_tcp.Program.Sender.{sender_next}
use i_tcp.Program.Recver.{reads_all}
use i_tcp.Program.Talk.{Talk, ends, Step, Steps, IsGoing, Step-IsGoing}

module _ (fd old connfd : ℕ) (file : List ℕ) where
  -- The sender is done with its writes, and the receiver's read gets what they wrote.
  abbrev pub HasEnded : Talk → Type 0
  HasEnded c =
      (c.sender_at ≡ written)
      × ((k : Kernel) × (wrap_read c.recver connfd read_size ≡ some (file ++ file, k)))

  abbrev pub GoesOn : Talk → Type 0
  GoesOn c = (c' : Talk) × Step fd old connfd file c c'

  Proceeds-Step :
      (c : Talk) (x y : MySocket)
      → find fd c.sender.socket_set ≡ some x
      → find connfd c.recver.socket_set ≡ some y
      → Proceeds (ends c x y)
      → GoesOn c
  unfolding deliver
  Proceeds-Step c x y there here (at_server i tmp, p', h) =
      let ((g, rest), picked, b) = >>=-eq-some (pick c.to_server i) _ h in
      let ((s, out), handled, _) = >>=-eq-some (handle y g tmp) _ b in
      (_, Step.reaches_recver i tmp picked here handled)
  Proceeds-Step c x y there here (at_client i tmp, p', h) =
      let ((g, rest), picked, b) = >>=-eq-some (pick c.to_client i) _ h in
      let ((s, out), handled, _) = >>=-eq-some (handle x g tmp) _ b in
      (_, Step.reaches_sender i tmp picked there handled)

  module _ (data' : Buffer) (fits : whole data' file ≤ buf_size) (size : length file ≡ 1001) where
    goes_on :
        (t : ℕ) (c : Talk) → IsGoing fd old connfd file data' fits size t c → GoesOn c ⊎ HasEnded c
    goes_on t c (x, y, there, here, read, start, v) =
        elim (sender_next data' file fits (omega arith) c.sender_at t c.sender fd (ends c x y) there
          v) [
            | inr (_, _, _, _, _, goes, _, _, _) ↦ inl (_, Step.sender_goes_on goes)
            | inl (_, inl more) ↦ inl (Proceeds-Step c x y there here more)
            | inl (_, inr over) ↦
                let got =
                  reads_all data' file fits size c.recver connfd (ends c x y) here (rw over at v)
                    start in
                inr (over, (_, got))
          ]

    Steps-IsGoing :
        (t : ℕ) {c : Talk} {n : ℕ} {c' : Talk}
        → Steps fd old connfd file c n c'
        → IsGoing fd old connfd file data' fits size t c
        → (t' : ℕ) × (t' + n ≤ t) × IsGoing fd old connfd file data' fits size t' c'
    Steps-IsGoing t Steps.start v = (t, omega arith, v)
    Steps-IsGoing t (Steps.later r s) v =
        let (u, low, w) = Steps-IsGoing t r v in
        let (t', below, z) = Step-IsGoing fd old connfd file data' fits size u s w in
        (t', omega arith, z)

-- The sender is at the wait of __wrap_connect, which is over, and the receiver, which has read nothing,
-- at the wait of __wrap_read, on a connection over which no data has been sent and nothing is in
-- flight; the array that the sender writes has 1001 bytes. Then, in whatever order the network delivers
-- packets and the sender goes on, there are at most 4007 steps; and after any number of them either a
-- further step is possible, of the sender or of a packet that is handled without fault, or both writes
-- of the sender are over and the receiver's __wrap_read of 2002 bytes gives the array twice. The
-- receiver itself takes no step: its array has room for 1001 bytes of those.
pub conversation :
    (fd old connfd n : ℕ) (file : List ℕ) (data' : Buffer) (x y : MySocket) (c : Talk) {c' : Talk}
    → length file ≡ 1001
    → c.sender_at ≡ connecting
    → c.recver_at ≡ reading
    → find fd c.sender.socket_set ≡ some x
    → find connfd c.recver.socket_set ≡ some y
    → Delivered data' 0 (ends c x y)
    → x.conn_ready ≡ true
    → y.readp ≡ 0
    → Steps fd old connfd file c n c'
    → (n ≤ 4007) × (GoesOn fd old connfd file c' ⊎ HasEnded fd old connfd file c')
conversation fd old connfd n file data' x y c size s r there here v ready unread steps =
    let fits : whole data' file ≤ buf_size = omega arith in
    let going : IsGoing fd old connfd file data' fits size 4007 c =
      (x, y, there, here, r, unread, rw s (v, ready, omega arith)) in
    let (t', low, w) = Steps-IsGoing fd old connfd file data' fits size 4007 steps going in
    (omega arith, goes_on fd old connfd file data' fits size t' _ w)

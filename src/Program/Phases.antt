-- ===== src/Program/Phases.antt =====
-- How far the two programs have come (`work` of src/sender.cc and src/recver.cc) once their connection
-- is open, and what a delivery does to that.

use i_tcp.Common.{ℕ, ◌+◌, ◌*◌, ◌<◌, ◌≤◌, ◌≡◌, true, some, List, length, arith, ◌⊎◌, inl, inr}
use i_tcp.Tcp.Types.{Buffer, buf_size, store}
use i_tcp.Tcp.Peers.{Peers, Delivery, deliver, absurd_some}
use i_tcp.Tcp.Transfer.{Delivered}
use i_tcp.Tcp.Stream.{Sending, Sending-step, Delivered-waits}
use i_tcp.Socket.Wait.{Waits, Waits-step}
use i_tcp.Program.{SenderAt, connecting, writing, writing_again, written}

module _ (data' : Buffer) (file : List ℕ) where
  abbrev pub half : ℕ
  half = 0 + length file

  abbrev pub whole : ℕ
  whole = half + length file

  -- What the client's buffer has after one write, and after both.
  abbrev pub first : Buffer
  first = store data' 0 file

  abbrev pub both : Buffer
  both = store first half file

  module _ (fits : whole ≤ buf_size) where
    pub within : half ≤ buf_size
    within = omega arith

    -- Where the sender is, with at most `t` steps of it and of the network to come.
    abbrev pub IsAt : SenderAt → ℕ → Peers → Type 0
    IsAt connecting t p = Delivered data' 0 p × (p.client.conn_ready ≡ true) × (4 * half + 3 ≤ t)
    IsAt writing t p =
        (m : ℕ) × Sending first half m p
        × (Delivered first half p ⊎ Waits first half within ⊥ p)
        × (m + 2 * half + 2 ≤ t)
    IsAt writing_again t p =
        (m : ℕ) × Sending both whole m p
        × (Delivered both whole p ⊎ Waits both whole fits ⊥ p)
        × (m + 1 ≤ t)
    IsAt written t p = Delivered both whole p

    still_waits :
        (buf : Buffer) (n m : ℕ) (low : n ≤ buf_size) (p : Peers) (d : Delivery) {p' : Peers}
        → deliver p d ≡ some p'
        → Sending buf n m p
        → Delivered buf n p ⊎ Waits buf n low ⊥ p
        → Delivered buf n p' ⊎ Waits buf n low ⊥ p'
    still_waits buf n m low p d h v (inl over) = absurd_some h (Delivered-waits buf n p d over)
    still_waits buf n m low p d h v (inr w) = Waits-step buf n low ⊥ m p d h v w

    pub deliver-IsAt :
        (a : SenderAt) (t : ℕ) (p : Peers) (d : Delivery) {p' : Peers}
        → deliver p d ≡ some p'
        → IsAt a t p
        → (t' : ℕ) × (t' < t) × IsAt a t' p'
    deliver-IsAt connecting t p d h (idle, _, _) = absurd_some h (Delivered-waits data' 0 p d idle)
    deliver-IsAt writing t p d h (m, v, w, low) =
        let (k, below, u) = Sending-step first half within m p d h v in
        let next = still_waits first half m within p d h v w in
        (k + 2 * half + 2, omega arith, (k, u, next, omega arith))
    deliver-IsAt writing_again t p d h (m, v, w, low) =
        let (k, below, u) = Sending-step both whole fits m p d h v in
        let next = still_waits both whole m fits p d h v w in
        (k + 1, omega arith, (k, u, next, omega arith))
    deliver-IsAt written t p d h v = absurd_some h (Delivered-waits both whole p d v)

-- ===== src/Socket/Descriptors.antt =====
-- __wrap_accept (src/socket.cc) on the table of descriptors.
use i_tcp.Common.{
  ℕ, zero, suc, ◌+◌, ◌≡◌, ◌≢◌, ◌<◌, ◌≤◌, sym, ◌∙◌, none, some, List, arith, Option-cases, ◌⊎◌, inl,
  inr, [],
}
use native.Mathlib.Decide.{dec_lt}
use i_tcp.Dict.{find, insert, assign, nat_ordered}
use i_tcp.Queue.{new}
use i_tcp.Tcp.Types.{closed, listen, MySocket, set_status}
use i_tcp.Tcp.Kernel.{Kernel}
use i_tcp.Tcp.Demux.{assign_self, assign_ne}
use i_tcp.Tcp.Listening.{Taken, insert_self, insert_ne}
use i_tcp.Socket.{free_from, accept_start, accept_finish}

-- The search finds the lowest free descriptor, if there is one below its end.
free_from_lem :
    (left i : ℕ) (k : Kernel)
    → Taken k i (free_from left i k)
      × (((i ≤ free_from left i k)
            × (free_from left i k < i + left)
            × (find (free_from left i k) k.socket_set ≡ none))
          ⊎ (free_from left i k ≡ i + left))
unfolding free_from
free_from_lem zero i k = (λ j p q. absurd (omega arith), inr (omega arith))
free_from_lem (suc left) i k = elim (Option-cases (find i k.socket_set)) [
  | inl free ↦
      rw (free, free_from) (λ j p q. absurd (omega arith), inl (omega arith, omega arith, free))
  | inr (t, used) ↦
      let (rest, found) = free_from_lem left (i + 1) k in
      rw (used, free_from)
        (
          λ j p q e. elim (dec_lt i j) [
            | yes above ↦ rest j (omega arith) q e
            | no top ↦ let same : i ≡ j = omega arith in cc (used, same, e)
          ],
          elim found [
            | inl (low, high, free) ↦ inl (omega arith, omega arith, free)
            | inr full ↦ inr (omega arith)
          ],
        )
]

-- __wrap_accept of a socket, where a descriptor from 100 to 199 is free: the lowest of them gets a
-- copy of the socket that listens, while the socket itself is closed and all others stay as they are.
-- When the waits are over, the socket listens again, and the copy and all others stay.
pub accept_lem :
    (k : Kernel) (socket : ℕ) (l : MySocket)
    → find socket k.socket_set ≡ some l
    → ¬ Taken k 100 200
    → (connfd : ℕ) × (k₁ k₂ : Kernel) × ((100 ≤ connfd)
        × (connfd < 200)
        × (find connfd k.socket_set ≡ none)
        × Taken k 100 connfd)
      × (accept_start k socket ≡ some (connfd, k₁))
      × (find connfd k₁.socket_set ≡ some (set_status l listen))
      × (find socket k₁.socket_set ≡ some (set_status l closed))
      × ((j : ℕ) → connfd ≢ j → socket ≢ j → find j k₁.socket_set ≡ find j k.socket_set)
      × (accept_finish k₁ socket ≡ some k₂)
      × (find socket k₂.socket_set ≡ some (set_status l listen))
      × ((j : ℕ) → socket ≢ j → find j k₂.socket_set ≡ find j k₁.socket_set)
unfolding accept_start accept_finish
accept_lem k socket l at room = elim ((free_from_lem 100 100 k).1) [
  | inr full ↦ absurd (room (rw full at ((free_from_lem 100 100 k).0)))
  | inl (low, high, free) ↦
      let fd : ℕ = free_from 100 100 k in
      let apart : fd ≢ socket = λ e. cc (e, at, free) in
      let m₁ : List (ℕ × MySocket) = insert fd l k.socket_set in
      let new₁ : find fd m₁ ≡ some l = insert_self fd l k.socket_set free in
      let old₁ : find socket m₁ ≡ some l = insert_ne fd socket l k.socket_set free apart ∙ at in
      let m₂ : List (ℕ × MySocket) = assign socket (set_status l closed) m₁ in
      let back : socket ≢ fd = λ e. apart (sym e) in
      let new₂ : find fd m₂ ≡ some l =
        assign_ne socket fd (set_status l closed) l m₁ old₁ back ∙ new₁ in
      let old₂ : find socket m₂ ≡ some (set_status l closed) =
        assign_self socket (set_status l closed) l m₁ old₁ in
      let m₃ : List (ℕ × MySocket) = assign fd (set_status l listen) m₂ in
      let old₃ : find socket m₃ ≡ some (set_status l closed) =
        assign_ne fd socket (set_status l listen) l m₂ new₂ apart ∙ old₂ in
      let k₁ : Kernel = record k {
        socket_queue = insert fd (new 2000 []) k.socket_queue;
        socket_set = m₃;
      } in
      (
        fd,
        k₁,
        record k₁ { socket_set = assign socket (set_status l listen) m₃ },
        (low, high, free, (free_from_lem 100 100 k).0),
        rw (at, old₁, new₂),
        assign_self fd (set_status l listen) l m₂ new₂,
        old₃,
        λ j ne ns.
            assign_ne fd j (set_status l listen) l m₂ new₂ ne
            ∙ (assign_ne socket j (set_status l closed) l m₁ old₁ ns
                ∙ insert_ne fd j l k.socket_set free ne),
        rw old₃,
        assign_self socket (set_status l listen) (set_status l closed) m₃ old₃,
        λ j ns. assign_ne socket j (set_status l listen) (set_status l closed) m₃ old₃ ns,
      )
]

-- ===== src/Program/Sender.antt =====
-- `work` of src/sender.cc from one wait to the next.
use mathlib.Core.Path.{subst}
use mathlib.Core.List.{append-nil}
use i_tcp.Common.{
  ℕ, ◌+◌, ◌*◌, ◌<◌, ◌≤◌, ◌≡◌, refl, sym, ap, true, false, none, some, List, [], ◌∷◌, ◌++◌, length,
  arith, ◌⊎◌, inl, inr, map,
}
use i_tcp.Dict.{find, nat_ordered}
use i_tcp.Tcp.Types.{MySocket, Reply, Buffer, buf_size, store}
use i_tcp.Tcp.Wire.{segment_of}
use i_tcp.Tcp.Kernel.{Kernel}
use i_tcp.Tcp.Demux.{assign_self}
use i_tcp.Tcp.Peers.{Peers, Proceeds}
use i_tcp.Tcp.Transfer.{Delivered}
use i_tcp.Tcp.Stream.{Sending, data-Proceeds, ack-Proceeds}
use i_tcp.Socket.{put_socket, write_returns, write_start}
use i_tcp.Socket.Wait.{Waits}
use i_tcp.Socket.Write.{
  after_write, sending, filled, first_packet, write_start_lem, after_write-DataOut,
}
use i_tcp.Program.{SenderAt, connecting, writing, writing_again, written, sender_resume}
use i_tcp.Program.Phases.{half, whole, first, both, IsAt, within}

-- The peers after the sender has sent.
abbrev pub sends : Peers → MySocket → List Reply → Peers
sends p c out = record p { client = c; to_server = p.to_server ++ map segment_of out }

writes :
    (k : Kernel) (fd : ℕ) (buf : Buffer) (n : ℕ) (p : Peers) (bytes : List ℕ)
    (fits : n + length bytes ≤ buf_size)
    → find fd k.socket_set ≡ some p.client
    → Delivered buf n p
    → 1000 < length bytes
    → (write_start k fd bytes
        ≡ some (
          put_socket k fd (sending (filled p.client bytes)),
          first_packet (filled p.client bytes),
        ))
      × Sending
          (store buf n bytes)
          (n + length bytes)
          (2 * length bytes)
          (sends p (sending (filled p.client bytes)) (first_packet (filled p.client bytes) ∷ []))
      × Waits
          (store buf n bytes)
          (n + length bytes)
          fits
          ⊥
          (sends p (sending (filled p.client bytes)) (first_packet (filled p.client bytes) ∷ []))
writes k fd buf n p bytes fits at v long =
    let same : after_write p bytes
        ≡ sends p (sending (filled p.client bytes)) (first_packet (filled p.client bytes) ∷ []) =
      ap
        (λ gs. record (after_write p bytes) {
          to_server = gs ++ (segment_of (first_packet (filled p.client bytes)) ∷ []);
        })
        (sym v.idle.0) in
    (
      write_start_lem k fd p.client bytes at (omega (arith, v.written, v.sync.client_size))
          (omega (arith, v.sync.client_size)),
      subst (Sending (store buf n bytes) (n + length bytes) (2 * length bytes)) same
          (Sending.data_out n (omega arith) (after_write-DataOut buf n p bytes v (omega arith))),
      inl (ground (arith, v.written, v.sync.client_size), omega (arith, v.sync.client_size)),
    )

waits_on :
    (buf : Buffer) (n m : ℕ) (fits : n ≤ buf_size) (p : Peers)
    → Sending buf n m p
    → p.client.writep < n
    → p.client.sizep ≡ n
    → (write_returns p.client ≡ false) × Proceeds p
waits_on buf n m fits p (Sending.data_out w b v) low size =
    (ground arith, data-Proceeds buf n fits w p v)
waits_on buf n m fits p (Sending.ack_out w b v) low size =
    (ground arith, ack-Proceeds buf n fits w p v)
waits_on buf n m fits p (Sending.delivered v) low size = absurd (omega (arith, v.written))

connected_lem :
    (k k' : Kernel) (fd : ℕ) (file : List ℕ) (s : MySocket) (r : Reply)
    → find fd k.socket_set ≡ some s
    → s.conn_ready ≡ true
    → write_start k fd file ≡ some (k', r)
    → sender_resume k fd file connecting ≡ some (writing, k', r ∷ [])
unfolding sender_resume
connected_lem k k' fd file s r at ready sent = rw (at, ready, sent) refl

written_lem :
    (k k' : Kernel) (fd : ℕ) (file : List ℕ) (s : MySocket) (r : Reply)
    → find fd k.socket_set ≡ some s
    → write_returns s ≡ true
    → write_start k fd file ≡ some (k', r)
    → sender_resume k fd file writing ≡ some (writing_again, k', r ∷ [])
unfolding sender_resume
written_lem k k' fd file s r at over sent = rw (at, over, sent) refl

unsent : (p : Peers) → p ≡ sends p p.client []
unsent p = ap (λ gs. record p { to_server = gs }) (sym (append-nil p.to_server))

module _ (data' : Buffer) (file : List ℕ) (fits : whole data' file ≤ buf_size)
    (long : 1000 < length file) where
  -- The sender waits, and a packet can arrive unless it is done with its writes; or it goes on.
  abbrev pub SenderNext : SenderAt → ℕ → Kernel → ℕ → Peers → Type 0
  SenderNext a t k fd p =
      ((sender_resume k fd file a ≡ none) × (Proceeds p ⊎ (a ≡ written)))
      ⊎ ((a' : SenderAt) × (k' : Kernel) × (out : List Reply) × (c : MySocket) × (t' : ℕ)
          × (sender_resume k fd file a ≡ some (a', k', out))
          × (find fd k'.socket_set ≡ some c)
          × (t' < t)
          × IsAt data' file fits a' t' (sends p c out))

  pub sender_next :
      (a : SenderAt) (t : ℕ) (k : Kernel) (fd : ℕ) (p : Peers)
      → find fd k.socket_set ≡ some p.client
      → IsAt data' file fits a t p
      → SenderNext a t k fd p
  unfolding sender_resume
  sender_next connecting t k fd p at (v, ready, low) =
      let (sent, sending', waits) = writes k fd data' 0 p file (omega arith) at v long in
      inr (
        writing,
        (put_socket k fd (sending (filled p.client file))),
        (first_packet (filled p.client file) ∷ []),
        (sending (filled p.client file)),
        4 * half data' file + 2,
        connected_lem k _ fd file p.client _ at ready sent,
        assign_self fd _ p.client k.socket_set at,
        omega arith,
        (2 * length file, sending', inr waits, omega arith),
      )
  sender_next writing t k fd p at (m, v, inl over, low) =
      let (sent, sending', waits) =
        writes k fd (first data' file) (half data' file) p file fits at over long in
      let done' : write_returns p.client ≡ true =
        ground (arith, over.written, over.sync.client_size) in
      inr (
        writing_again,
        (put_socket k fd (sending (filled p.client file))),
        (first_packet (filled p.client file) ∷ []),
        (sending (filled p.client file)),
        2 * half data' file + 1,
        written_lem k _ fd file p.client _ at done' sent,
        assign_self fd _ p.client k.socket_set at,
        omega arith,
        (2 * length file, sending', inr waits, omega arith),
      )
  sender_next writing t k fd p at (m, v, inr (inl (behind, size)), low) =
      let (stays, more) =
        waits_on (first data' file) (half data' file) m (within data' file fits) p v behind size in
      inl (rw (at, stays) refl, inl more)
  sender_next writing t k fd p at (m, v, inr (inr early), low) = absurd early
  sender_next writing_again t k fd p at (m, v, inl over, low) =
      let done' : write_returns p.client ≡ true =
        ground (arith, over.written, over.sync.client_size) in
      inr (
        written,
        k,
        [],
        p.client,
        0,
        rw (at, done') refl,
        at,
        omega arith,
        subst (IsAt data' file fits written 0) (unsent p) over,
      )
  sender_next writing_again t k fd p at (m, v, inr (inl (behind, size)), low) =
      let (stays, more) = waits_on (both data' file) (whole data' file) m fits p v behind size in
      inl (rw (at, stays) refl, inl more)
  sender_next writing_again t k fd p at (m, v, inr (inr early), low) = absurd early
  sender_next written t k fd p at v = inl (refl, inr refl)

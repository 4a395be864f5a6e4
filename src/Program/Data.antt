-- ===== src/Program/Data.antt =====
-- The data of the two programs: two calls of __wrap_write in src/sender.cc, each with more than 1000
-- bytes, and one __wrap_read in src/recver.cc.
use i_tcp.Common.{
  ℕ, ◌+◌, ◌-◌, ◌*◌, ◌<◌, ◌≤◌, ◌≡◌, ◌∙◌, true, false, some, List, ◌++◌, length, arith, ◌⊎◌, inl, inr,
}
use i_tcp.Tcp.Types.{MySocket, Buffer, buf_size, store, slice}
use i_tcp.Tcp.Data.{my_read}
use i_tcp.Tcp.ReadWrite.{slice-store}
use i_tcp.Tcp.Peers.{Peers, Delivery, deliver_all, Proceeds}
use i_tcp.Tcp.Steady.{deliver_all-BothSteady}
use i_tcp.Tcp.Transfer.{Delivered}
use i_tcp.Dict.{find, nat_ordered}
use i_tcp.Tcp.Kernel.{Kernel}
use i_tcp.Socket.{put_socket, write_start, write_returns}
use i_tcp.Socket.Write.{
  after_write, filled, first_packet, write_start_lem, write_waits, after_write_lem,
}

-- A write of more than 1000 bytes returns only when all of them are delivered.
returned-Delivered :
    (data' : Buffer) (n : ℕ) (p : Peers) (bytes : List ℕ) (ds : List Delivery) {p' : Peers}
    → Delivered data' n p
    → 1000 < length bytes
    → n + length bytes ≤ buf_size
    → deliver_all (after_write p bytes) ds ≡ some p'
    → write_returns p'.client ≡ true
    → Delivered (store data' n bytes) (n + length bytes) p'
returned-Delivered data' n p bytes ds v long fits h over =
    elim (write_waits data' n p bytes ds v (omega arith) fits h) [
      | inl done ↦ done
      | inr (inl waits) ↦ absurd (cc (waits, over))
      | inr (inr short) ↦ absurd (omega arith)
    ]

-- write_start on the peers' client.
abbrev pub Written : Kernel → ℕ → Peers → List ℕ → Type 0
Written k fd p bytes =
    write_start k fd bytes
    ≡ some (put_socket k fd (after_write p bytes).client, first_packet (filled p.client bytes))

-- On a connection that has delivered `n` bytes, all of them read, the sender writes `a`, and `b` when
-- the first write has returned, each of more than 1000 bytes; `fd` is its socket in the two kernels.
-- Then write_start changes only this socket, to that of the peers after_write, and sends the packet
-- that is on its way to the server there, in both calls. After any deliveries, of whatever packets
-- in whatever order, either the second write still waits, a further delivery is possible without
-- fault, and fewer than two for each byte of `b` were made; or the second write returns, and one
-- __wrap_read of as many bytes as were written returns `a` and then `b`.
pub both_writes :
    (data' : Buffer) (n : ℕ) (k k₁ : Kernel) (fd : ℕ) (p : Peers) (a b : List ℕ)
    (ds es : List Delivery) {p₁ p₂ : Peers}
    → Delivered data' n p
    → find fd k.socket_set ≡ some p.client
    → find fd k₁.socket_set ≡ some p₁.client
    → p.server.readp ≡ n
    → 1000 < length a
    → 1000 < length b
    → n + length a + length b ≤ buf_size
    → deliver_all (after_write p a) ds ≡ some p₁
    → write_returns p₁.client ≡ true
    → deliver_all (after_write p₁ b) es ≡ some p₂
    → Written k fd p a
      × Written k₁ fd p₁ b
      × (((length es < 2 * length b) × Proceeds p₂ × (write_returns p₂.client ≡ false))
          ⊎ ((write_returns p₂.client ≡ true)
              × ((s : MySocket) × (my_read p₂.server (length a + length b) ≡ some (a ++ b, s))
                  × (s.readp ≡ s.sizep))))
both_writes data' n k k₁ fd p a b ds es {p₁} {p₂} v at at₁ here la lb fits h over h₂ =
    let one = returned-Delivered data' n p a ds v la (omega arith) h over in
    let steady = deliver_all-BothSteady (after_write p a) ds h in
    let start : p₁.server.readp ≡ n = steady.server.readp ∙ here in
    let low : p₁.server.readp ≤ n + length a = omega arith in
    (
      write_start_lem k fd p.client a at (omega (arith, v.written, v.sync.client_size))
          (omega (arith, v.sync.client_size)),
      write_start_lem k₁ fd p₁.client b at₁ (omega (arith, one.written, one.sync.client_size))
          (omega (arith, one.sync.client_size)),
      elim (after_write_lem (store data' n a) (n + length a) p₁ b es one (omega arith) fits low
          h₂) [
            | inl (few, more, inl waits) ↦ inl (few, more, waits)
            | inl (few, more, inr short) ↦ absurd (omega arith)
            | inr (_, done, (s, got, all)) ↦
                let size : n + length a - p₁.server.readp ≡ length a = omega arith in
                let first : slice (store data' n a) p₁.server.readp (length a) ≡ a =
                  rw start (slice-store data' n a) in
                inr (done, (s, rw (size, first) at got, all))
          ],
    )

-- ===== src/Tcp/Stream.antt =====
-- The whole stream: chunk after chunk (Tcp/Transfer) until the server has all that the client writes.
use mathlib.Core.Path.{subst}
use native.Mathlib.Decide.{dec_lt}
use i_tcp.Common.{
  ℕ, ◌+◌, ◌-◌, ◌*◌, ◌≤◌, ◌<◌, ◌≡◌, none, some, List, [], ◌∷◌, length, arith, ◌⊎◌, inl, inr,
  >>=-eq-some,
}
use i_tcp.Tcp.Types.{Buffer, buf_size}
use i_tcp.Tcp.Data.{chunk}
use i_tcp.Tcp.Chunks.{takes_data, takes_ack, takes_last_ack}
use i_tcp.Tcp.Peers.{
  Peers, Delivery, at_server, at_client, deliver, deliver_all, server_takes, client_takes,
  server_waits, client_waits, pick-nil, pick-one, absurd_some, Proceeds,
}
use i_tcp.Tcp.Transfer.{DataOut, AckOut, Delivered, taken, data_step, ack_step}

-- At most `m` deliveries are left.
pub data Sending (data' : Buffer) (n m : ℕ) (p : Peers) : Type 0 where
  data_out : (w : ℕ) → 2 * (n - w) ≤ m → DataOut data' n w p → Sending data' n m p
  ack_out : (w : ℕ) → 2 * (n - w) < m → AckOut data' n w p → Sending data' n m p
  delivered : Delivered data' n p → Sending data' n m p

-- What the server has is a prefix of what the client writes.
abbrev pub HasPrefix : Buffer → ℕ → Peers → Type 0
HasPrefix data' n p =
    (w : ℕ) × (w ≤ n) × (p.server.sizep ≡ w) × ((i : ℕ) → i < w → p.server.databuf i ≡ data' i)

module _ (data' : Buffer) (n : ℕ) where
  pub Delivered-waits : (p : Peers) (d : Delivery) → Delivered data' n p → deliver p d ≡ none
  Delivered-waits p (at_server i tmp) v = server_waits p i tmp (pick-nil p.to_server i v.idle.0)
  Delivered-waits p (at_client i tmp) v = client_waits p i tmp (pick-nil p.to_client i v.idle.1)

  module _ (fits : n ≤ buf_size) where
    pub Sending-step :
        (m : ℕ) (p : Peers) (d : Delivery) {p' : Peers}
        → deliver p d ≡ some p'
        → Sending data' n m p
        → (k : ℕ) × (k < m) × Sending data' n k p'
    Sending-step m p d h (data_out w b v) =
        let (sum, grows, within) = taken data' n w p v in
        let q : w < n = v.more in
        (
          2 * (n - w) - 1,
          omega arith,
          ack_out (w + chunk (n - w)) (omega arith) (data_step data' n fits w p d h v),
        )
    Sending-step m p d h (ack_out w b v) = elim (ack_step data' n fits w p d h v) [
      | inl (q, out) ↦ (2 * (n - w), b, data_out w (omega arith) out)
      | inr (e, done) ↦ (0, omega arith, delivered done)
    ]
    Sending-step m p d h (delivered v) = absurd_some h (Delivered-waits p d v)

    Sending-all :
        (m : ℕ) (p : Peers) (ds : List Delivery) {p' : Peers}
        → deliver_all p ds ≡ some p'
        → Sending data' n m p
        → (k : ℕ) × (k + length ds ≤ m) × Sending data' n k p'
    unfolding deliver_all
    Sending-all m p [] h v = (m, omega arith, subst (Sending data' n m) (cc h) v)
    Sending-all m p (d ∷ ds) h v =
        let (q, a, b) = >>=-eq-some (deliver p d) (λ q. deliver_all q ds) h in
        let (j, below, u) = Sending-step m p d a v in
        let (k, le, r) = Sending-all j q ds b u in (k, omega arith, r)

    pub data-Proceeds : (w : ℕ) (p : Peers) → DataOut data' n w p → Proceeds p
    data-Proceeds w p v =
        let (sum, grows, within) = taken data' n w p v in
        (
          at_server 0 0,
          _,
          server_takes p 0 0 v.g [] _ _ (pick-one p.to_server v.g v.out)
              (takes_data p.server v.g 0 v.sync.server_status v.flag (omega arith)),
        )

    pub ack-Proceeds : (w : ℕ) (p : Peers) → AckOut data' n w p → Proceeds p
    ack-Proceeds w p v = elim (dec_lt w n) [
      | yes q ↦ (
        at_client 0 0,
        _,
        client_takes p 0 0 v.g [] _ _ (pick-one p.to_client v.g v.out) (
            takes_ack p.client v.g 0 v.sync.client_status v.flag v.sync.client_role
              (omega (arith, v.ack, v.sync.client_size)) (omega (arith, v.sync.client_size))),
      )
      | no q ↦
          let e : w ≡ n = omega (arith, v.within) in
          (
            at_client 0 0,
            _,
            client_takes p 0 0 v.g [] _ _ (pick-one p.to_client v.g v.out) (
                takes_last_ack p.client v.g 0 v.sync.client_status v.flag v.sync.client_role
                  (omega (arith, v.ack, v.sync.client_size))),
          )
    ]

-- A client that writes `n` bytes, of which the server has the first `w` and the next chunk is in
-- flight, delivers the stream if it fits into databuf: after any deliveries, of whatever packets in
-- whatever order, either fewer than `2 * (n - w)` were made, the server has a prefix of the stream
-- and a further delivery is possible without fault, or the server has all `n` bytes in their order,
-- the client's `writep` is `n`, and nothing is in flight.
pub transfer :
    (data' : Buffer) (n w : ℕ) (p : Peers) (ds : List Delivery) {p' : Peers}
    → n ≤ buf_size
    → DataOut data' n w p
    → deliver_all p ds ≡ some p'
    → ((length ds < 2 * (n - w)) × HasPrefix data' n p' × Proceeds p') ⊎ Delivered data' n p'
transfer data' n w p ds {p'} fits v h =
    let (k, le, left) =
      Sending-all data' n fits (2 * (n - w)) p ds h (data_out w (omega arith) v) in
    elim left [
      | data_out u b out ↦
          let q : u < n = out.more in
          inl (
            omega arith,
            (u, omega arith, out.sync.server_size, out.sync.agree),
            data-Proceeds data' n fits u p' out,
          )
      | ack_out u b out ↦ inl (
        omega arith,
        (u, out.within, out.sync.server_size, out.sync.agree),
        ack-Proceeds data' n fits u p' out,
      )
      | delivered done ↦ inr done
    ]

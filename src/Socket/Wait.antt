-- ===== src/Socket/Wait.antt =====
-- The wait of __wrap_write (src/socket.cc): writep and sizep of the writing socket during a transfer.
use mathlib.Core.Path.{subst}
use native.Mathlib.Decide.{dec_lt}
use i_tcp.Common.{
  ℕ, zero, suc, ◌≤◌, ◌<◌, ◌≡◌, some, List, [], ◌∷◌, arith, ◌⊎◌, inl, inr, >>=-eq-some,
}
use i_tcp.Tcp.Types.{Buffer, buf_size}
use i_tcp.Tcp.Handler.{handle}
use i_tcp.Tcp.Chunks.{takes_ack, takes_last_ack}
use i_tcp.Tcp.Peers.{
  Peers, Delivery, at_server, at_client, pick, deliver, deliver_all, client_takes, server_waits,
  client_waits, pick-nil, pick-one, pick-beyond, lands, absurd_some,
}
use i_tcp.Tcp.Transfer.{AckOut, Delivered, data_step, ack_step}
use i_tcp.Tcp.Stream.{Sending, Sending-step, Delivered-waits}

client_stays :
    (p : Peers) (i tmp : ℕ) {p' : Peers}
    → deliver p (at_server i tmp) ≡ some p'
    → p.client.writep ≡ p'.client.writep
unfolding deliver
client_stays p i tmp h =
    let ((g, rest), a, b) = >>=-eq-some (pick p.to_server i) _ h in
    let ((s, out), c, e) = >>=-eq-some (handle p.server g tmp) _ b in cc e

module _ (data' : Buffer) (n : ℕ) (fits : n ≤ buf_size) where
  acknowledged :
      (w : ℕ) (p : Peers) (d : Delivery) {p' : Peers}
      → deliver p d ≡ some p'
      → AckOut data' n w p
      → p'.client.writep ≡ w
  acknowledged w p (at_server i tmp) h v =
      absurd_some h (server_waits p i tmp (pick-nil p.to_server i v.quiet))
  acknowledged w p (at_client (suc i) tmp) h v =
      absurd_some h (client_waits p (suc i) tmp (pick-beyond p.to_client v.g i v.out))
  acknowledged w p (at_client zero tmp) {p'} h v = elim (dec_lt w n) [
    | yes q ↦
        lands p' _ (λ q. q.client.writep ≡ w) _ h
          (client_takes p 0 tmp v.g [] _ _ (pick-one p.to_client v.g v.out) (
            takes_ack p.client v.g tmp v.sync.client_status v.flag v.sync.client_role
              (omega (arith, v.ack, v.sync.client_size)) (omega (arith, v.sync.client_size))))
          v.ack
    | no q ↦
        let e : w ≡ n = omega (arith, v.within) in
        lands p' _ (λ q. q.client.writep ≡ w) _ h
          (client_takes p 0 tmp v.g [] _ _ (pick-one p.to_client v.g v.out) (
            takes_last_ack p.client v.g tmp v.sync.client_status v.flag v.sync.client_role
              (omega (arith, v.ack, v.sync.client_size))))
          v.ack
  ]

  module _ (early : Type 0) where
    abbrev pub Waits : Peers → Type 0
    Waits p = ((p.client.writep < n) × (p.client.sizep ≡ n)) ⊎ early

    pub Waits-step :
        (m : ℕ) (p : Peers) (d : Delivery) {p' : Peers}
        → deliver p d ≡ some p'
        → Sending data' n m p
        → Waits p
        → Delivered data' n p' ⊎ Waits p'
    Waits-step m p (at_server i tmp) h (Sending.data_out w b v) u = inr (elim u [
      | inl (low, _) ↦ inl (
        omega (arith, client_stays p i tmp h),
        (data_step data' n fits w p (at_server i tmp) h v).sync.client_size,
      )
      | inr e ↦ inr e
    ])
    Waits-step m p (at_client i tmp) h (Sending.data_out w b v) u =
        absurd_some h (client_waits p i tmp (pick-nil p.to_client i v.quiet))
    Waits-step m p d h (Sending.ack_out w b v) u = elim (ack_step data' n fits w p d h v) [
      | inl (q, out) ↦ inr (inl (omega (arith, acknowledged w p d h v), out.sync.client_size))
      | inr (e, done) ↦ inl done
    ]
    Waits-step m p d h (Sending.delivered v) u = absurd_some h (Delivered-waits data' n p d v)

    pub Waits-all :
        (m : ℕ) (p : Peers) (ds : List Delivery) {p' : Peers}
        → deliver_all p ds ≡ some p'
        → Sending data' n m p
        → Delivered data' n p ⊎ Waits p
        → Delivered data' n p' ⊎ Waits p'
    unfolding deliver_all
    Waits-all m p [] h v u = subst (λ q. Delivered data' n q ⊎ Waits q) (cc h) u
    Waits-all m p (d ∷ ds) h v (inl done) =
        let (q, a, _) = >>=-eq-some (deliver p d) (λ q. deliver_all q ds) h in
        absurd_some a (Delivered-waits data' n p d done)
    Waits-all m p (d ∷ ds) h v (inr u) =
        let (q, a, b) = >>=-eq-some (deliver p d) (λ q. deliver_all q ds) h in
        let (k, below, r) = Sending-step data' n fits m p d a v in
        Waits-all k q ds b r (Waits-step m p d a v u)

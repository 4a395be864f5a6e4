-- ===== src/Tcp/Handshake.antt =====
-- Opening a connection: connect on one side, accept on the other (src/socket.cc, src/tcp.cc).
use mathlib.Core.Path.{subst}
use i_tcp.Common.{
  ℕ, zero, suc, ◌+◌, ◌<◌, ◌≡◌, refl, true, some, List, [], ◌∷◌, length, arith, ◌⊎◌, inl, inr,
  >>=-eq-some,
}
use i_tcp.Word.{set_syn, set_ack}
use i_tcp.Tcp.Types.{listen, syn_sent, syn_rcvd, estab, MySocket, Segment, set_status}
use i_tcp.Tcp.Untouched.{
  Unwritten, same_data, adopt-Unwritten, Untouched, Untouched-refl, Untouched-trans,
}
use i_tcp.Tcp.Handler.{answer, adopt}
use i_tcp.Tcp.Events.{at_listen, at_syn_sent, at_syn_rcvd}
use i_tcp.Tcp.Wire.{segment_of}
use i_tcp.Tcp.Peers.{
  Peers, Delivery, at_server, at_client, deliver, deliver_all, server_takes, client_takes,
  server_waits, client_waits, pick-nil, pick-one, pick-beyond, lands, absurd_some, One, Proceeds,
}

-- How far the handshake has come after so many deliveries.
abbrev Opening : ℕ → Peers → Type 0
Opening zero p =
    (p.client.tcb.status ≡ syn_sent)
    × (p.server.tcb.status ≡ listen)
    × One p.to_server (set_syn 0)
    × (p.to_client ≡ [])
Opening (suc zero) p =
    (p.client.tcb.status ≡ syn_sent)
    × (p.server.tcb.status ≡ syn_rcvd)
    × (p.to_server ≡ [])
    × One p.to_client (set_ack (set_syn 0))
    × (p.server.acc_syn_ready ≡ true)
Opening (suc (suc zero)) p =
    (p.client.tcb.status ≡ estab)
    × (p.server.tcb.status ≡ syn_rcvd)
    × One p.to_server (set_ack 0)
    × (p.to_client ≡ [])
    × (p.client.conn_ready ≡ true)
    × (p.server.acc_syn_ready ≡ true)
Opening (suc (suc (suc zero))) p =
    (p.client.tcb.status ≡ estab)
    × (p.server.tcb.status ≡ estab)
    × (p.to_server ≡ [])
    × (p.to_client ≡ [])
    × (p.client.conn_ready ≡ true)
    × (p.server.acc_syn_ready ≡ true)
    × (p.server.acc_ack_ready ≡ true)
Opening _ p = ⊥

opened_data :
    (s : MySocket) (g : Segment)
    → Unwritten s (record (set_status (adopt s g) estab) { conn_ready = true })
opened_data s g =
    let u = adopt-Unwritten s g in
    record { databuf = u.databuf; sizep = u.sizep; writep = u.writep }

Opening-step :
    (k : ℕ) (p : Peers) (d : Delivery) {p' : Peers}
    → deliver p d ≡ some p'
    → Opening k p
    → Opening (suc k) p' × Untouched p p'
Opening-step zero p (at_server zero tmp) {p'} h (c, s, (g, ts, f), tc) =
    lands p' _ (λ q. Opening 1 q × Untouched p q) _ h
      (server_takes p 0 tmp g [] _ _ (pick-one p.to_server g ts) (at_listen p.server g tmp s f))
      (
        (c, refl, refl, (segment_of (answer g tmp (set_ack (set_syn 0))), rw tc, refl), refl),
        record {
          client = same_data p.client;
          server = record { databuf = refl; sizep = refl; writep = refl };
        },
      )
Opening-step zero p (at_server (suc i) tmp) h (c, s, (g, ts, f), tc) =
    absurd_some h (server_waits p (suc i) tmp (pick-beyond p.to_server g i ts))
Opening-step zero p (at_client i tmp) h (c, s, one, tc) =
    absurd_some h (client_waits p i tmp (pick-nil p.to_client i tc))
Opening-step (suc zero) p (at_client zero tmp) {p'} h (c, s, ts, (g, tc, f), r) =
    lands p' _ (λ q. Opening 2 q × Untouched p q) _ h
      (client_takes p 0 tmp g [] _ _ (pick-one p.to_client g tc) (at_syn_sent p.client g tmp c f))
      (
        (refl, s, (segment_of (answer g tmp (set_ack 0)), rw ts, refl), refl, refl, r),
        record { client = opened_data p.client g; server = same_data p.server },
      )
Opening-step (suc zero) p (at_client (suc i) tmp) h (c, s, ts, (g, tc, f), r) =
    absurd_some h (client_waits p (suc i) tmp (pick-beyond p.to_client g i tc))
Opening-step (suc zero) p (at_server i tmp) h (c, s, ts, one, r) =
    absurd_some h (server_waits p i tmp (pick-nil p.to_server i ts))
Opening-step (suc (suc zero)) p (at_server zero tmp) {p'} h (c, s, (g, ts, f), tc, r, a) =
    lands p' _ (λ q. Opening 3 q × Untouched p q) _ h
      (server_takes p 0 tmp g [] _ _ (pick-one p.to_server g ts) (at_syn_rcvd p.server g tmp s f))
      (
        (c, refl, refl, rw tc, r, a, refl),
        record {
          client = same_data p.client;
          server = record { databuf = refl; sizep = refl; writep = refl };
        },
      )
Opening-step (suc (suc zero)) p (at_server (suc i) tmp) h (c, s, (g, ts, f), tc, r, a) =
    absurd_some h (server_waits p (suc i) tmp (pick-beyond p.to_server g i ts))
Opening-step (suc (suc zero)) p (at_client i tmp) h (c, s, one, tc, r, a) =
    absurd_some h (client_waits p i tmp (pick-nil p.to_client i tc))
Opening-step (suc (suc (suc zero))) p (at_server i tmp) h (c, s, ts, tc, r, a, b) =
    absurd_some h (server_waits p i tmp (pick-nil p.to_server i ts))
Opening-step (suc (suc (suc zero))) p (at_client i tmp) h (c, s, ts, tc, r, a, b) =
    absurd_some h (client_waits p i tmp (pick-nil p.to_client i tc))
Opening-step (suc (suc (suc (suc k)))) p d h v = absurd v

Opening-all :
    (k : ℕ) (p : Peers) (ds : List Delivery) {p' : Peers}
    → deliver_all p ds ≡ some p'
    → Opening k p
    → Opening (length ds + k) p' × Untouched p p'
unfolding deliver_all
Opening-all k p [] {p'} h v =
    let e : p ≡ p' = cc h in
    let n : k ≡ 0 + k = omega arith in
    subst (λ q. Opening (0 + k) q × Untouched p q) e
      (subst (λ j. Opening j p) n v, Untouched-refl p)
Opening-all k p (d ∷ ds) {p'} h v =
    let (q, a, b) = >>=-eq-some (deliver p d) (λ q. deliver_all q ds) h in
    let n : length ds + suc k ≡ suc (length ds) + k = omega arith in
    let (u, same) = Opening-step k p d a v in
    let (w, rest) = Opening-all (suc k) q ds b u in
    (subst (λ j. Opening j p') n w, Untouched-trans same rest)

-- Both sides have an established connection, the flags that connect and accept wait for
-- are set, and nothing is in flight.
abbrev pub Opened : Peers → Type 0
Opened p =
    ((p.client.tcb.status ≡ estab) × (p.server.tcb.status ≡ estab))
    × ((p.client.conn_ready ≡ true)
        × (p.server.acc_syn_ready ≡ true)
        × (p.server.acc_ack_ready ≡ true))
    × ((p.to_server ≡ []) × (p.to_client ≡ []))

Opening-progress : (k : ℕ) (p : Peers) → Opening k p → ((k < 3) × Proceeds p) ⊎ ((k ≡ 3) × Opened p)
Opening-progress zero p (c, s, (g, ts, f), tc) = inl (
  omega arith,
  (
    at_server 0 0,
    _,
    server_takes p 0 0 g [] _ _ (pick-one p.to_server g ts) (at_listen p.server g 0 s f),
  ),
)
Opening-progress (suc zero) p (c, s, ts, (g, tc, f), r) = inl (
  omega arith,
  (
    at_client 0 0,
    _,
    client_takes p 0 0 g [] _ _ (pick-one p.to_client g tc) (at_syn_sent p.client g 0 c f),
  ),
)
Opening-progress (suc (suc zero)) p (c, s, (g, ts, f), tc, r, a) = inl (
  omega arith,
  (
    at_server 0 0,
    _,
    server_takes p 0 0 g [] _ _ (pick-one p.to_server g ts) (at_syn_rcvd p.server g 0 s f),
  ),
)
Opening-progress (suc (suc (suc zero))) p (c, s, ts, tc, r, a, b) =
    inr (refl, ((c, s), (r, a, b), (ts, tc)))
Opening-progress (suc (suc (suc (suc k)))) p v = absurd v

-- A client that has sent its SYN and a server that listens complete the three-way handshake in
-- exactly three deliveries: after any deliveries, of whatever packets in whatever order, either fewer
-- than three were made and a further one is possible without fault, or exactly three were made, and
-- then both sides are established, conn_ready, acc_syn_ready and acc_ack_ready, which connect and
-- accept wait for, are set, no packet is in flight, and neither side has stored or sent data.
pub handshake :
    (p : Peers) (syn : Segment) (ds : List Delivery) {p' : Peers}
    → p.client.tcb.status ≡ syn_sent
    → p.server.tcb.status ≡ listen
    → p.to_server ≡ syn ∷ []
    → syn.flag ≡ set_syn 0
    → p.to_client ≡ []
    → deliver_all p ds ≡ some p'
    → ((length ds < 3) × Proceeds p') ⊎ ((length ds ≡ 3) × Opened p' × Untouched p p')
handshake p syn ds {p'} c s ts f tc h =
    let n : length ds + 0 ≡ length ds = omega arith in
    let (v, same) = Opening-all 0 p ds h (c, s, (syn, ts, f), tc) in
    elim (Opening-progress (length ds) p' (subst (λ k. Opening k p') n v)) [
      | inl (few, more) ↦ inl (few, more)
      | inr (three, opened) ↦ inr (three, opened, same)
    ]

-- ===== src/Tcp/Teardown.antt =====
-- Closing a connection from the client's side (__wrap_close in src/socket.cc, src/tcp.cc).
use mathlib.Core.Path.{subst}
use i_tcp.Common.{
  ℕ, zero, suc, ◌+◌, ◌<◌, ◌≡◌, refl, some, List, [], ◌∷◌, length, arith, ◌⊎◌, inl, inr, >>=-eq-some,
}
use i_tcp.Word.{set_fin, set_ack}
use i_tcp.Tcp.Types.{closed, estab, fin_wait1, fin_wait2, last_ack, closing, time_wait, Segment}
use i_tcp.Tcp.Handler.{answer}
use i_tcp.Tcp.Events.{
  at_estab_fin, at_fin_wait1_fin, at_fin_wait2_fin, at_fin_wait1_ack, at_closing_ack, at_last_ack,
}
use i_tcp.Tcp.Wire.{segment_of}
use i_tcp.Tcp.Peers.{
  Peers, Delivery, at_server, at_client, deliver, deliver_all, server_takes, client_takes,
  server_waits, client_waits, pick-nil, pick-one, pick-beyond, pick_first, pick_second, pick_third,
  lands, absurd_some, One, Proceeds,
}

-- The server has answered the FIN by an ACK and its own FIN, and both are in flight.
abbrev Answered : Peers → Type 0
Answered p =
    (p.client.tcb.status ≡ fin_wait1)
    × (p.server.tcb.status ≡ last_ack)
    × (p.to_server ≡ [])
    × ((a : Segment) × (f : Segment) × (p.to_client ≡ a ∷ f ∷ [])
        × (a.flag ≡ set_ack 0)
        × (f.flag ≡ set_fin 0))

-- The ACK came first.
abbrev AckFirst : Peers → Type 0
AckFirst p =
    (p.client.tcb.status ≡ fin_wait2)
    × (p.server.tcb.status ≡ last_ack)
    × (p.to_server ≡ [])
    × One p.to_client (set_fin 0)

-- The FIN overtook the ACK.
abbrev FinFirst : Peers → Type 0
FinFirst p =
    (p.client.tcb.status ≡ closing)
    × (p.server.tcb.status ≡ last_ack)
    × One p.to_server (set_ack 0)
    × One p.to_client (set_ack 0)

abbrev LastAck : Peers → Type 0
LastAck p =
    (p.client.tcb.status ≡ time_wait)
    × (p.server.tcb.status ≡ last_ack)
    × One p.to_server (set_ack 0)
    × (p.to_client ≡ [])

abbrev LateAck : Peers → Type 0
LateAck p =
    (p.client.tcb.status ≡ closing)
    × (p.server.tcb.status ≡ closed)
    × (p.to_server ≡ [])
    × One p.to_client (set_ack 0)

-- The states for which close waits on the two sides, with nothing in flight.
abbrev pub Closed : Peers → Type 0
Closed p =
    (p.client.tcb.status ≡ time_wait)
    × (p.server.tcb.status ≡ closed)
    × (p.to_server ≡ [])
    × (p.to_client ≡ [])

-- How far the teardown has come after so many deliveries.
abbrev pub Leaving : ℕ → Peers → Type 0
Leaving zero p =
    (p.client.tcb.status ≡ fin_wait1)
    × (p.server.tcb.status ≡ estab)
    × One p.to_server (set_fin 0)
    × (p.to_client ≡ [])
Leaving (suc zero) p = Answered p
Leaving (suc (suc zero)) p = AckFirst p ⊎ FinFirst p
Leaving (suc (suc (suc zero))) p = LastAck p ⊎ LateAck p
Leaving (suc (suc (suc (suc zero)))) p = Closed p
Leaving _ p = ⊥

start_step :
    (p : Peers) (d : Delivery) {p' : Peers} → deliver p d ≡ some p' → Leaving 0 p → Answered p'
start_step p (at_server zero tmp) {p'} h (c, s, (g, ts, f), tc) =
    lands p' _ Answered _ h
      (server_takes p 0 tmp g [] _ _ (pick-one p.to_server g ts) (at_estab_fin p.server g tmp s f))
      (
        c,
        refl,
        refl,
        (
          segment_of (answer g tmp (set_ack 0)),
          segment_of (answer g tmp (set_fin 0)),
          rw tc,
          refl,
          refl,
        ),
      )
start_step p (at_server (suc i) tmp) h (c, s, (g, ts, f), tc) =
    absurd_some h (server_waits p (suc i) tmp (pick-beyond p.to_server g i ts))
start_step p (at_client i tmp) h (c, s, one, tc) =
    absurd_some h (client_waits p i tmp (pick-nil p.to_client i tc))

Answered-step :
    (p : Peers) (d : Delivery) {p' : Peers}
    → deliver p d ≡ some p'
    → Answered p
    → AckFirst p' ⊎ FinFirst p'
Answered-step p (at_client zero tmp) {p'} h (c, s, ts, (a, f, tc, fa, ff)) = inl (
    lands p' _ AckFirst _ h
      (client_takes p 0 tmp a (f ∷ []) _ _ (pick_first p.to_client a f tc)
        (at_fin_wait1_ack p.client a tmp c fa))
      (refl, s, rw ts, (f, refl, ff)))
Answered-step p (at_client (suc zero) tmp) {p'} h (c, s, ts, (a, f, tc, fa, ff)) = inr (
    lands p' _ FinFirst _ h
      (client_takes p 1 tmp f (a ∷ []) _ _ (pick_second p.to_client a f tc)
        (at_fin_wait1_fin p.client f tmp c ff))
      (refl, s, (segment_of (answer f tmp (set_ack 0)), rw ts, refl), (a, refl, fa)))
Answered-step p (at_client (suc (suc i)) tmp) h (c, s, ts, (a, f, tc, fa, ff)) =
    absurd_some h (client_waits p (suc (suc i)) tmp (pick_third p.to_client a f i tc))
Answered-step p (at_server i tmp) h (c, s, ts, both) =
    absurd_some h (server_waits p i tmp (pick-nil p.to_server i ts))

AckFirst-step :
    (p : Peers) (d : Delivery) {p' : Peers} → deliver p d ≡ some p' → AckFirst p → LastAck p'
AckFirst-step p (at_client zero tmp) {p'} h (c, s, ts, (f, tc, ff)) =
    lands p' _ LastAck _ h
      (client_takes p 0 tmp f [] _ _ (pick-one p.to_client f tc)
        (at_fin_wait2_fin p.client f tmp c ff))
      (refl, s, (segment_of (answer f tmp (set_ack 0)), rw ts, refl), refl)
AckFirst-step p (at_client (suc i) tmp) h (c, s, ts, (f, tc, ff)) =
    absurd_some h (client_waits p (suc i) tmp (pick-beyond p.to_client f i tc))
AckFirst-step p (at_server i tmp) h (c, s, ts, one) =
    absurd_some h (server_waits p i tmp (pick-nil p.to_server i ts))

FinFirst-step :
    (p : Peers) (d : Delivery) {p' : Peers}
    → deliver p d ≡ some p'
    → FinFirst p
    → LastAck p' ⊎ LateAck p'
FinFirst-step p (at_client zero tmp) {p'} h (c, s, (b, ts, fb), (a, tc, fa)) = inl (
    lands p' _ LastAck _ h
      (client_takes p 0 tmp a [] _ _ (pick-one p.to_client a tc)
        (at_closing_ack p.client a tmp c fa))
      (refl, s, (b, rw ts, fb), refl))
FinFirst-step p (at_client (suc i) tmp) h (c, s, one, (a, tc, fa)) =
    absurd_some h (client_waits p (suc i) tmp (pick-beyond p.to_client a i tc))
FinFirst-step p (at_server zero tmp) {p'} h (c, s, (b, ts, fb), (a, tc, fa)) = inr (
    lands p' _ LateAck _ h
      (server_takes p 0 tmp b [] _ _ (pick-one p.to_server b ts) (at_last_ack p.server b tmp s fb))
      (c, refl, refl, (a, rw tc, fa)))
FinFirst-step p (at_server (suc i) tmp) h (c, s, (b, ts, fb), one) =
    absurd_some h (server_waits p (suc i) tmp (pick-beyond p.to_server b i ts))

LastAck-step :
    (p : Peers) (d : Delivery) {p' : Peers} → deliver p d ≡ some p' → LastAck p → Closed p'
LastAck-step p (at_server zero tmp) {p'} h (c, s, (b, ts, fb), tc) =
    lands p' _ Closed _ h
      (server_takes p 0 tmp b [] _ _ (pick-one p.to_server b ts) (at_last_ack p.server b tmp s fb))
      (c, refl, refl, rw tc)
LastAck-step p (at_server (suc i) tmp) h (c, s, (b, ts, fb), tc) =
    absurd_some h (server_waits p (suc i) tmp (pick-beyond p.to_server b i ts))
LastAck-step p (at_client i tmp) h (c, s, one, tc) =
    absurd_some h (client_waits p i tmp (pick-nil p.to_client i tc))

LateAck-step :
    (p : Peers) (d : Delivery) {p' : Peers} → deliver p d ≡ some p' → LateAck p → Closed p'
LateAck-step p (at_client zero tmp) {p'} h (c, s, ts, (a, tc, fa)) =
    lands p' _ Closed _ h
      (client_takes p 0 tmp a [] _ _ (pick-one p.to_client a tc)
        (at_closing_ack p.client a tmp c fa))
      (refl, s, rw ts, refl)
LateAck-step p (at_client (suc i) tmp) h (c, s, ts, (a, tc, fa)) =
    absurd_some h (client_waits p (suc i) tmp (pick-beyond p.to_client a i tc))
LateAck-step p (at_server i tmp) h (c, s, ts, one) =
    absurd_some h (server_waits p i tmp (pick-nil p.to_server i ts))

Closed-step : (p : Peers) (d : Delivery) {p' : Peers} → deliver p d ≡ some p' → Closed p → ⊥
Closed-step p (at_server i tmp) h (c, s, ts, tc) =
    absurd_some h (server_waits p i tmp (pick-nil p.to_server i ts))
Closed-step p (at_client i tmp) h (c, s, ts, tc) =
    absurd_some h (client_waits p i tmp (pick-nil p.to_client i tc))

pub Leaving-step :
    (k : ℕ) (p : Peers) (d : Delivery) {p' : Peers}
    → deliver p d ≡ some p'
    → Leaving k p
    → Leaving (suc k) p'
Leaving-step zero p d h v = start_step p d h v
Leaving-step (suc zero) p d h v = Answered-step p d h v
Leaving-step (suc (suc zero)) p d h (inl v) = inl (AckFirst-step p d h v)
Leaving-step (suc (suc zero)) p d h (inr v) = FinFirst-step p d h v
Leaving-step (suc (suc (suc zero))) p d h (inl v) = LastAck-step p d h v
Leaving-step (suc (suc (suc zero))) p d h (inr v) = LateAck-step p d h v
Leaving-step (suc (suc (suc (suc zero)))) p d h v = Closed-step p d h v
Leaving-step (suc (suc (suc (suc (suc k))))) p d h v = absurd v

Leaving-all :
    (k : ℕ) (p : Peers) (ds : List Delivery) {p' : Peers}
    → deliver_all p ds ≡ some p'
    → Leaving k p
    → Leaving (length ds + k) p'
unfolding deliver_all
Leaving-all k p [] {p'} h v =
    let e : p ≡ p' = cc h in
    let n : k ≡ 0 + k = omega arith in
    subst (λ q. Leaving (0 + k) q) e (subst (λ j. Leaving j p) n v)
Leaving-all k p (d ∷ ds) {p'} h v =
    let (q, a, b) = >>=-eq-some (deliver p d) (λ q. deliver_all q ds) h in
    let n : length ds + suc k ≡ suc (length ds) + k = omega arith in
    subst (λ j. Leaving j p') n (Leaving-all (suc k) q ds b (Leaving-step k p d a v))

pub Leaving-progress :
    (k : ℕ) (p : Peers) → Leaving k p → ((k < 4) × Proceeds p) ⊎ ((k ≡ 4) × Closed p)
Leaving-progress zero p (c, s, (g, ts, f), tc) = inl (
  omega arith,
  (
    at_server 0 0,
    _,
    server_takes p 0 0 g [] _ _ (pick-one p.to_server g ts) (at_estab_fin p.server g 0 s f),
  ),
)
Leaving-progress (suc zero) p (c, s, ts, (a, f, tc, fa, ff)) = inl (
  omega arith,
  (
    at_client 0 0,
    _,
    client_takes p 0 0 a (f ∷ []) _ _ (pick_first p.to_client a f tc)
        (at_fin_wait1_ack p.client a 0 c fa),
  ),
)
Leaving-progress (suc (suc zero)) p (inl (c, s, ts, (f, tc, ff))) = inl (
  omega arith,
  (
    at_client 0 0,
    _,
    client_takes p 0 0 f [] _ _ (pick-one p.to_client f tc) (at_fin_wait2_fin p.client f 0 c ff),
  ),
)
Leaving-progress (suc (suc zero)) p (inr (c, s, one, (a, tc, fa))) = inl (
  omega arith,
  (
    at_client 0 0,
    _,
    client_takes p 0 0 a [] _ _ (pick-one p.to_client a tc) (at_closing_ack p.client a 0 c fa),
  ),
)
Leaving-progress (suc (suc (suc zero))) p (inl (c, s, (b, ts, fb), tc)) = inl (
  omega arith,
  (
    at_server 0 0,
    _,
    server_takes p 0 0 b [] _ _ (pick-one p.to_server b ts) (at_last_ack p.server b 0 s fb),
  ),
)
Leaving-progress (suc (suc (suc zero))) p (inr (c, s, ts, (a, tc, fa))) = inl (
  omega arith,
  (
    at_client 0 0,
    _,
    client_takes p 0 0 a [] _ _ (pick-one p.to_client a tc) (at_closing_ack p.client a 0 c fa),
  ),
)
Leaving-progress (suc (suc (suc (suc zero)))) p v = inr (refl, v)
Leaving-progress (suc (suc (suc (suc (suc k))))) p v = absurd v

-- A client in FINWAIT1 whose FIN is in flight and an established server close the connection in
-- exactly four deliveries, in whatever order the network makes them, also where the server's FIN
-- overtakes its ACK: after any deliveries, either fewer than four were made and a further one is
-- possible without fault, or exactly four were made, and then the client is in TIMEWAIT and the
-- server CLOSED, and no packet is in flight.
pub teardown :
    (p : Peers) (fin : Segment) (ds : List Delivery) {p' : Peers}
    → p.client.tcb.status ≡ fin_wait1
    → p.server.tcb.status ≡ estab
    → p.to_server ≡ fin ∷ []
    → fin.flag ≡ set_fin 0
    → p.to_client ≡ []
    → deliver_all p ds ≡ some p'
    → ((length ds < 4) × Proceeds p') ⊎ ((length ds ≡ 4) × Closed p')
teardown p fin ds {p'} c s ts f tc h =
    let n : length ds + 0 ≡ length ds = omega arith in
    Leaving-progress (length ds) p'
      (subst (λ k. Leaving k p') n (Leaving-all 0 p ds h (c, s, (fin, ts, f), tc)))

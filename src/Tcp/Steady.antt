-- ===== src/Tcp/Steady.antt =====
-- How far a socket has been read, and its roles, while it handles packets (src/tcp.cc).
use mathlib.Core.Path.{subst}
use i_tcp.Common.{ℕ, ◌≡◌, refl, ◌∙◌, some, List, [], ◌∷◌, length, arith, >>=-eq-some, ◌++◌, map}
use i_tcp.Tcp.Types.{Status, unset, MySocket, Segment, Reply, Tuple4}
use i_tcp.Tcp.Data.{recv_tcp_packet, recv_ack, recv_data}
use i_tcp.Tcp.Handler.{handle, adopt, by_flags}
use i_tcp.Tcp.Wire.{segment_of}
use i_tcp.Tcp.Peers.{Peers, Delivery, at_server, at_client, pick, deliver, deliver_all}

pub record Steady (s s' : MySocket) : Type 0 where
  pub readp : s'.readp ≡ s.readp
  pub role : s'.role ≡ s.role
  pub tcb_role : s'.tcb.role ≡ s.tcb.role

Steady-trans : {s t u : MySocket} → Steady s t → Steady t u → Steady s u
Steady-trans a b = record {
  readp = b.readp ∙ a.readp;
  role = b.role ∙ a.role;
  tcb_role = b.tcb_role ∙ a.tcb_role;
}

pub Steady-refl : (s : MySocket) → Steady s s
Steady-refl s = record { readp = refl; role = refl; tcb_role = refl }

recv_tcp_packet-Steady :
    (s : MySocket) (buf : List ℕ) (len : ℕ) (info : Tuple4) (seq ack flag tmp : ℕ) {s' : MySocket}
    {out : List Reply}
    → recv_tcp_packet s buf len info seq ack flag tmp ≡ some (s', out)
    → Steady s s'
unfolding recv_tcp_packet recv_ack recv_data
recv_tcp_packet-Steady s buf len info seq ack flag tmp h = ground arith

adopt-Steady : (s : MySocket) (g : Segment) → Steady s (adopt s g)
unfolding adopt
adopt-Steady s g = ground arith

by_flags-Steady :
    (a : Status) (s : MySocket) (g : Segment) (tmp : ℕ) {s' : MySocket} {out : List Reply}
    → by_flags a s g tmp ≡ some (s', out)
    → Steady s s'
unfolding by_flags
by_flags-Steady unset s g tmp {s'} {out} h = ground (
  arith,
  recv_tcp_packet-Steady s g.payload (length g.payload) g.info g.seq g.ack g.flag tmp {s' = s'}
      {out = out},
)
by_flags-Steady _ s g tmp {s'} {out} h = ground (
  arith,
  recv_tcp_packet-Steady s g.payload (length g.payload) g.info g.seq g.ack g.flag tmp {s' = s'}
      {out = out},
)

handle-Steady :
    (s : MySocket) (g : Segment) (tmp : ℕ) {s' : MySocket} {out : List Reply}
    → handle s g tmp ≡ some (s', out)
    → Steady s s'
unfolding handle
handle-Steady s g tmp h =
    Steady-trans (adopt-Steady s g) (by_flags-Steady s.tcb.status (adopt s g) g tmp h)

-- What no delivery changes in either of two sockets.
pub record BothSteady (p p' : Peers) : Type 0 where
  pub client : Steady p.client p'.client
  pub server : Steady p.server p'.server

pub deliver-BothSteady :
    (p : Peers) (d : Delivery) {p' : Peers} → deliver p d ≡ some p' → BothSteady p p'
unfolding deliver
deliver-BothSteady p (at_server i tmp) {p'} h =
    let ((g, rest), a, b) = >>=-eq-some (pick p.to_server i) _ h in
    let ((s, out), c, e) = >>=-eq-some (handle p.server g tmp) _ b in
    let q : Peers = record p {
      server = s;
      to_server = rest;
      to_client = p.to_client ++ map segment_of out;
    } in
    let same : q ≡ p' = cc e in
    subst (BothSteady p) same
      (record { client = Steady-refl p.client; server = handle-Steady p.server g tmp c })
deliver-BothSteady p (at_client i tmp) {p'} h =
    let ((g, rest), a, b) = >>=-eq-some (pick p.to_client i) _ h in
    let ((s, out), c, e) = >>=-eq-some (handle p.client g tmp) _ b in
    let q : Peers = record p {
      client = s;
      to_client = rest;
      to_server = p.to_server ++ map segment_of out;
    } in
    let same : q ≡ p' = cc e in
    subst (BothSteady p) same
      (record { client = handle-Steady p.client g tmp c; server = Steady-refl p.server })

pub deliver_all-BothSteady :
    (p : Peers) (ds : List Delivery) {p' : Peers} → deliver_all p ds ≡ some p' → BothSteady p p'
unfolding deliver_all
deliver_all-BothSteady p [] {p'} h =
    let same : p ≡ p' = cc h in
    subst (BothSteady p) same
      (record { client = Steady-refl p.client; server = Steady-refl p.server })
deliver_all-BothSteady p (d ∷ ds) h =
    let (q, a, b) = >>=-eq-some (deliver p d) (λ q. deliver_all q ds) h in
    let u = deliver-BothSteady p d a in
    let v = deliver_all-BothSteady q ds b in
    record { client = Steady-trans u.client v.client; server = Steady-trans u.server v.server }

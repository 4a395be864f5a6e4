-- ===== src/Socket/Stream.antt =====
-- Every run of two established sockets over a network that loses, doubles and reorders packets.

use i_tcp.Common.{
  ℕ, ◌≤◌, ◌≡◌, refl, none, some, List, ◌∷◌, ◌⊎◌, inl, inr, >>=-eq-some, All, arith, Option-cases,
}
use i_tcp.Tcp.Types.{Segment, Buffer, buf_size}
use i_tcp.Tcp.Peers.{Peers, Delivery, at_server, at_client, pick, deliver, lands}
use i_tcp.Tcp.Transfer.{Delivered}
use i_tcp.Socket.Traffic.{
  Step, Runs, handled, lost_up, lost_down, doubled_up, doubled_down, written, sent, read, start,
  later,
}
use i_tcp.Socket.Intact.{
  Intact, IsChunk, IsAck, Matches, pick-All, chunk_lands, chunk-Intact, ack_lands, ack-Intact,
  written-Intact, sent-Intact, read-Intact,
}

deliver-Intact :
    (init : Buffer) (p : Peers) (d : Delivery) {p' : Peers}
    → deliver p d ≡ some p'
    → Intact init p
    → Intact init p'
unfolding deliver
deliver-Intact init p (at_server i tmp) {p'} h v =
    let ((g, rest), a, _) = >>=-eq-some (pick p.to_server i) _ h in
    let (c, others) = pick-All (IsChunk p.client.databuf p.client.sizep) p.to_server i a v.chunks in
    lands p' _ (Intact init) _ h (chunk_lands init p v g rest tmp c i a)
      (chunk-Intact init p v g rest tmp c others)
deliver-Intact init p (at_client i tmp) {p'} h v =
    let ((g, rest), a, _) = >>=-eq-some (pick p.to_client i) _ h in
    let (k, others) = pick-All (IsAck p.client.sizep) p.to_client i a v.acks in
    lands p' _ (Intact init) _ h (ack_lands init p v g rest tmp k i a)
      (ack-Intact init p v g rest tmp k others)

with_chunks :
    (init : Buffer) (p : Peers) (gs : List Segment)
    → Intact init p
    → All (IsChunk p.client.databuf p.client.sizep) gs
    → Intact init (record p { to_server = gs })
with_chunks init p gs v w = record {
  client_status = v.client_status;
  client_role = v.client_role;
  server_status = v.server_status;
  fits = v.fits;
  sent = v.sent;
  stored = v.stored;
  chunks = w;
  acks = v.acks;
  bytes = v.bytes;
}

with_acks :
    (init : Buffer) (p : Peers) (gs : List Segment)
    → Intact init p
    → All (IsAck p.client.sizep) gs
    → Intact init (record p { to_client = gs })
with_acks init p gs v w = record {
  client_status = v.client_status;
  client_role = v.client_role;
  server_status = v.server_status;
  fits = v.fits;
  sent = v.sent;
  stored = v.stored;
  chunks = v.chunks;
  acks = w;
  bytes = v.bytes;
}

Step-Intact : (init : Buffer) {p p' : Peers} → Step p p' → Intact init p → Intact init p'
Step-Intact init {p} (handled d h) v = deliver-Intact init p d h v
Step-Intact init {p} (lost_up i g rest at) v =
    with_chunks init p rest v
      (pick-All (IsChunk p.client.databuf p.client.sizep) p.to_server i at v.chunks).1
Step-Intact init {p} (lost_down i g rest at) v =
    with_acks init p rest v (pick-All (IsAck p.client.sizep) p.to_client i at v.acks).1
Step-Intact init {p} (doubled_up i g rest at) v =
    with_chunks init p (g ∷ p.to_server) v
      ((pick-All (IsChunk p.client.databuf p.client.sizep) p.to_server i at v.chunks).0, v.chunks)
Step-Intact init {p} (doubled_down i g rest at) v =
    with_acks init p (g ∷ p.to_client) v
      ((pick-All (IsAck p.client.sizep) p.to_client i at v.acks).0, v.acks)
Step-Intact init {p} (written bytes h) v = written-Intact init p v bytes h
Step-Intact init {p} (sent h) v = sent-Intact init p v h
Step-Intact init {p} (read len h) v = read-Intact init p v len h

Runs-Intact : (init : Buffer) {p p' : Peers} → Runs p p' → Intact init p → Intact init p'
Runs-Intact init start v = v
Runs-Intact init (later r s) v = Step-Intact init s (Runs-Intact init r v)

Delivered-Intact :
    (data' : Buffer) (n : ℕ) (p : Peers)
    → Delivered data' n p
    → n ≤ buf_size
    → Intact p.server.databuf p
Delivered-Intact data' n p d fits = record {
  client_status = d.sync.client_status;
  client_role = d.sync.client_role;
  server_status = d.sync.server_status;
  fits = omega (arith, d.sync.client_size);
  sent = omega (arith, d.sync.client_size, d.written);
  stored = omega (arith, d.sync.client_size, d.sync.server_size);
  chunks = rw (d.idle.0) tt;
  acks = rw (d.idle.1) tt;
  bytes = λ i. inl refl;
}

-- On a connection that has delivered `n` bytes, whatever is written and read afterwards, with packets
-- in flight at the same time, and whatever the network loses, doubles and reorders: writep and the
-- server's sizep never pass the client's sizep, which stays within databuf; each byte of the server's
-- databuf is still the one that was there, or the byte of the client's stream at the same offset; and
-- every packet in flight on either side is handled without fault.
pub any_network :
    (data' : Buffer) (n : ℕ) (p : Peers) {p' : Peers}
    → Delivered data' n p
    → n ≤ buf_size
    → Runs p p'
    → (p'.client.writep ≤ p'.client.sizep)
      × (p'.server.sizep ≤ p'.client.sizep)
      × (p'.client.sizep ≤ buf_size)
      × Matches p.server.databuf p'.client.databuf p'.client.sizep p'.server.databuf
      × ((i tmp : ℕ)
          → (pick p'.to_server i ≡ none) ⊎ ((q : Peers) × (deliver p' (at_server i tmp) ≡ some q)))
      × ((i tmp : ℕ)
          → (pick p'.to_client i ≡ none) ⊎ ((q : Peers) × (deliver p' (at_client i tmp) ≡ some q)))
any_network data' n p {p'} d fits r =
    let init : Buffer = p.server.databuf in
    let v : Intact init p' = Runs-Intact init r (Delivered-Intact data' n p d fits) in
    (
      v.sent,
      v.stored,
      v.fits,
      v.bytes,
      λ i tmp. elim (Option-cases (pick p'.to_server i)) [
        | inl none_there ↦ inl none_there
        | inr ((g, rest), at) ↦
            let c =
              (pick-All (IsChunk p'.client.databuf p'.client.sizep) p'.to_server i at v.chunks).0 in
            inr (_, chunk_lands init p' v g rest tmp c i at)
      ],
      λ i tmp. elim (Option-cases (pick p'.to_client i)) [
        | inl none_there ↦ inl none_there
        | inr ((g, rest), at) ↦
            let a = (pick-All (IsAck p'.client.sizep) p'.to_client i at v.acks).0 in
            inr (_, ack_lands init p' v g rest tmp a i at)
      ],
    )

-- ===== src/Tcp/Transfer.antt =====
-- The stream from a client that writes to a server that reads (recvTCPPacket in src/tcp.cc, with the
-- first packet from __wrap_write in src/socket.cc): one chunk of at most 1000 bytes is in flight at a
-- time, and its acknowledgement calls for the next.

use native.Mathlib.Decide.{dec_lt}
use i_tcp.Common.{
  ℕ, zero, suc, ◌+◌, ◌-◌, ◌≤◌, ◌<◌, ◌≡◌, refl, ◌∙◌, ap, false, some, [], ◌∷◌, length, arith, ◌⊎◌,
  inl, inr,
}
use i_tcp.Word.{set_ack}
use i_tcp.Tcp.Types.{estab, Segment, Buffer, buf_size, slice, store}
use i_tcp.Tcp.Data.{chunk, is_server}
use i_tcp.Tcp.Buffers.{length-slice, store_below, store-slice}
use i_tcp.Tcp.Chunks.{data_answer, next_chunk, takes_data, takes_ack, takes_last_ack}
use i_tcp.Tcp.Wire.{segment_of}
use i_tcp.Tcp.Peers.{
  Peers, Delivery, at_server, at_client, deliver, server_takes, client_takes, server_waits,
  client_waits, pick-nil, pick-one, pick-beyond, lands, absurd_some,
}

module _ (data' : Buffer) (n : ℕ) where
  -- Both sides are established, the client has `n` bytes to send, and the server has the first `w`.
  pub record Sync (w : ℕ) (p : Peers) : Type 0 where
    pub client_status : p.client.tcb.status ≡ estab
    pub client_role : is_server p.client.role ≡ false
    pub client_bytes : p.client.databuf ≡ data'
    pub client_size : p.client.sizep ≡ n
    pub server_status : p.server.tcb.status ≡ estab
    pub server_size : p.server.sizep ≡ w
    pub agree : (i : ℕ) → i < w → p.server.databuf i ≡ data' i

  -- The chunk from byte `w` on is in flight to the server.
  pub record DataOut (w : ℕ) (p : Peers) : Type 0 where
    pub sync : Sync w p
    pub more : w < n
    pub g : Segment
    pub out : p.to_server ≡ g ∷ []
    pub flag : g.flag ≡ 0
    pub seq : g.seq ≡ w
    pub payload : g.payload ≡ slice data' w (chunk (n - w))
    pub quiet : p.to_client ≡ []

  -- The acknowledgement of the first `w` bytes is in flight to the client.
  pub record AckOut (w : ℕ) (p : Peers) : Type 0 where
    pub sync : Sync w p
    pub within : w ≤ n
    pub g : Segment
    pub out : p.to_client ≡ g ∷ []
    pub flag : g.flag ≡ set_ack 0
    pub ack : g.ack ≡ w
    pub quiet : p.to_server ≡ []

  -- The server has every byte, the client knows it by its `writep`, and nothing is in flight.
  pub record Delivered (p : Peers) : Type 0 where
    pub sync : Sync n p
    pub written : p.client.writep ≡ n
    pub idle : (p.to_server ≡ []) × (p.to_client ≡ [])

  -- After the server has taken the chunk.
  pub taken :
      (w : ℕ) (p : Peers) (v : DataOut w p)
      → (v.g.seq + length v.g.payload ≡ w + chunk (n - w))
        × (w < w + chunk (n - w))
        × (w + chunk (n - w) ≤ n)
  taken w p v =
      let len : length v.g.payload ≡ chunk (n - w) =
        ap length v.payload ∙ length-slice data' w (chunk (n - w)) in
      let m : w < n = v.more in
      let q : v.g.seq ≡ w = v.seq in (omega arith, ground arith, ground arith)

  stored :
      (w : ℕ) (p : Peers) (v : DataOut w p) (i : ℕ)
      → i < w + chunk (n - w)
      → store p.server.databuf v.g.seq v.g.payload i ≡ data' i
  stored w p v i h = elim (dec_lt i w) [
    | yes q ↦
        let below : i < v.g.seq = omega (arith, v.seq) in
        store_below p.server.databuf v.g.seq v.g.payload i below ∙ v.sync.agree i q
    | no q ↦
        rw (v.seq, v.payload)
          (store-slice data' p.server.databuf w (chunk (n - w)) i (omega arith) h)
  ]

  module _ (fits : n ≤ buf_size) where
    pub data_step :
        (w : ℕ) (p : Peers) (d : Delivery) {p' : Peers}
        → deliver p d ≡ some p'
        → DataOut w p
        → AckOut (w + chunk (n - w)) p'
    data_step w p (at_server zero tmp) {p'} h v =
        let (sum, grows, within) = taken w p v in
        lands p' _ (AckOut (w + chunk (n - w))) _ h
          (server_takes p 0 tmp v.g [] _ _ (pick-one p.to_server v.g v.out)
            (takes_data p.server v.g tmp v.sync.server_status v.flag (omega arith)))
          (record {
            sync = record {
              client_status = v.sync.client_status;
              client_role = v.sync.client_role;
              client_bytes = v.sync.client_bytes;
              client_size = v.sync.client_size;
              server_status = v.sync.server_status;
              server_size = ground (arith, sum, grows, v.sync.server_size);
              agree = stored w p v;
            };
            within = within;
            g = segment_of (data_answer p.server v.g tmp);
            out = rw (v.quiet);
            flag = refl;
            ack = sum;
            quiet = refl;
          })
    data_step w p (at_server (suc i) tmp) h v =
        absurd_some h (server_waits p (suc i) tmp (pick-beyond p.to_server v.g i v.out))
    data_step w p (at_client i tmp) h v =
        absurd_some h (client_waits p i tmp (pick-nil p.to_client i v.quiet))

    pub ack_step :
        (w : ℕ) (p : Peers) (d : Delivery) {p' : Peers}
        → deliver p d ≡ some p'
        → AckOut w p
        → ((w < n) × DataOut w p') ⊎ ((w ≡ n) × Delivered p')
    ack_step w p (at_client zero tmp) {p'} h v = elim (dec_lt w n) [
      | yes q ↦ inl (
        q,
        lands p' _ (DataOut w) _ h
            (client_takes p 0 tmp v.g [] _ _ (pick-one p.to_client v.g v.out) (
              takes_ack p.client v.g tmp v.sync.client_status v.flag v.sync.client_role
                (omega (arith, v.ack, v.sync.client_size)) (omega (arith, v.sync.client_size))))
            (record {
              sync = record {
                client_status = v.sync.client_status;
                client_role = v.sync.client_role;
                client_bytes = v.sync.client_bytes;
                client_size = v.sync.client_size;
                server_status = v.sync.server_status;
                server_size = v.sync.server_size;
                agree = v.sync.agree;
              };
              more = q;
              g = segment_of (next_chunk p.client v.g tmp);
              out = rw (v.quiet);
              flag = refl;
              seq = v.ack;
              payload = rw (v.ack, v.sync.client_bytes, v.sync.client_size);
              quiet = refl;
            }),
      )
      | no q ↦
          let e : w ≡ n = omega (arith, v.within) in
          inr (
            e,
            lands p' _ Delivered _ h
                (client_takes p 0 tmp v.g [] _ _ (pick-one p.to_client v.g v.out) (
                  takes_last_ack p.client v.g tmp v.sync.client_status v.flag v.sync.client_role
                    (omega (arith, v.ack, v.sync.client_size))))
                (record {
                  sync = record {
                    client_status = v.sync.client_status;
                    client_role = v.sync.client_role;
                    client_bytes = v.sync.client_bytes;
                    client_size = v.sync.client_size;
                    server_status = v.sync.server_status;
                    server_size = v.sync.server_size ∙ e;
                    agree = λ i hi. v.sync.agree i (omega arith);
                  };
                  written = v.ack ∙ e;
                  idle = (rw v.quiet, refl);
                }),
          )
    ]
    ack_step w p (at_client (suc i) tmp) h v =
        absurd_some h (client_waits p (suc i) tmp (pick-beyond p.to_client v.g i v.out))
    ack_step w p (at_server i tmp) h v =
        absurd_some h (server_waits p i tmp (pick-nil p.to_server i v.quiet))

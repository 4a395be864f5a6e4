-- ===== src/Socket/Intact.antt =====
-- Two established sockets under the steps of Socket/Traffic: the bytes of the packets in flight
-- (src/tcp.cc, src/socket.cc), and those that the reading side has stored.
use mathlib.Core.Path.{subst}
use native.Mathlib.Decide.{dec_lt}
use i_tcp.Common.{
  ℕ, zero, suc, ◌+◌, ◌-◌, ◌≤◌, ◌<◌, ◌≡◌, refl, sym, ◌∙◌, ap, true, false, some, List, [], ◌∷◌, ◌++◌,
  length, arith, ◌⊎◌, inl, inr, >>=-eq-some, All, All-append, All-imp, ltb, if◌then◌else◌,
}
use i_tcp.Word.{set_ack}
use i_tcp.Tcp.Types.{
  estab, MySocket, Segment, Reply, Buffer, buf_size, slice, store, copy_in, copy_out,
}
use i_tcp.Tcp.Data.{chunk, is_server, my_read, my_write}
use i_tcp.Tcp.Buffers.{length-slice, store_below, store_above, store-slice}
use i_tcp.Tcp.ReadWrite.{slice-cong}
use i_tcp.Tcp.Chunks.{after_data, data_answer, next_chunk, takes_data, takes_ack, takes_last_ack}
use i_tcp.Tcp.Wire.{segment_of}
use i_tcp.Tcp.Peers.{Peers, at_server, at_client, pick, deliver, server_takes, client_takes}
use i_tcp.Socket.{send_first}
use i_tcp.Socket.Write.{sending, first_packet, send_first_lem}

-- A packet of bytes from their place in the stream, and an acknowledgement of bytes that it has.
pub record IsChunk (data' : Buffer) (n : ℕ) (g : Segment) : Type 0 where
  pub flag : g.flag ≡ 0
  pub len : ℕ
  pub payload : g.payload ≡ slice data' g.seq len
  pub within : g.seq + len ≤ n

pub record IsAck (n : ℕ) (g : Segment) : Type 0 where
  pub flag : g.flag ≡ set_ack 0
  pub within : g.ack ≤ n

-- Each byte is that of the stream, or the one that was there at first.
abbrev pub Matches : Buffer → Buffer → ℕ → Buffer → Type 0
Matches init data' n buf = (i : ℕ) → (buf i ≡ init i) ⊎ ((i < n) × (buf i ≡ data' i))

pub record Intact (init : Buffer) (p : Peers) : Type 0 where
  pub client_status : p.client.tcb.status ≡ estab
  pub client_role : is_server p.client.role ≡ false
  pub server_status : p.server.tcb.status ≡ estab
  pub fits : p.client.sizep ≤ buf_size
  pub sent : p.client.writep ≤ p.client.sizep
  pub stored : p.server.sizep ≤ p.client.sizep
  pub chunks : All (IsChunk p.client.databuf p.client.sizep) p.to_server
  pub acks : All (IsAck p.client.sizep) p.to_client
  pub bytes : Matches init p.client.databuf p.client.sizep p.server.databuf

pub pick-All {κ} :
    (P : Segment → Type κ) (gs : List Segment) (i : ℕ) {g : Segment} {rest : List Segment}
    → pick gs i ≡ some (g, rest)
    → All P gs
    → P g × All P rest
unfolding pick
pick-All P [] i h v = absurd (cc h)
pick-All P (x ∷ xs) zero {g} {rest} h (v, vs) =
    let same : x ≡ g = cc h in
    let tail : xs ≡ rest = cc h in (subst P same v, subst (All P) tail vs)
pick-All P (x ∷ xs) (suc i) {g} {rest} h (v, vs) =
    let (r, a, b) = >>=-eq-some (pick xs i) _ h in
    let (u, us) = pick-All P xs i {g = r.0} {rest = r.1} a vs in
    let same : r.0 ≡ g = cc b in
    let tail : x ∷ r.1 ≡ rest = cc b in (subst P same u, subst (All P) tail (v, us))

-- The chunk is stored in its place.
stored_chunk :
    (init data' buf : Buffer) (n : ℕ) (g : Segment)
    → IsChunk data' n g
    → Matches init data' n buf
    → Matches init data' n (store buf g.seq g.payload)
stored_chunk init data' buf n g v m i = elim (dec_lt i g.seq) [
  | yes below ↦ rw (store_below buf g.seq g.payload i below) (m i)
  | no past ↦ elim (dec_lt i (g.seq + v.len)) [
    | yes inside ↦ inr (
      omega (arith, v.within),
      rw v.payload (store-slice data' buf g.seq v.len i (omega arith) inside),
    )
    | no above ↦
        let all : length g.payload ≡ v.len = ap length v.payload ∙ length-slice data' g.seq v.len in
        rw (store_above buf g.seq g.payload i (omega arith)) (m i)
  ]
]

module _ (init : Buffer) (p : Peers) (v : Intact init p) where
  module _ (g : Segment) (rest : List Segment) (tmp : ℕ)
      (c : IsChunk p.client.databuf p.client.sizep g) where
    chunk_end : g.seq + length g.payload ≤ p.client.sizep
    chunk_end =
        let all : length g.payload ≡ c.len =
          ap length c.payload ∙ length-slice p.client.databuf g.seq c.len in
        omega (arith, c.within)

    pub chunk_lands :
        (i : ℕ)
        → pick p.to_server i ≡ some (g, rest)
        → deliver p (at_server i tmp)
          ≡ some (record p {
            server = after_data p.server g tmp;
            to_server = rest;
            to_client = p.to_client ++ (segment_of (data_answer p.server g tmp) ∷ []);
          })
    chunk_lands i at =
        server_takes p i tmp g rest _ _ at
          (takes_data p.server g tmp v.server_status c.flag (omega (arith, chunk_end, v.fits)))

    pub chunk-Intact :
        All (IsChunk p.client.databuf p.client.sizep) rest
        → Intact init (record p {
          server = after_data p.server g tmp;
          to_server = rest;
          to_client = p.to_client ++ (segment_of (data_answer p.server g tmp) ∷ []);
        })
    chunk-Intact others = record {
      client_status = v.client_status;
      client_role = v.client_role;
      server_status = v.server_status;
      fits = v.fits;
      sent = v.sent;
      stored = ground (arith, chunk_end, v.stored);
      chunks = others;
      acks =
          All-append (IsAck p.client.sizep) p.to_client _ v.acks
            (record { flag = refl; within = chunk_end }, tt);
      bytes = stored_chunk init p.client.databuf p.server.databuf p.client.sizep g c v.bytes;
    }

  module _ (g : Segment) (rest : List Segment) (tmp : ℕ) (a : IsAck p.client.sizep g) where
    abbrev pub after_ack : Peers
    after_ack = record p {
      client = record p.client { writep = g.ack };
      to_client = rest;
      to_server =
          p.to_server
          ++ (if ltb g.ack p.client.sizep then segment_of (next_chunk p.client g tmp) ∷ [] else []);
    }

    pub ack_lands :
        (i : ℕ) → pick p.to_client i ≡ some (g, rest) → deliver p (at_client i tmp) ≡ some after_ack
    ack_lands i at = elim (dec_lt g.ack p.client.sizep) [
      | yes more ↦
          let next : ltb g.ack p.client.sizep ≡ true = ground arith in
          client_takes p i tmp g rest _ _ at
            (takes_ack p.client g tmp v.client_status a.flag v.client_role more v.fits)
          ∙ rw next refl
      | no done ↦
          let last : ltb g.ack p.client.sizep ≡ false = ground arith in
          client_takes p i tmp g rest _ _ at (
            takes_last_ack p.client g tmp v.client_status a.flag v.client_role
              (omega (arith, a.within)))
          ∙ rw last refl
    ]

    resent :
        All
          (IsChunk p.client.databuf p.client.sizep)
          (if ltb g.ack p.client.sizep then segment_of (next_chunk p.client g tmp) ∷ [] else [])
    resent = elim (dec_lt g.ack p.client.sizep) [
      | yes more ↦
          let next : ltb g.ack p.client.sizep ≡ true = ground arith in
          rw next (
            record {
              flag = refl;
              len = chunk (p.client.sizep - g.ack);
              payload = refl;
              within = ground arith;
            },
            tt,
          )
      | no done ↦ let last : ltb g.ack p.client.sizep ≡ false = ground arith in rw last tt
    ]

    pub ack-Intact : All (IsAck p.client.sizep) rest → Intact init after_ack
    ack-Intact others = record {
      client_status = v.client_status;
      client_role = v.client_role;
      server_status = v.server_status;
      fits = v.fits;
      sent = a.within;
      stored = v.stored;
      chunks = All-append (IsChunk p.client.databuf p.client.sizep) p.to_server _ v.chunks resent;
      acks = others;
      bytes = v.bytes;
    }

  -- The client's bytes grow at their end only.
  pub written-Intact :
      (bytes : List ℕ) {s : MySocket}
      → my_write p.client bytes ≡ some s
      → Intact init (record p { client = s })
  unfolding my_write copy_in
  written-Intact bytes {s} h =
      let buf : Buffer = store p.client.databuf p.client.sizep bytes in
      let size : ℕ = p.client.sizep + length bytes in
      let t : MySocket = record p.client { databuf = buf; sizep = size } in
      let same : t ≡ s = ground arith in
      let room : size ≤ buf_size = ground arith in
      let kept : (i : ℕ) → i < p.client.sizep → p.client.databuf i ≡ buf i =
        λ i low. sym (store_below p.client.databuf p.client.sizep bytes i low) in
      subst (λ s. Intact init (record p { client = s })) same
        (record {
          client_status = v.client_status;
          client_role = v.client_role;
          server_status = v.server_status;
          fits = room;
          sent = omega (arith, v.sent);
          stored = omega (arith, v.stored);
          chunks =
              All-imp (IsChunk p.client.databuf p.client.sizep) (IsChunk buf size)
                (λ g c. record {
                  flag = c.flag;
                  len = c.len;
                  payload =
                      c.payload
                      ∙ slice-cong p.client.databuf buf g.seq c.len
                          (λ i low high. kept i (omega (arith, c.within)));
                  within = omega (arith, c.within);
                })
                p.to_server v.chunks;
          acks =
              All-imp (IsAck p.client.sizep) (IsAck size)
                (λ g a. record { flag = a.flag; within = omega (arith, a.within) }) p.to_client
                v.acks;
          bytes = λ i. elim (v.bytes i) [
            | inl first ↦ inl first
            | inr (low, from) ↦ inr (omega arith, from ∙ kept i low)
          ];
        })

  pub sent-Intact :
      {s : MySocket} {r : Reply}
      → send_first p.client ≡ some (s, r)
      → Intact init (record p { client = s; to_server = p.to_server ++ (segment_of r ∷ []) })
  sent-Intact {s} {r} h =
      let first = send_first_lem p.client v.sent v.fits in
      let same : sending p.client ≡ s = cc (first, h) in
      let packet : first_packet p.client ≡ r = cc (first, h) in
      rw (← same, ← packet)
        (record {
          client_status = v.client_status;
          client_role = v.client_role;
          server_status = v.server_status;
          fits = v.fits;
          sent = ground (arith, v.sent);
          stored = v.stored;
          chunks = All-append (IsChunk p.client.databuf p.client.sizep) p.to_server _ v.chunks (
            record {
              flag = refl;
              len = chunk (p.client.sizep - p.client.writep);
              payload = refl;
              within = ground (arith, v.sent);
            },
            tt,
          );
          acks = v.acks;
          bytes = v.bytes;
        })

  pub read-Intact :
      (len : ℕ) {bytes : List ℕ} {s : MySocket}
      → my_read p.server len ≡ some (bytes, s)
      → Intact init (record p { server = s })
  unfolding my_read copy_out
  read-Intact len {bytes} {s} h =
      let same : record p.server { readp = p.server.readp + len } ≡ s = ground arith in
      rw (← same) (record {
        client_status = v.client_status;
        client_role = v.client_role;
        server_status = v.server_status;
        fits = v.fits;
        sent = v.sent;
        stored = v.stored;
        chunks = v.chunks;
        acks = v.acks;
        bytes = v.bytes;
      })

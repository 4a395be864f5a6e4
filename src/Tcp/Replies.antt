-- ===== src/Tcp/Replies.antt =====
-- What readIPPacket (src/tcp.cc) sends: that it fits the fields of a packet and the receiver's buffer.
use mathlib.Core.Path.{subst}
use i_tcp.Common.{
  ℕ, ◌+◌, ◌-◌, ◌≤◌, ◌<◌, ◌^◌, ◌≡◌, some, List, [], ◌∷◌, arith, length, All, Bool-cases, inl, inr,
  not, ◌&&◌, leb, >>=-eq-some,
}
use i_tcp.Word.{is_syn, is_fin, is_ack, set_syn, set_fin, set_ack, u32}
use i_tcp.Tcp.Types.{
  Status, estab, MySocket, Segment, Reply, listen, syn_sent, fin_wait1, fin_wait2, back, copy_out,
  copy_in,
}
use i_tcp.Tcp.Data.{recv_tcp_packet, recv_ack, recv_data, chunk, is_server}
use i_tcp.Tcp.Buffers.{length-slice}
use i_tcp.Tcp.Handler.{Step, handle, adopt, by_flags, answer, on_syn_ack, on_syn, on_fin, on_ack}
use i_tcp.Tcp.Wire.{Sendable}

-- The fields of a packet that has been taken apart fit their types.
pub record InRange (g : Segment) : Type 0 where
  pub src_ip : g.info.src_ip < 2 ^ 32
  pub dst_ip : g.info.dst_ip < 2 ^ 32
  pub src_port : g.info.src_port < 2 ^ 16
  pub dst_port : g.info.dst_port < 2 ^ 16
  pub seq : g.seq < 2 ^ 32
  pub ack : g.ack < 2 ^ 32

answer-Sendable :
    (g : Segment) (tmp flag : ℕ) → InRange g → flag < 2 ^ 16 → Sendable (answer g tmp flag)
answer-Sendable g tmp flag v h = record {
  src_ip = v.dst_ip;
  dst_ip = v.src_ip;
  src_port = v.dst_port;
  dst_port = v.src_port;
  seq = v.ack;
  ack = omega arith;
  flag = h;
  room = omega arith;
}

abbrev pub IsSmall : Reply → Type 0
IsSmall r = Sendable r × (length r.buf ≤ 1000)

set_flags-lt :
    (set_syn 0 < 2 ^ 16)
    × (set_fin 0 < 2 ^ 16)
    × (set_ack 0 < 2 ^ 16)
    × (set_ack (set_syn 0) < 2 ^ 16)
unfolding set_syn set_fin set_ack
set_flags-lt = (omega arith, omega arith, omega arith, omega arith)

answer-IsSmall :
    (g : Segment) (tmp flag : ℕ) → InRange g → flag < 2 ^ 16 → IsSmall (answer g tmp flag)
answer-IsSmall g tmp flag v h = (answer-Sendable g tmp flag v h, omega arith)

length-copy_out :
    (buf : ℕ → ℕ) (off n : ℕ) {bytes : List ℕ} → copy_out buf off n ≡ some bytes → length bytes ≡ n
unfolding copy_out
length-copy_out buf off n h = ground (arith, length-slice buf off n)

recv_ack-IsSmall :
    (s : MySocket) (g : Segment) {s' : MySocket} {out : List Reply}
    → recv_ack s (length g.payload) g.info g.seq g.ack ≡ some (s', out)
    → InRange g
    → All IsSmall out
unfolding recv_ack
recv_ack-IsSmall s g {s'} {out} h v = elim (Bool-cases (is_server s.role)) [
  | inl e ↦ let none_sent : out ≡ [] = ground (arith, h, e) in rw none_sent tt
  | inr e ↦ elim (Bool-cases (leb s.sizep g.ack)) [
    | inl p ↦ let none_sent : out ≡ [] = ground (arith, h, e, p) in rw none_sent tt
    | inr p ↦
        let (bytes, copied, rest) =
          >>=-eq-some (copy_out s.databuf g.ack (chunk (s.sizep - g.ack))) _ (rw (e, p) at h) in
        let n : length bytes ≡ chunk (s.sizep - g.ack) =
          length-copy_out s.databuf g.ack (chunk (s.sizep - g.ack)) copied in
        let small : length bytes ≤ 1000 = ground (arith, n) in
        let one : out
            ≡ record {
              buf = bytes;
              info = back g.info;
              seq = g.ack;
              ack = u32 (g.seq + length g.payload);
              flag = 0;
            }
              ∷ [] =
          cc rest in
        rw one (
          (
            (
              record {
                src_ip = v.dst_ip;
                dst_ip = v.src_ip;
                src_port = v.dst_port;
                dst_port = v.src_port;
                seq = v.ack;
                ack = omega arith;
                flag = omega arith;
                room = omega arith;
              },
              small,
            ),
            tt,
          ))
  ]
]

recv_data-IsSmall :
    (s : MySocket) (g : Segment) (tmp : ℕ) {s' : MySocket} {out : List Reply}
    → recv_data s g.payload (length g.payload) g.info g.seq g.ack tmp ≡ some (s', out)
    → InRange g
    → All IsSmall out
unfolding recv_data
recv_data-IsSmall s g tmp {s'} {out} h v =
    let (databuf, copied, rest) = >>=-eq-some (copy_in s.databuf g.seq g.payload) _ h in
    let one : out
        ≡ record {
          buf = tmp ∷ [];
          info = back g.info;
          seq = g.ack;
          ack = u32 (g.seq + length g.payload);
          flag = set_ack 0;
        }
          ∷ [] =
      cc rest in
    rw one (
      (
        (
          record {
            src_ip = v.dst_ip;
            dst_ip = v.src_ip;
            src_port = v.dst_port;
            dst_port = v.src_port;
            seq = v.ack;
            ack = omega arith;
            flag = set_flags-lt.2;
            room = omega arith;
          },
          omega arith,
        ),
        tt,
      ))

recv_tcp_packet-IsSmall :
    (s : MySocket) (g : Segment) (tmp : ℕ) {s' : MySocket} {out : List Reply}
    → recv_tcp_packet s g.payload (length g.payload) g.info g.seq g.ack g.flag tmp ≡ some (s', out)
    → InRange g
    → All IsSmall out
unfolding recv_tcp_packet
recv_tcp_packet-IsSmall s g tmp h v = elim (Bool-cases (is_ack g.flag)) [
  | inl e ↦ recv_ack-IsSmall s g (rw e at h) v
  | inr e ↦ recv_data-IsSmall s g tmp (rw e at h) v
]

module _ (s : MySocket) (g : Segment) (tmp : ℕ) (v : InRange g) where
  one_answer :
      (t : MySocket) (flag : ℕ) {s' : MySocket} {out : List Reply}
      → flag < 2 ^ 16
      → ◌≡◌ {A = Step} (some (t, answer g tmp flag ∷ [])) (some (s', out))
      → All IsSmall out
  one_answer t flag {s'} {out} small h =
      let e : answer g tmp flag ∷ [] ≡ out = cc h in
      subst (All IsSmall) e (answer-IsSmall g tmp flag v small, tt)

  no_answer :
      (t : MySocket) {s' : MySocket} {out : List Reply}
      → ◌≡◌ {A = Step} (some (t, [])) (some (s', out))
      → All IsSmall out
  no_answer t {s'} {out} h = let e : ◌≡◌ {A = List Reply} [] out = cc h in subst (All IsSmall) e tt

  on_syn_ack-IsSmall :
      (a : Status) {s' : MySocket} {out : List Reply}
      → on_syn_ack a s g tmp ≡ some (s', out)
      → All IsSmall out
  unfolding on_syn_ack
  on_syn_ack-IsSmall syn_sent h = one_answer _ (set_ack 0) set_flags-lt.2 h
  on_syn_ack-IsSmall _ h = no_answer _ h

  on_syn-IsSmall :
      (a : Status) {s' : MySocket} {out : List Reply}
      → on_syn a s g tmp ≡ some (s', out)
      → All IsSmall out
  unfolding on_syn
  on_syn-IsSmall listen h = one_answer _ (set_ack (set_syn 0)) set_flags-lt.3 h
  on_syn-IsSmall syn_sent h = one_answer _ (set_ack 0) set_flags-lt.2 h
  on_syn-IsSmall _ h = no_answer _ h

  on_fin-IsSmall :
      (a : Status) {s' : MySocket} {out : List Reply}
      → on_fin a s g tmp ≡ some (s', out)
      → All IsSmall out
  unfolding on_fin
  on_fin-IsSmall estab {s'} {out} h =
      let e : answer g tmp (set_ack 0) ∷ answer g tmp (set_fin 0) ∷ [] ≡ out = cc h in
      subst (All IsSmall) e (
        answer-IsSmall g tmp (set_ack 0) v set_flags-lt.2,
        (answer-IsSmall g tmp (set_fin 0) v set_flags-lt.1, tt),
      )
  on_fin-IsSmall fin_wait1 h = one_answer _ (set_ack 0) set_flags-lt.2 h
  on_fin-IsSmall fin_wait2 h = one_answer _ (set_ack 0) set_flags-lt.2 h
  on_fin-IsSmall _ h = no_answer _ h

  on_ack-IsSmall :
      (a : Status) {s' : MySocket} {out : List Reply}
      → on_ack a s g tmp ≡ some (s', out)
      → All IsSmall out
  unfolding on_ack
  on_ack-IsSmall estab h = recv_tcp_packet-IsSmall s g tmp h v
  on_ack-IsSmall _ h = no_answer _ h

  by_flags-IsSmall :
      (a : Status) {s' : MySocket} {out : List Reply}
      → by_flags a s g tmp ≡ some (s', out)
      → All IsSmall out
  unfolding by_flags
  by_flags-IsSmall a h = elim (Bool-cases (is_syn g.flag && is_ack g.flag)) [
    | inl e ↦ on_syn_ack-IsSmall a (rw (e, by_flags) at h)
    | inr e ↦ elim (Bool-cases (is_syn g.flag && not (is_ack g.flag))) [
      | inl p ↦ on_syn-IsSmall a (rw (e, p) at h)
      | inr p ↦ elim (Bool-cases (is_fin g.flag)) [
        | inl q ↦ on_fin-IsSmall a (rw (e, p, q) at h)
        | inr q ↦ elim (Bool-cases (is_ack g.flag)) [
          | inl r ↦ on_ack-IsSmall a (rw (e, p, q, r) at h)
          | inr r ↦ recv_tcp_packet-IsSmall s g tmp (rw (e, p, q, r) at h) v
        ]
      ]
    ]
  ]

-- Every packet that a socket sends in answer to a packet of well-typed fields can be sent and
-- received: its fields fit the types of the header, and its payload, of at most 1000 bytes, fits the
-- receiver's buffer.
pub handle-IsSmall :
    (s : MySocket) (g : Segment) (tmp : ℕ) {s' : MySocket} {out : List Reply}
    → handle s g tmp ≡ some (s', out)
    → InRange g
    → All IsSmall out
unfolding handle
handle-IsSmall s g tmp h v = by_flags-IsSmall (adopt s g) g tmp v s.tcb.status h

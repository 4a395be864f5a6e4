-- ===== src/Tcp/Chunks.antt =====
-- recvTCPPacket (src/tcp.cc) on an established connection, where its copies stay inside of databuf:
-- the socket afterwards and the packet that it sends.
use i_tcp.Common.{
  ℕ, ◌+◌, ◌-◌, ◌≤◌, ◌<◌, ◌≡◌, ◌∙◌, true, false, some, [], ◌∷◌, length, arith, ltb, leb,
  if◌then◌else◌,
}
use i_tcp.Word.{u32, set_ack}
use i_tcp.Tcp.Types.{estab, MySocket, Segment, Reply, buf_size, slice, store, back}
use i_tcp.Tcp.Data.{recv_data, recv_ack, chunk, is_server}
use i_tcp.Tcp.Events.{at_estab_data, at_estab_ack}
use i_tcp.Tcp.Buffers.{copy_in_fits, copy_out_fits}
use i_tcp.Tcp.Handler.{handle}

module _ (s : MySocket) (g : Segment) (tmp : ℕ) where
  abbrev pub after_data : MySocket
  after_data = record s {
    databuf = store s.databuf g.seq g.payload;
    sizep = if ltb s.sizep (g.seq + length g.payload) then g.seq + length g.payload else s.sizep;
  }

  abbrev pub data_answer : Reply
  data_answer = record {
    buf = tmp ∷ [];
    info = back g.info;
    seq = g.ack;
    ack = g.seq + length g.payload;
    flag = set_ack 0;
  }

  pub takes_data :
      s.tcb.status ≡ estab
      → g.flag ≡ 0
      → g.seq + length g.payload ≤ buf_size
      → handle s g tmp ≡ some (after_data, data_answer ∷ [])
  unfolding recv_data
  takes_data e f h =
      let small : u32 (g.seq + length g.payload) ≡ g.seq + length g.payload = omega arith in
      at_estab_data s g tmp e f ∙ rw (copy_in_fits s.databuf g.seq g.payload h, small)

  abbrev pub next_chunk : Reply
  next_chunk = record {
    buf = slice s.databuf g.ack (chunk (s.sizep - g.ack));
    info = back g.info;
    seq = g.ack;
    ack = u32 (g.seq + length g.payload);
    flag = 0;
  }

  pub takes_ack :
      s.tcb.status ≡ estab
      → g.flag ≡ set_ack 0
      → is_server s.role ≡ false
      → g.ack < s.sizep
      → s.sizep ≤ buf_size
      → handle s g tmp ≡ some (record s { writep = g.ack }, next_chunk ∷ [])
  unfolding recv_ack
  takes_ack e f r h b =
      let more : leb s.sizep g.ack ≡ false = ground arith in
      let inside : g.ack + chunk (s.sizep - g.ack) ≤ buf_size = ground arith in
      at_estab_ack s g tmp e f
      ∙ rw (r, more, copy_out_fits s.databuf g.ack (chunk (s.sizep - g.ack)) inside)

  pub takes_last_ack :
      s.tcb.status ≡ estab
      → g.flag ≡ set_ack 0
      → is_server s.role ≡ false
      → g.ack ≡ s.sizep
      → handle s g tmp ≡ some (record s { writep = g.ack }, [])
  unfolding recv_ack
  takes_last_ack e f r h =
      let done : leb s.sizep g.ack ≡ true = ground arith in at_estab_ack s g tmp e f ∙ rw (r, done)

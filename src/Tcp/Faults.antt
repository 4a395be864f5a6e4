-- ===== src/Tcp/Faults.antt =====
-- When readIPPacket (src/tcp.cc) reads or writes outside of databuf.
use i_tcp.Common.{◌+◌, ◌<◌, ◌≡◌, false, length}
use i_tcp.Word.{is_syn, is_fin, is_ack}
use i_tcp.Tcp.Types.{Segment, buf_size}

-- The packets that recvTCPPacket takes as data beyond databuf: no flag is set, and there is data.
pub record Overruns (g : Segment) : Type 0 where
  pub syn : is_syn g.flag ≡ false
  pub fin : is_fin g.flag ≡ false
  pub ack : is_ack g.flag ≡ false
  pub some_bytes : 0 < length g.payload
  pub beyond : buf_size < g.seq + length g.payload

-- ===== src/Tcp/Types.antt =====
-- The types of include/tcp.h, and mysocket_t of include/core.h with its buffer.

use i_tcp.Common.{
  ℕ, zero, suc, ◌+◌, ◌^◌, Bool, Option, none, some, List, [], ◌∷◌, if◌then◌else◌, ◌==◌, ◌||◌, leb,
  length,
}

-- The states that include/tcp.h numbers from 0, and -1 of a TCB that nobody has set.
pub data Status : Type 0 where
  unset closed listen syn_sent syn_rcvd estab fin_wait1 fin_wait2 close_wait last_ack closing
        time_wait :
      Status

-- TCP_CLIENT, TCP_SERVER, and -1.
pub data Role : Type 0 where
  no_role client server : Role

pub record Tcb : Type 0 where
  pub role : Role
  pub status : Status

pub record Tuple4 : Type 0 where
  pub src_ip : ℕ
  pub dst_ip : ℕ
  pub src_port : ℕ
  pub dst_port : ℕ

-- databuf: the byte at each offset below `buf_size`.
abbrev pub Buffer : Type 0
Buffer = ℕ → ℕ

abbrev pub buf_size : ℕ
buf_size = 2 ^ 20

-- mysocket_t. `address` is sa_data, which the code reads as a tuple4 throughout. The mutexes and
-- condition variables have no value of their own; `sizep` and the like are ints.
pub record MySocket : Type 0 where
  pub databuf : Buffer
  pub readp : ℕ
  pub writep : ℕ
  pub sizep : ℕ
  pub role : Role
  pub type : ℕ
  pub address : Tuple4
  pub tcb : Tcb
  pub conn_ready : Bool
  pub acc_syn_ready : Bool
  pub acc_ack_ready : Bool

-- The bytes of `buf` from `off` on, and `buf` with bytes written from `off` on.
unfoldable pub slice : Buffer → ℕ → ℕ → List ℕ
slice buf off zero = []
slice buf off (suc n) = buf off ∷ slice buf (off + 1) n

abbrev pub poke : Buffer → ℕ → ℕ → Buffer
poke buf off b i = if off == i then b else buf i

unfoldable pub store : Buffer → ℕ → List ℕ → Buffer
store buf off [] = buf
store buf off (b ∷ bs) = store (poke buf off b) (off + 1) bs

-- memcpy out of databuf and into it; `none` is an access outside of its 2 ^ 20 bytes. A memcpy of no
-- bytes makes none, wherever it points.
unfoldable pub copy_out : Buffer → ℕ → ℕ → Option (List ℕ)
copy_out buf off n = if n == 0 || leb (off + n) buf_size then some (slice buf off n) else none

unfoldable pub copy_in : Buffer → ℕ → List ℕ → Option Buffer
copy_in buf off bytes =
    if length bytes == 0 || leb (off + length bytes) buf_size
    then some (store buf off bytes)
    else none

-- A received TCP packet, as readIPPacket takes it apart: `info` is the local variable of that name.
pub record Segment : Type 0 where
  pub info : Tuple4
  pub seq : ℕ
  pub ack : ℕ
  pub flag : ℕ
  pub payload : List ℕ

-- The arguments of a call of sendTCPPacket.
pub record Reply : Type 0 where
  pub buf : List ℕ
  pub info : Tuple4
  pub seq : ℕ
  pub ack : ℕ
  pub flag : ℕ

-- sendinfo, ninfo: the four fields of `info` the other way round.
abbrev pub back : Tuple4 → Tuple4
back info = record {
  src_ip = info.dst_ip;
  dst_ip = info.src_ip;
  src_port = info.dst_port;
  dst_port = info.src_port;
}

-- `tcb->status = status`
abbrev pub set_status : MySocket → Status → MySocket
set_status s status = record s { tcb = record { role = s.tcb.role; status = status } }

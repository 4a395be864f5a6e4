-- ===== src/Tcp/Bounds.antt =====
-- What stays within databuf: the offsets of a socket, and the copies of a handler (src/tcp.cc).
use i_tcp.Common.{ℕ, ◌+◌, ◌≤◌, ◌<◌, ◌≡◌, ◌⊎◌, ◌↔◌, none, some, List, arith, length}
use i_tcp.Tcp.Types.{MySocket, Segment, Reply, Tuple4, buf_size, copy_in, copy_out}
use i_tcp.Tcp.Data.{recv_ack, recv_data, my_read, my_write}
use i_tcp.Tcp.Handler.{handle}

-- The bytes that have been read have been stored, and lie in databuf.
pub record IsSound (s : MySocket) : Type 0 where
  pub taken : s.readp ≤ s.sizep
  pub inside : s.readp ≤ buf_size

-- A packet without data for an offset beyond databuf: recvTCPPacket copies nothing, and takes the
-- offset for the end of the stream.
abbrev pub Jumps : Segment → Type 0
Jumps g = (length g.payload ≡ 0) × (buf_size < g.seq)

-- An acknowledgement never makes a sound socket read outside of databuf.
pub recv_ack-returns :
    (s : MySocket) (len : ℕ) (info : Tuple4) (seq ack : ℕ)
    → s.sizep ≤ buf_size
    → recv_ack s len info seq ack ≡ none
    → ⊥
unfolding recv_ack copy_out
recv_ack-returns s len info seq ack v h = ground arith

pub recv_data-fault :
    (s : MySocket) (buf : List ℕ) (info : Tuple4) (seq ack tmp : ℕ)
    → (recv_data s buf (length buf) info seq ack tmp ≡ none)
      ↔ ((0 < length buf) × (buf_size < seq + length buf))
unfolding recv_data copy_in
recv_data-fault s buf info seq ack tmp = (λ h. ground arith, λ h. ground arith)

-- How a step leaves the offsets: `far` tells of a packet that jumps.
abbrev Grows : MySocket → MySocket → Type 0 → Type 0
Grows s s' far =
    (s'.readp ≡ s.readp)
    × (s.sizep ≤ s'.sizep)
    × ((s'.sizep ≡ s.sizep) ⊎ ((s'.sizep ≤ buf_size) ⊎ far))

-- What a thread may do with the buffer of a socket.
pub data Use : MySocket → MySocket → Type 0 where
  handled :
      {s s' : MySocket} (g : Segment) (tmp : ℕ) (out : List Reply)
      → handle s g tmp ≡ some (s', out)
      → Use s s'
  read : {s s' : MySocket} (len : ℕ) (bytes : List ℕ) → my_read s len ≡ some (bytes, s') → Use s s'
  written : {s s' : MySocket} (buf : List ℕ) → my_write s buf ≡ some s' → Use s s'

pub data Reaches (s : MySocket) : MySocket → Type 0 where
  start : Reaches s s
  later : {t u : MySocket} → Reaches s t → Use t u → Reaches s u

-- The run has handled a packet that jumps.
abbrev pub Jumped : {s s' : MySocket} → Use s s' → Type 0
Jumped (handled g tmp out h) = Jumps g
Jumped (read len bytes h) = ⊥
Jumped (written buf h) = ⊥

abbrev pub HasJumped : {s s' : MySocket} → Reaches s s' → Type 0
HasJumped start = ⊥
HasJumped (later r u) = HasJumped r ⊎ Jumped u

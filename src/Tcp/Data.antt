-- ===== src/Tcp/Data.antt =====
-- The stream of bytes: recvTCPPacket (src/tcp.cc), myread and mywrite (include/core.h). Each runs
-- under data_mtx from its first access to the buffer to its last.
use i_tcp.Common.{
  ℕ, ◌+◌, ◌-◌, Bool, true, false, Option, none, some, List, [], ◌∷◌, if◌then◌else◌, ◌>>=◌, ltb, leb,
  length,
}
use i_tcp.Word.{u32, is_ack, set_ack}
use i_tcp.Tcp.Types.{Role, server, MySocket, Tuple4, Reply, back, copy_in, copy_out}

abbrev pub is_server : Role → Bool
is_server server = true
is_server _ = false

-- `leng`: at most 1000 bytes, or what is left.
abbrev pub chunk : ℕ → ℕ
chunk left = if ltb left 1000 then left else 1000

-- The branch of recvTCPPacket for an acknowledgement. The numbers are compared as unsigned ints.
unfoldable pub recv_ack : MySocket → ℕ → Tuple4 → ℕ → ℕ → Option (MySocket × List Reply)
recv_ack s len info seq ack =
    if is_server s.role
    then some (s, [])
    else (if leb s.sizep ack
        then some (record s { writep = ack }, [])
        else (copy_out s.databuf ack (chunk (s.sizep - ack)) >>= λ bytes. some (
          record s { writep = ack },
          record { buf = bytes; info = back info; seq = ack; ack = u32 (seq + len); flag = 0 } ∷ [],
        )))

-- The branch for data. `tmp` is the byte that the answer carries, which the code does not set.
unfoldable pub recv_data :
    MySocket → List ℕ → ℕ → Tuple4 → ℕ → ℕ → ℕ → Option (MySocket × List Reply)
recv_data s buf len info seq ack tmp = do
  databuf ← copy_in s.databuf seq buf
  let sizep = if ltb s.sizep (u32 (seq + len)) then u32 (seq + len) else s.sizep
  some (
    record s { databuf = databuf; sizep = sizep },
    record { buf = tmp ∷ []; info = back info; seq = ack; ack = u32 (seq + len); flag = set_ack 0 }
        ∷ [],
  )

unfoldable pub recv_tcp_packet :
    MySocket → List ℕ → ℕ → Tuple4 → ℕ → ℕ → ℕ → ℕ → Option (MySocket × List Reply)
recv_tcp_packet s buf len info seq ack flag tmp =
    if is_ack flag then recv_ack s len info seq ack else recv_data s buf len info seq ack tmp

-- `none` is the wait on read_cv, or an access outside of the buffer.
unfoldable pub my_read : MySocket → ℕ → Option (List ℕ × MySocket)
my_read s len =
    if ltb s.sizep (s.readp + len)
    then none
    else (copy_out s.databuf s.readp len >>= λ bytes.
        some (bytes, record s { readp = s.readp + len }))

unfoldable pub my_write : MySocket → List ℕ → Option MySocket
my_write s buf = do
  databuf ← copy_in s.databuf s.sizep buf
  some (record s { databuf = databuf; sizep = s.sizep + length buf })

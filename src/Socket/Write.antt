-- ===== src/Socket/Write.antt =====
-- __wrap_write on one side and __wrap_read on the other (src/socket.cc), up to their returns.
use i_tcp.Common.{
  ◌++◌, ℕ, ◌+◌, ◌-◌, ◌*◌, ◌<◌, ◌≤◌, ◌≡◌, refl, sym, ◌∙◌, ap, true, false, some, List, [], ◌∷◌,
  length, arith, ◌⊎◌, inl, inr, ltb, leb, if◌then◌else◌,
}
use i_tcp.Dict.{find, nat_ordered}
use i_tcp.Tcp.Types.{MySocket, Reply, Buffer, buf_size, slice, store}
use i_tcp.Tcp.Data.{chunk, my_read, my_write}
use i_tcp.Tcp.Buffers.{store_below, copy_in_fits, copy_out_fits}
use i_tcp.Tcp.ReadWrite.{slice-cong, slice-store, slice-append}
use i_tcp.Tcp.Wire.{segment_of}
use i_tcp.Tcp.Kernel.{Kernel}
use i_tcp.Tcp.Peers.{Peers, Delivery, deliver_all, Proceeds}
use i_tcp.Tcp.Steady.{BothSteady, deliver_all-BothSteady}
use i_tcp.Tcp.Transfer.{DataOut, Delivered}
use i_tcp.Tcp.Stream.{Sending, transfer}
use i_tcp.Socket.Wait.{Waits, Waits-all}
use native.Mathlib.Decide.{dec_lt}
use i_tcp.Socket.{put_socket, send_first, write_start, write_returns}

-- A socket with these bytes behind what it has, and with its first packet sent.
abbrev pub filled : MySocket → List ℕ → MySocket
filled s bytes = record s {
  databuf = store s.databuf s.sizep bytes;
  sizep = s.sizep + length bytes;
}

abbrev pub sending : MySocket → MySocket
sending s = record s { writep = s.writep + chunk (s.sizep - s.writep) }

abbrev pub first_packet : MySocket → Reply
first_packet s = record {
  buf = slice s.databuf s.writep (chunk (s.sizep - s.writep));
  info = s.address;
  seq = s.writep;
  ack = 0;
  flag = 0;
}

-- The two sockets when __wrap_write waits, where nothing was in flight before.
abbrev pub after_write : Peers → List ℕ → Peers
after_write p bytes = record p {
  client = sending (filled p.client bytes);
  to_server = segment_of (first_packet (filled p.client bytes)) ∷ [];
}

pub send_first_lem :
    (s : MySocket)
    → s.writep ≤ s.sizep
    → s.sizep ≤ buf_size
    → send_first s ≡ some (sending s, first_packet s)
unfolding send_first
send_first_lem s behind fits =
    let len : (if ltb s.sizep (s.writep + 1000) then s.sizep - s.writep else 1000)
        ≡ chunk (s.sizep - s.writep) =
      ground arith in
    let ok : leb s.writep s.sizep ≡ true = ground arith in
    let inside : s.writep + chunk (s.sizep - s.writep) ≤ buf_size = ground arith in
    rw (ok, len, copy_out_fits s.databuf s.writep (chunk (s.sizep - s.writep)) inside)

pub write_start_lem :
    (k : Kernel) (fd : ℕ) (s : MySocket) (bytes : List ℕ)
    → find fd k.socket_set ≡ some s
    → s.writep ≤ s.sizep
    → s.sizep + length bytes ≤ buf_size
    → write_start k fd bytes
      ≡ some (put_socket k fd (sending (filled s bytes)), first_packet (filled s bytes))
unfolding write_start my_write
write_start_lem k fd s bytes at behind fits = rw (
  at,
  copy_in_fits s.databuf s.sizep bytes fits,
  send_first_lem (filled s bytes) (omega arith) fits,
)

pub after_write-DataOut :
    (data' : Buffer) (n : ℕ) (p : Peers) (bytes : List ℕ)
    → Delivered data' n p
    → 0 < length bytes
    → DataOut (store data' n bytes) (n + length bytes) n (after_write p bytes)
after_write-DataOut data' n p bytes v some_bytes = record {
  sync = record {
    client_status = v.sync.client_status;
    client_role = v.sync.client_role;
    client_bytes = rw (v.sync.client_bytes, v.sync.client_size);
    client_size = rw (v.sync.client_size);
    server_status = v.sync.server_status;
    server_size = v.sync.server_size;
    agree = λ i low. v.sync.agree i low ∙ sym (store_below data' n bytes i low);
  };
  more = omega arith;
  g = segment_of (first_packet (filled p.client bytes));
  out = refl;
  flag = refl;
  seq = v.written;
  payload = rw (v.sync.client_bytes, v.sync.client_size, v.written);
  quiet = v.idle.1;
}

-- What has not been read yet, up to the end of a stream.
abbrev pub unread : Buffer → ℕ → MySocket → List ℕ
unread data' n s = slice data' s.readp (n - s.readp)

-- One __wrap_read of all that is there returns what was unread before a write, and then its bytes.
abbrev pub ReadsAll : Buffer → ℕ → Peers → Peers → List ℕ → Type 0
ReadsAll data' n p p' bytes =
    (s : MySocket) × (my_read p'.server (n - p.server.readp + length bytes)
      ≡ some (unread data' n p.server ++ bytes, s))
    × (s.readp ≡ s.sizep)

pub read_back :
    (data' : Buffer) (n readp : ℕ) (p : Peers) (bytes : List ℕ)
    → Delivered (store data' n bytes) (n + length bytes) p
    → n + length bytes ≤ buf_size
    → readp ≤ n
    → p.server.readp ≡ readp
    → (s : MySocket) × (my_read p.server (n - readp + length bytes)
        ≡ some (slice data' readp (n - readp) ++ bytes, s))
      × (s.readp ≡ s.sizep)
unfolding my_read
read_back data' n readp p bytes v fits low here =
    let all : ℕ = n - readp + length bytes in
    let buf : Buffer = store data' n bytes in
    let enough : ltb p.server.sizep (p.server.readp + all) ≡ false =
      ground (arith, v.sync.server_size) in
    let inside : p.server.readp + all ≤ buf_size = omega arith in
    let same : slice p.server.databuf readp all ≡ slice buf readp all =
      slice-cong p.server.databuf buf readp all (λ i above high. v.sync.agree i (omega arith)) in
    let old : slice buf readp (n - readp) ≡ slice data' readp (n - readp) =
      slice-cong buf data' readp (n - readp)
        (λ i above high. store_below data' n bytes i (omega arith)) in
    let at : readp + (n - readp) ≡ n = omega arith in
    let new : slice buf (readp + (n - readp)) (length bytes) ≡ bytes =
      rw at (slice-store data' n bytes) in
    let got : slice p.server.databuf p.server.readp all ≡ slice data' readp (n - readp) ++ bytes =
      ap (λ off. slice p.server.databuf off all) here
      ∙ (same ∙ (slice-append buf readp (n - readp) (length bytes) ∙ rw (old, new))) in
    (
      record p.server { readp = p.server.readp + all },
      rw (enough, copy_out_fits p.server.databuf p.server.readp all inside, got),
      omega (arith, v.sync.server_size),
    )

-- What the wait of __wrap_write sees: it is over when all is delivered, and before that only where the
-- first packet has carried everything.
pub write_waits :
    (data' : Buffer) (n : ℕ) (p : Peers) (bytes : List ℕ) (ds : List Delivery) {p' : Peers}
    → Delivered data' n p
    → 0 < length bytes
    → n + length bytes ≤ buf_size
    → deliver_all (after_write p bytes) ds ≡ some p'
    → Delivered (store data' n bytes) (n + length bytes) p'
      ⊎ ((write_returns p'.client ≡ false) ⊎ (length bytes ≤ 1000))
write_waits data' n p bytes ds {p'} v some_bytes fits h =
    let q : Peers = after_write p bytes in
    let out = after_write-DataOut data' n p bytes v some_bytes in
    let begun : Sending (store data' n bytes) (n + length bytes) (2 * length bytes) q =
      Sending.data_out n (omega arith) out in
    let now : Waits (store data' n bytes) (n + length bytes) fits (length bytes ≤ 1000) q =
      elim (dec_lt 1000 (length bytes)) [
        | yes long ↦
            inl (ground (arith, v.written, v.sync.client_size), omega (arith, v.sync.client_size))
        | no short ↦ inr (omega arith)
      ] in
    elim (Waits-all (store data' n bytes) (n + length bytes) fits (length bytes ≤ 1000)
      (2 * length bytes) q ds h begun (inr now)) [
        | inl done ↦ inl done
        | inr (inr short) ↦ inr (inr short)
        | inr (inl (behind, size)) ↦ inr (inl (ground arith))
      ]

-- From the wait of __wrap_write on.
pub after_write_lem :
    (data' : Buffer) (n : ℕ) (p : Peers) (bytes : List ℕ) (ds : List Delivery) {p' : Peers}
    → Delivered data' n p
    → 0 < length bytes
    → n + length bytes ≤ buf_size
    → p.server.readp ≤ n
    → deliver_all (after_write p bytes) ds ≡ some p'
    → ((length ds < 2 * length bytes)
        × Proceeds p'
        × ((write_returns p'.client ≡ false) ⊎ (length bytes ≤ 1000)))
      ⊎ (Delivered (store data' n bytes) (n + length bytes) p'
          × (write_returns p'.client ≡ true)
          × ReadsAll data' n p p' bytes)
after_write_lem data' n p bytes ds {p'} v some_bytes fits here h =
    let steady = deliver_all-BothSteady (after_write p bytes) ds h in
    elim (transfer (store data' n bytes) (n + length bytes) n (after_write p bytes) ds fits
      (after_write-DataOut data' n p bytes v some_bytes) h) [
        | inl (few, _, more) ↦ elim (write_waits data' n p bytes ds v some_bytes fits h) [
          | inl done ↦ inr (finished done steady)
          | inr waits ↦ inl (omega arith, more, waits)
        ]
        | inr done ↦ inr (finished done steady)
      ]
  where
    finished :
        Delivered (store data' n bytes) (n + length bytes) p'
        → BothSteady (after_write p bytes) p'
        → Delivered (store data' n bytes) (n + length bytes) p'
          × (write_returns p'.client ≡ true)
          × ReadsAll data' n p p' bytes
    finished done steady = (
      done,
      ground (arith, done.written, done.sync.client_size),
      read_back data' n p.server.readp p' bytes done fits here steady.server.readp,
    )

-- On a connection that has delivered `n` bytes, __wrap_write of at least one byte that fits into databuf
-- stores the bytes and sends its first packet without fault.
-- After any deliveries, of whatever packets in whatever order, either fewer than two for each byte
-- were made, a further one is possible without fault, and __wrap_write still waits if it writes more
-- than 1000 bytes; or both sides have the bytes behind the earlier ones, the wait of __wrap_write is
-- over, nothing is in flight, and one __wrap_read on the other side returns exactly what it had not
-- read yet of the first `n` bytes, followed by the bytes that were written.
pub write_read :
    (k : Kernel) (fd : ℕ) (data' : Buffer) (n : ℕ) (p : Peers) (bytes : List ℕ) (ds : List Delivery)
    {p' : Peers}
    → find fd k.socket_set ≡ some p.client
    → Delivered data' n p
    → 0 < length bytes
    → n + length bytes ≤ buf_size
    → p.server.readp ≤ n
    → deliver_all (after_write p bytes) ds ≡ some p'
    → (write_start k fd bytes
        ≡ some (put_socket k fd (after_write p bytes).client, first_packet (filled p.client bytes)))
      × (((length ds < 2 * length bytes)
            × Proceeds p'
            × ((write_returns p'.client ≡ false) ⊎ (length bytes ≤ 1000)))
          ⊎ (Delivered (store data' n bytes) (n + length bytes) p'
              × (write_returns p'.client ≡ true)
              × ReadsAll data' n p p' bytes))
write_read k fd data' n p bytes ds at v some_bytes fits here h = (
  write_start_lem k fd p.client bytes at (omega (arith, v.written, v.sync.client_size))
      (omega (arith, v.sync.client_size)),
  after_write_lem data' n p bytes ds v some_bytes fits here h,
)

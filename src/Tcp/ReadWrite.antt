-- ===== src/Tcp/ReadWrite.antt =====
-- mywrite and myread of include/core.h, one after the other on the same socket.
use i_tcp.Common.{
  ℕ, zero, suc, ◌+◌, ◌≤◌, ◌<◌, ◌≡◌, refl, ◌∙◌, none, some, List, [], ◌∷◌, arith, length, ltb, false,
  true, ◌++◌,
}
use i_tcp.Tcp.Types.{MySocket, Buffer, buf_size, slice, poke, store}
use i_tcp.Tcp.Data.{my_read, my_write}
use i_tcp.Tcp.Buffers.{store_below, copy_in_fits, copy_out_fits}

pub slice-cong :
    (a b : Buffer) (off n : ℕ)
    → ((i : ℕ) → off ≤ i → i < off + n → a i ≡ b i)
    → slice a off n ≡ slice b off n
unfolding slice
slice-cong a b off zero h = refl
slice-cong a b off (suc n) h =
    let here : a off ≡ b off = h off (omega arith) (omega arith) in
    let rest : slice a (off + 1) n ≡ slice b (off + 1) n =
      slice-cong a b (off + 1) n (λ i p q. h i (omega arith) (omega arith)) in
    cc (here, rest)

pub slice-store :
    (buf : Buffer) (off : ℕ) (bytes : List ℕ)
    → slice (store buf off bytes) off (length bytes) ≡ bytes
unfolding slice store
slice-store buf off [] = refl
slice-store buf off (b ∷ bs) =
    let here : store (poke buf off b) (off + 1) bs off ≡ b =
      store_below (poke buf off b) (off + 1) bs off (omega arith) ∙ ground arith in
    let rest : slice (store (poke buf off b) (off + 1) bs) (off + 1) (length bs) ≡ bs =
      slice-store (poke buf off b) (off + 1) bs in
    cc (here, rest)

pub slice-append :
    (buf : Buffer) (off m n : ℕ) → slice buf off (m + n) ≡ slice buf off m ++ slice buf (off + m) n
unfolding slice
slice-append buf off zero n =
    let e : 0 + n ≡ n = omega arith in let k : off + 0 ≡ off = omega arith in rw (e, k)
slice-append buf off (suc m) n =
    let e : off + 1 + m ≡ off + suc m = omega arith in
    let rest : slice buf (off + 1) (m + n) ≡ slice buf (off + 1) m ++ slice buf (off + 1 + m) n =
      slice-append buf (off + 1) m n in
    let m' : suc m + n ≡ suc (m + n) = omega arith in rw (m', rest, e)

-- On a socket whose buffer has `pending`, not yet read, up to `sizep`, and room for `bytes` behind
-- it: mywrite returns; a myread of as many bytes as both together then returns `pending` and `bytes`
-- behind it, and leaves nothing to read; and a myread of one byte more waits.
pub my_read-my_write :
    (s : MySocket) (pending bytes : List ℕ)
    → s.sizep ≡ s.readp + length pending
    → slice s.databuf s.readp (length pending) ≡ pending
    → s.sizep + length bytes ≤ buf_size
    → (s' s'' : MySocket) × (my_write s bytes ≡ some s')
      × (my_read s' (length pending + length bytes) ≡ some (pending ++ bytes, s''))
      × (s''.readp ≡ s''.sizep)
      × (my_read s' (length pending + length bytes + 1) ≡ none)
unfolding my_read my_write
my_read-my_write s pending bytes at held room =
    let buf : Buffer = store s.databuf s.sizep bytes in
    let size : ℕ = s.sizep + length bytes in
    let end : s.readp + (length pending + length bytes) ≡ s.sizep + length bytes = omega arith in
    let enough : ltb size (s.readp + (length pending + length bytes)) ≡ false = ground arith in
    let short : ltb size (s.readp + (length pending + length bytes + 1)) ≡ true = ground arith in
    let inside : s.readp + (length pending + length bytes) ≤ buf_size = omega arith in
    let old : slice buf s.readp (length pending) ≡ pending =
      slice-cong buf s.databuf s.readp (length pending)
        (λ i p q. store_below s.databuf s.sizep bytes i (omega arith))
      ∙ held in
    let new : slice buf (s.readp + length pending) (length bytes) ≡ bytes =
      rw (← at) (slice-store s.databuf s.sizep bytes) in
    let all : slice buf s.readp (length pending + length bytes) ≡ pending ++ bytes =
      slice-append buf s.readp (length pending) (length bytes) ∙ rw (old, new) in
    let s' : MySocket = record s { databuf = buf; sizep = size } in
    (
      s',
      record s' { readp = s.readp + (length pending + length bytes) },
      rw (copy_in_fits s.databuf s.sizep bytes room),
      rw (enough, copy_out_fits buf s.readp (length pending + length bytes) inside, all),
      end,
      rw short,
    )

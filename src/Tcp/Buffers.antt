-- ===== src/Tcp/Buffers.antt =====
-- The bytes of databuf after a copy into it.
use i_tcp.Common.{
  ℕ, zero, suc, ◌+◌, ◌≤◌, ◌<◌, ◌≡◌, refl, ◌∙◌, ap, some, List, [], ◌∷◌, arith, length,
}
use native.Mathlib.Decide.{dec_lt}
use i_tcp.Tcp.Types.{Buffer, buf_size, slice, poke, store, copy_in, copy_out}

pub length-slice : (buf : Buffer) (off n : ℕ) → length (slice buf off n) ≡ n
unfolding slice
length-slice buf off zero = refl
length-slice buf off (suc n) = ap suc (length-slice buf (off + 1) n)

-- Bytes outside of the copied range stay.
pub store_below :
    (buf : Buffer) (off : ℕ) (bytes : List ℕ) (i : ℕ) → i < off → store buf off bytes i ≡ buf i
unfolding store
store_below buf off [] i h = refl
store_below buf off (b ∷ bs) i h =
    store_below (poke buf off b) (off + 1) bs i (omega arith) ∙ ground arith

pub store_above :
    (buf : Buffer) (off : ℕ) (bytes : List ℕ) (i : ℕ)
    → off + length bytes ≤ i
    → store buf off bytes i ≡ buf i
unfolding store
store_above buf off [] i h = refl
store_above buf off (b ∷ bs) i h =
    store_above (poke buf off b) (off + 1) bs i (omega arith) ∙ ground arith

-- Bytes copied from the same place of another buffer are that buffer's.
pub store-slice :
    (from buf : Buffer) (off n i : ℕ)
    → off ≤ i
    → i < off + n
    → store buf off (slice from off n) i ≡ from i
unfolding store slice
store-slice from buf off zero i h k = absurd (omega arith)
store-slice from buf off (suc n) i h k = elim (dec_lt off i) [
  | yes p ↦ store-slice from (poke buf off (from off)) (off + 1) n i (omega arith) (omega arith)
  | no p ↦
      let e : off ≡ i = omega arith in
      store_below (poke buf off (from off)) (off + 1) (slice from (off + 1) n) i (omega arith)
      ∙ ground arith
]

pub copy_in_fits :
    (buf : Buffer) (off : ℕ) (bytes : List ℕ)
    → off + length bytes ≤ buf_size
    → copy_in buf off bytes ≡ some (store buf off bytes)
unfolding copy_in
copy_in_fits buf off bytes h = ground arith

pub copy_out_fits :
    (buf : Buffer) (off n : ℕ) → off + n ≤ buf_size → copy_out buf off n ≡ some (slice buf off n)
unfolding copy_out
copy_out_fits buf off n h = ground arith

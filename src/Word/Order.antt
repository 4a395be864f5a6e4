-- ===== src/Word/Order.antt =====
-- Byte order: what the fields of a struct hold after a write, and the two byte swaps of 16 bits.
use i_tcp.Common.{
  ℕ, ◌+◌, ◌*◌, ◌/◌, ◌%◌, ◌^◌, ◌<◌, ◌≡◌, refl, ◌∙◌, ap, sym, some, List, ◌++◌, ◌&&◌, arith, ◌==◌,
  counterexample, none, passes-below,
}
use i_tcp.Word.{
  le8, le16, le32, read8, read16, read32, ptr2ip_t, ip_t2ptr, h2n, change_endian, htonl,
}

pub read8-le8 : (x : ℕ) (rest : List ℕ) → x < 2 ^ 8 → read8 (le8 x ++ rest) ≡ some (x, rest)
unfolding read8
read8-le8 x rest h = ground arith

pub read16-le16 : (x : ℕ) (rest : List ℕ) → x < 2 ^ 16 → read16 (le16 x ++ rest) ≡ some (x, rest)
unfolding read16
read16-le16 x rest h = ground arith

pub read32-le32 : (x : ℕ) (rest : List ℕ) → x < 2 ^ 32 → read32 (le32 x ++ rest) ≡ some (x, rest)
unfolding read32
read32-le32 x rest h = ground arith

-- An address put into a buffer by ip_t2ptr is read back by ptr2ip_t, whatever follows it there.
pub ptr2ip_t-ip_t2ptr :
    (ip : ℕ) (rest : List ℕ) → ip < 2 ^ 32 → ptr2ip_t (ip_t2ptr ip ++ rest) ≡ some ip
unfolding ptr2ip_t ip_t2ptr
ptr2ip_t-ip_t2ptr ip rest h = ground arith

pub htonl-lt : (x : ℕ) → htonl x < 2 ^ 32
unfolding htonl
htonl-lt x = omega arith

-- Reversing the bytes of a word twice gives the word back.
pub htonl-htonl : (x : ℕ) → x < 2 ^ 32 → htonl (htonl x) ≡ x
unfolding htonl
htonl-htonl x h = omega arith

-- The exchange of the two bytes of a 16-bit word.
abbrev pub swapped : ℕ → ℕ
swapped x = x / 2 ^ 8 + x % 2 ^ 8 * 2 ^ 8

swap_table : counterexample (λ x. h2n x == swapped x && change_endian x == swapped x) 65536 ≡ none
unfolding counterexample h2n change_endian
swap_table = refl

swap_both : (x : ℕ) → x < 65536 → (h2n x ≡ swapped x) × (change_endian x ≡ swapped x)
swap_both x h = ground (
  arith,
  passes-below (λ x. h2n x == swapped x && change_endian x == swapped x) 65536 swap_table h,
)

pub h2n_lem : (x : ℕ) → x < 2 ^ 16 → h2n x ≡ swapped x
h2n_lem x h = (swap_both x h).0

pub change_endian_lem : (x : ℕ) → x < 2 ^ 16 → change_endian x ≡ swapped x
change_endian_lem x h = (swap_both x h).1

-- On a 16-bit word h2n and change_Endian are the same function, which exchanges the two bytes, and
-- either undoes itself.
pub h2n-change_endian :
    (x : ℕ)
    → x < 2 ^ 16
    → (h2n x ≡ change_endian x)
      × (change_endian x ≡ x / 2 ^ 8 + x % 2 ^ 8 * 2 ^ 8)
      × (h2n (h2n x) ≡ x)
      × (change_endian (change_endian x) ≡ x)
h2n-change_endian x h =
    let small : swapped x < 2 ^ 16 = omega arith in
    let back : swapped (swapped x) ≡ x = omega arith in
    (
      h2n_lem x h ∙ sym (change_endian_lem x h),
      change_endian_lem x h,
      ap h2n (h2n_lem x h) ∙ h2n_lem (swapped x) small ∙ back,
      ap change_endian (change_endian_lem x h) ∙ change_endian_lem (swapped x) small ∙ back,
    )

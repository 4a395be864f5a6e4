-- ===== src/Word/Flags.antt =====
-- The flag words of src/tcp.cc: bit 8 is FIN, bit 9 is SYN and bit 12 is ACK.
use i_tcp.Common.{
  ℕ, ◌^◌, ◌<◌, ◌≡◌, refl, Bool, true, not, ◌&&◌, arith, if◌then◌else◌, counterexample, none,
  passes-below,
}
use i_tcp.Word.{is_syn, is_fin, is_ack, set_syn, set_fin, set_ack}

abbrev same : Bool → Bool → Bool
same a b = if a then b else not b

abbrev sets : (ℕ → ℕ) → (ℕ → Bool) → (ℕ → Bool) → (ℕ → Bool) → ℕ → Bool
sets put this other another f =
    this (put f) && same (other (put f)) (other f) && same (another (put f)) (another f)

abbrev writes : ℕ → Bool
writes f =
    sets set_syn is_syn is_fin is_ack f
    && (sets set_fin is_fin is_syn is_ack f && sets set_ack is_ack is_syn is_fin f)

writes_table : counterexample writes 65536 ≡ none
unfolding counterexample is_syn is_fin is_ack set_syn set_fin set_ack
writes_table = refl

-- Each setter sets its own flag of a 16-bit word and leaves the other two as they were.
pub set_flags :
    (f : ℕ)
    → f < 2 ^ 16
    → ((is_syn (set_syn f) ≡ true)
        × (is_fin (set_syn f) ≡ is_fin f)
        × (is_ack (set_syn f) ≡ is_ack f))
      × ((is_fin (set_fin f) ≡ true)
          × (is_syn (set_fin f) ≡ is_syn f)
          × (is_ack (set_fin f) ≡ is_ack f))
      × ((is_ack (set_ack f) ≡ true)
          × (is_syn (set_ack f) ≡ is_syn f)
          × (is_fin (set_ack f) ≡ is_fin f))
set_flags f h = ground (arith, passes-below writes 65536 writes_table h)

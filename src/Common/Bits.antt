-- ===== src/Common/Bits.antt =====
-- The search for a value below a bound at which a test fails. Facts about bits of a 16-bit word are
-- settled by it: the search is run, and finds none.
use Prim.Native.Nat.{ℕ, zero, suc, ◌<◌}
use mathlib.Core.Path.{◌≡◌}
use mathlib.Core.Bool.{Bool, true}
use mathlib.Core.Option.{Option, none, some}
use native.Mathlib.Omega.{arith}
use native.Mathlib.Decide.{dec_lt}
use i_tcp.Common.Tests.{if◌then◌else◌}

unfoldable pub counterexample : (ℕ → Bool) → ℕ → Option ℕ
counterexample test zero = none
counterexample test (suc bound) =
    let further = counterexample test bound in if test bound then further else some bound

pub passes-below :
    (test : ℕ → Bool) (bound : ℕ) {x : ℕ}
    → counterexample test bound ≡ none
    → x < bound
    → test x ≡ true
unfolding counterexample
passes-below test zero searched below = absurd (omega arith)
passes-below test (suc bound) {x} searched below = elim (dec_lt x bound) [
  | yes lower ↦ passes-below test bound (ground (arith, searched)) lower
  | no top ↦ let e : bound ≡ x = omega arith in rw (← e) (ground (arith, searched))
]

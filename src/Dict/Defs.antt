-- ===== src/Dict/Defs.antt =====
-- The operations of std::map that the program calls, over any ordered key.
use i_tcp.Common.{
  ℕ, ◌≡◌, ◌↔◌, Bool, true, false, ◌&&◌, ◌||◌, Option, none, some, List, [], ◌∷◌, arith, ltb, ◌==◌,
  ==_iff, if◌then◌else◌, All,
}

-- operator< of a key type, and equality.
pub record Ordered {ℓ} (K : Type ℓ) : Type ℓ where
  pub before : K → K → Bool
  pub same : K → K → Bool
  pub same_iff : (a b : K) → (same a b ≡ true) ↔ (a ≡ b)
  pub irreflexive : (a : K) → before a a ≡ false
  pub transitive : (a b c : K) → before a b ≡ true → before b c ≡ true → before a c ≡ true
  pub connected : (a b : K) → same a b ≡ false → before a b ≡ false → before b a ≡ true

module _ {ℓ κ} {K : Type ℓ} ⦃o : Ordered K⦄ {V : Type κ} where
  unfoldable pub find : K → List (K × V) → Option V
  find k [] = none
  find k ((j, v) ∷ m) = if o.same j k then some v else find k m

  -- insert: an entry that is there stays as it is.
  unfoldable pub insert : K → V → List (K × V) → List (K × V)
  insert k v [] = (k, v) ∷ []
  insert k v ((j, w) ∷ m) =
      if o.same j k
      then (j, w) ∷ m
      else (if o.before k j then (k, v) ∷ (j, w) ∷ m else (j, w) ∷ insert k v m)

  -- An assignment through the iterator that find returned.
  unfoldable pub assign : K → V → List (K × V) → List (K × V)
  assign k v [] = []
  assign k v ((j, w) ∷ m) = if o.same j k then (j, v) ∷ m else (j, w) ∷ assign k v m

  -- Keys ascend, so no key occurs twice.
  abbrev pub Ascends : List (K × V) → Type ℓ
  Ascends [] = Unit
  Ascends ((k, v) ∷ m) = All (λ e. o.before k e.0 ≡ true) m × Ascends m

pub ltb_irreflexive : (a : ℕ) → ltb a a ≡ false
ltb_irreflexive a = ground arith

pub ltb_transitive : (a b c : ℕ) → ltb a b ≡ true → ltb b c ≡ true → ltb a c ≡ true
ltb_transitive a b c p q = ground arith

pub ltb_connected : (a b : ℕ) → (a == b) ≡ false → ltb a b ≡ false → ltb b a ≡ true
ltb_connected a b p q = ground arith

instance abbrev pub nat_ordered : Ordered ℕ
nat_ordered = record {
  before = ltb;
  same = ◌==◌;
  same_iff = ==_iff;
  irreflexive = ltb_irreflexive;
  transitive = ltb_transitive;
  connected = ltb_connected;
}

-- std::pair compares its first components, and where they are equal its second ones.
abbrev pub pair_before : ℕ × ℕ → ℕ × ℕ → Bool
pair_before (a, b) (c, d) = ltb a c || a == c && ltb b d

abbrev pub pair_same : ℕ × ℕ → ℕ × ℕ → Bool
pair_same (a, b) (c, d) = a == c && b == d

pub pair_same_iff : (a b : ℕ × ℕ) → (pair_same a b ≡ true) ↔ (a ≡ b)
pair_same_iff (a, b) (c, d) = (λ h. ground arith, λ h. ground arith)

pub pair_irreflexive : (a : ℕ × ℕ) → pair_before a a ≡ false
pair_irreflexive (a, b) = ground arith

pub pair_transitive :
    (a b c : ℕ × ℕ) → pair_before a b ≡ true → pair_before b c ≡ true → pair_before a c ≡ true
pair_transitive (a, b) (c, d) (e, f) p q = ground arith

pub pair_connected :
    (a b : ℕ × ℕ) → pair_same a b ≡ false → pair_before a b ≡ false → pair_before b a ≡ true
pair_connected (a, b) (c, d) p q = ground arith

instance abbrev pub pair_ordered : Ordered (ℕ × ℕ)
pair_ordered = record {
  before = pair_before;
  same = pair_same;
  same_iff = pair_same_iff;
  irreflexive = pair_irreflexive;
  transitive = pair_transitive;
  connected = pair_connected;
}

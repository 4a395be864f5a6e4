-- ===== src/Dict/Laws.antt =====
-- What find sees after an insertion or an assignment, and that keys stay in ascending order.
use i_tcp.Common.{
  ◌≡◌, refl, true, false, none, some, List, [], ◌∷◌, arith, if◌then◌else◌, All, Bool-cases,
  Option-cases, ◌⊎◌, inl, inr,
}
use i_tcp.Dict.Defs.{Ordered, find, insert, assign, Ascends}

same_sym {ℓ} : {K : Type ℓ} ⦃o : Ordered K⦄ (k j : K) → o.same j k ≡ false → o.same k j ≡ false
same_sym ⦃o⦄ k j s = ground (arith, o.same_iff j k, o.same_iff k j)

module _ {ℓ κ} {K : Type ℓ} ⦃o : Ordered K⦄ {V : Type κ} where
  -- After an insertion under a key that was absent, that key has the new value and every other key
  -- what it had.
  pub find-insert :
      (j k : K) (v : V) (m : List (K × V))
      → find k m ≡ none
      → find j (insert k v m) ≡ (if o.same k j then some v else find j m)
  unfolding find insert
  find-insert j k v [] h = refl
  find-insert j k v ((i, w) ∷ m) h =
      ground (arith, o.same_iff i j, o.same_iff k j, o.same_iff i k, find-insert j k v m)

  pub find-assign :
      (j k : K) (v w : V) (m : List (K × V))
      → find k m ≡ some w
      → find j (assign k v m) ≡ (if o.same k j then some v else find j m)
  unfolding find assign
  find-assign j k v w [] h = cc
  find-assign j k v w ((i, u) ∷ m) h =
      ground (arith, o.same_iff i j, o.same_iff k j, o.same_iff i k, find-assign j k v w m)

  assign-after :
      (i k : K) (v : V) (m : List (K × V))
      → All (λ e. o.before i e.0 ≡ true) m
      → All (λ e. o.before i e.0 ≡ true) (assign k v m)
  unfolding assign
  assign-after i k v [] h = tt
  assign-after i k v ((j, w) ∷ m) h = ground (arith, assign-after i k v m)

  pub assign-Ascends : (k : K) (v : V) (m : List (K × V)) → Ascends m → Ascends (assign k v m)
  unfolding assign
  assign-Ascends k v [] h = tt
  assign-Ascends k v ((j, w) ∷ m) h = ground (arith, assign-after j k v m, assign-Ascends k v m)

  insert-after :
      (i k : K) (v : V) (m : List (K × V))
      → o.before i k ≡ true
      → All (λ e. o.before i e.0 ≡ true) m
      → All (λ e. o.before i e.0 ≡ true) (insert k v m)
  unfolding insert
  insert-after i k v [] p h = (p, tt)
  insert-after i k v ((j, w) ∷ m) p h = ground (arith, insert-after i k v m)

  pub after_trans :
      (k j : K) (m : List (K × V))
      → o.before k j ≡ true
      → All (λ e. o.before j e.0 ≡ true) m
      → All (λ e. o.before k e.0 ≡ true) m
  after_trans k j [] p h = tt
  after_trans k j ((i, w) ∷ m) p h = (o.transitive k j i p h.0, after_trans k j m p h.1)

  pub insert-Ascends : (k : K) (v : V) (m : List (K × V)) → Ascends m → Ascends (insert k v m)
  unfolding insert
  insert-Ascends k v [] h = (tt, tt)
  insert-Ascends k v ((j, w) ∷ m) h = elim (Bool-cases (o.same j k)) [
    | inl s ↦ rw s h
    | inr s ↦ elim (Bool-cases (o.before k j)) [
      | inl b ↦ rw (s, b) ((b, after_trans k j m b h.0), h)
      | inr b ↦
          rw (s, b)
            (
              insert-after j k v m (o.connected k j (same_sym k j s) b) h.0,
              insert-Ascends k v m h.1,
            )
    ]
  ]

  -- No entry has a key that stands before all of them.
  pub find_after : (k : K) (m : List (K × V)) → All (λ e. o.before k e.0 ≡ true) m → find k m ≡ none
  unfolding find
  find_after k [] h = refl
  find_after k ((j, w) ∷ m) h = ground (arith, o.same_iff j k, o.irreflexive k, find_after k m)

  pub find-cases : (k : K) (m : List (K × V)) → (find k m ≡ none) ⊎ ((v : V) × (find k m ≡ some v))
  find-cases k m = Option-cases (find k m)

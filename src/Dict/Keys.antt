-- ===== src/Dict/Keys.antt =====
-- The keys of a std::map, before and after an insertion or an assignment.
use i_tcp.Common.{
  ◌≡◌, refl, ◌∙◌, ap, true, none, some, List, [], ◌∷◌, map, All, Bool-cases, inl, inr, ◌⊎◌,
}
use i_tcp.Dict.Defs.{Ordered, find, insert, assign, Ascends}
use i_tcp.Dict.Laws.{find_after, after_trans, find-insert, find-cases}

abbrev pub keys {ℓ κ} : {K : Type ℓ} {V : Type κ} → List (K × V) → List K
keys {K = K} {V = V} m = map (λ (e : K × V). e.0) m

module _ {ℓ κ} {K : Type ℓ} ⦃o : Ordered K⦄ {V : Type κ} where
  abbrev pub Has : K → List (K × V) → Type κ
  Has k m = (v : V) × (find k m ≡ some v)

  pub keys-assign : (k : K) (v : V) (m : List (K × V)) → keys (assign k v m) ≡ keys m
  unfolding assign
  keys-assign k v [] = refl
  keys-assign k v ((j, w) ∷ m) = elim (Bool-cases (o.same j k)) [
    | inl e ↦ rw e refl
    | inr e ↦ rw e (ap (λ l. j ∷ l) (keys-assign k v m))
  ]

  pub keys-Has : (k : K) (m m' : List (K × V)) → keys m ≡ keys m' → Has k m → Has k m'
  unfolding find
  keys-Has k [] m' e (v, h) = absurd (cc h)
  keys-Has k ((i, w) ∷ m) [] e (v, h) = absurd (cc e)
  keys-Has k ((i, w) ∷ m) ((j, u) ∷ m') e (v, h) =
      let same : i ≡ j = cc e in
      let tail : keys m ≡ keys m' = cc e in
      elim (Bool-cases (o.same j k)) [
        | inl t ↦ (u, rw t refl)
        | inr t ↦ rw t (keys-Has k m m' tail (v, rw (same, t) at h))
      ]

  keys-All :
      (k : K) (m m' : List (K × V))
      → keys m ≡ keys m'
      → All (λ e. o.before k e.0 ≡ true) m
      → All (λ e. o.before k e.0 ≡ true) m'
  keys-All k m [] e h = tt
  keys-All k [] ((j, u) ∷ m') e h = absurd (cc e)
  keys-All k ((i, w) ∷ m) ((j, u) ∷ m') e (p, h) =
      let same : i ≡ j = cc e in
      let tail : keys m ≡ keys m' = cc e in (rw same at p, keys-All k m m' tail h)

  pub keys-Ascends : (m m' : List (K × V)) → keys m ≡ keys m' → Ascends m → Ascends m'
  keys-Ascends m [] e h = tt
  keys-Ascends [] ((j, u) ∷ m') e h = absurd (cc e)
  keys-Ascends ((i, w) ∷ m) ((j, u) ∷ m') e (p, h) =
      let same : i ≡ j = cc e in
      let tail : keys m ≡ keys m' = cc e in
      (keys-All j m m' tail (rw same at p), keys-Ascends m m' tail h)

  insert_present :
      (k : K) (v w : V) (m : List (K × V)) → Ascends m → find k m ≡ some w → insert k v m ≡ m
  unfolding insert find
  insert_present k v w [] asc h = absurd (cc h)
  insert_present k v w ((j, u) ∷ m) (after, asc) h = elim (Bool-cases (o.same j k)) [
    | inl e ↦ rw e refl
    | inr e ↦ elim (Bool-cases (o.before k j)) [
      | inl b ↦ absurd (cc (rw e at h, find_after k m (after_trans k j m b after)))
      | inr b ↦ rw (e, b) (ap (λ l. (j, u) ∷ l) (insert_present k v w m asc (rw e at h)))
    ]
  ]

  -- After an insertion a key has the new value, if it is the inserted one and was absent, or what it
  -- had.
  pub find-insert_cases :
      (j k : K) (v : V) (m : List (K × V))
      → Ascends m
      → (find j (insert k v m) ≡ find j m)
        ⊎ ((k ≡ j) × (find j m ≡ none) × (find j (insert k v m) ≡ some v))
  find-insert_cases j k v m asc = elim (find-cases k m) [
    | inl free ↦ elim (Bool-cases (o.same k j)) [
      | inl e ↦
          let same : k ≡ j = (o.same_iff k j).0 e in
          inr (same, cc (same, free), find-insert j k v m free ∙ rw e refl)
      | inr e ↦ inl (find-insert j k v m free ∙ rw e refl)
    ]
    | inr (w, at) ↦ inl (ap (find j) (insert_present k v w m asc at))
  ]

  pub insert-Has : (j k : K) (v : V) (m : List (K × V)) → Ascends m → Has j m → Has j (insert k v m)
  insert-Has j k v m asc (w, at) = elim (find-insert_cases j k v m asc) [
    | inl e ↦ (w, e ∙ at)
    | inr (_, _, e) ↦ (v, e)
  ]

  pub key_inserted : (k : K) (v : V) (m : List (K × V)) → Ascends m → Has k (insert k v m)
  key_inserted k v m asc = elim (find-cases k m) [
    | inl free ↦
        let self : o.same k k ≡ true = (o.same_iff k k).1 refl in
        (v, find-insert k k v m free ∙ rw self refl)
    | inr (w, at) ↦ (w, ap (find k) (insert_present k v w m asc at) ∙ at)
  ]

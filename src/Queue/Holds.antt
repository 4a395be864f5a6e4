-- ===== src/Queue/Holds.antt =====
-- The ring of include/utils.h holds a sequence of items: push appends to it and pop takes its head.
use native.Mathlib.Decide.{dec_lt}
use native.Mathlib.Nat.{mod-add-mod, mod-eq_of_lt, mod-eq-sub-mod, add-zero}
use i_tcp.Common.{
  ℕ, suc, ◌+◌, ◌-◌, ◌%◌, ◌≤◌, ◌<◌, ◌≡◌, refl, sym, ap, ◌↔◌, ◌⊎◌, inl, inr, ==_iff, true, ◌∙◌, ◌≢◌,
  none, some, List, [], ◌∷◌, ◌++◌, arith, length, get_elem?, set, length-append, length-set,
  length-replicate, get_elem?-set_self, get_elem?-set_ne,
}
use mathlib.Core.Path.{subst}
use i_tcp.Queue.{BlockingQueue, new, is_empty, is_full, push, pop}

module _ {ℓ} {A : Type ℓ} where
  -- The slots from `h` on, going round at `m`, hold these items.
  abbrev pub Slots : List A → ℕ → ℕ → List A → Type ℓ
  Slots vt m h [] = Unit
  Slots vt m h (x ∷ xs) = (get_elem? vt h ≡ some x) × Slots vt m ((h + 1) % m) xs

  -- The queue's indices are in range and its slots from _start to _end hold exactly `xs`.
  pub record Holds (q : BlockingQueue A) (xs : List A) : Type ℓ where
    pub storage : length q.vt ≡ q.capacity + 1
    pub start_in : q.start < q.capacity + 1
    pub fits : length xs ≤ q.capacity
    pub end_at : q.end ≡ (q.start + length xs) % (q.capacity + 1)
    pub slots : Slots q.vt (q.capacity + 1) q.start xs

-- Fewer than `m` steps round the ring do not come back to where they began.
round-ne : (m h k : ℕ) → h < m → suc k < m → (h + suc k) % m ≢ h
round-ne m h k hh hk = elim (dec_lt (h + suc k) m) [
  | yes p ↦ omega (arith, mod-eq_of_lt p)
  | no p ↦ omega (
    arith,
    mod-eq-sub-mod {n = h + suc k} {m = m} (omega arith),
    mod-eq_of_lt {n = h + suc k - m} {m = m} (omega arith),
  )
]

round-shift : (m h k : ℕ) → (h + suc k) % m ≡ ((h + 1) % m + k) % m
round-shift m h k = rw mod-add-mod (ap (λ t. t % m) (omega arith))

module _ {ℓ} {A : Type ℓ} where
  Slots-set :
      (vt : List A) (m h i : ℕ) (e : A) (xs : List A)
      → length vt ≡ m
      → h < m
      → length xs < m
      → i ≡ (h + length xs) % m
      → Slots vt m h xs
      → Slots (set vt i e) m h (xs ++ (e ∷ []))
  Slots-set vt m h i e [] hv hh hx hi hs =
      (rw (hi, add-zero, mod-eq_of_lt hh) (get_elem?-set_self vt h e (omega arith)), tt)
  Slots-set vt m h i e (x ∷ xs) hv hh hx hi hs = (
    get_elem?-set_ne vt e (λ p. round-ne m h (length xs) hh hx (sym hi ∙ p)) ∙ hs.0,
    Slots-set vt m ((h + 1) % m) i e xs hv (omega arith) (omega arith)
        (hi ∙ round-shift m h (length xs)) hs.1,
  )

  -- A new queue holds nothing.
  pub new-Holds : (capacity : ℕ) (blank : A) → Holds (new capacity blank) []
  unfolding new
  new-Holds capacity blank = record {
    storage = length-replicate (capacity + 1) blank;
    start_in = omega arith;
    fits = omega arith;
    end_at = omega arith;
    slots = tt;
  }

-- Where the end of `n` items from `start` lies, and what isfull and isempty compute there.
module _ (start n cap : ℕ) (hs : start < cap + 1) (hn : n ≤ cap) where
  full_room : (start + cap - (start + n) % (cap + 1)) % (cap + 1) ≡ cap - n
  full_room = elim (dec_lt (start + n) (cap + 1)) [
    | yes p ↦
        let e : start + cap - (start + n) ≡ cap - n = omega arith in
        rw (mod-eq_of_lt p, e) (mod-eq_of_lt (omega arith))
    | no p ↦
        let e : start + cap - (start + n - (cap + 1)) ≡ cap - n + (cap + 1) = omega arith in
        let f : cap - n + (cap + 1) - (cap + 1) ≡ cap - n = omega arith in
        rw
          (
            mod-eq-sub-mod {n = start + n} {m = cap + 1} (omega arith),
            mod-eq_of_lt {n = start + n - (cap + 1)} {m = cap + 1} (omega arith),
            e,
          )
          (rw (mod-eq-sub-mod {n = cap - n + (cap + 1)} {m = cap + 1} (omega arith), f)
            (mod-eq_of_lt (omega arith)))
  ]

  end_home : (start + n) % (cap + 1) ≡ start → n ≡ 0
  end_home h = elim (dec_lt (start + n) (cap + 1)) [
    | yes p ↦ omega (arith, mod-eq_of_lt p)
    | no p ↦ omega (
      arith,
      mod-eq-sub-mod {n = start + n} {m = cap + 1} (omega arith),
      mod-eq_of_lt {n = start + n - (cap + 1)} {m = cap + 1} (omega arith),
    )
  ]

module _ {ℓ} {A : Type ℓ} where
  -- isfull is true exactly when the queue holds `capacity` items.
  pub full_iff :
      {q : BlockingQueue A} (xs : List A)
      → Holds q xs
      → (is_full q ≡ true) ↔ (length xs ≡ q.capacity)
  unfolding is_full
  full_iff {q} xs v =
      let room : (q.start + q.capacity - q.end) % (q.capacity + 1) ≡ q.capacity - length xs =
        rw (v.end_at) (full_room q.start (length xs) q.capacity v.start_in v.fits) in
      ground arith

  -- push waits exactly when the queue holds `capacity` items; otherwise it appends its item.
  pub push_lem :
      {q : BlockingQueue A} {xs : List A} (e : A)
      → Holds q xs
      → (length xs ≡ q.capacity → push q e ≡ none)
        × (length xs < q.capacity
            → (q' : BlockingQueue A) × (push q e ≡ some q') × Holds q' (xs ++ (e ∷ [])))
  unfolding push
  push_lem {q} {xs} e v = (
    λ h. rw ((full_iff xs v).1 h),
    λ h. (
      record q { end = (q.end + 1) % (q.capacity + 1); vt = set q.vt q.end e },
      ground (arith, full_iff xs v),
      record {
        storage = length-set q.vt q.end e ∙ v.storage;
        start_in = v.start_in;
        fits = omega (arith, length-append {ℓ} xs (e ∷ []));
        end_at =
            rw (v.end_at, mod-add-mod)
              (ap (λ t. t % (q.capacity + 1)) (omega (arith, length-append {ℓ} xs (e ∷ []))));
        slots =
            Slots-set q.vt (q.capacity + 1) q.start q.end e xs v.storage v.start_in (omega arith)
              v.end_at v.slots;
      },
    ),
  )

  -- isempty is true exactly when the queue holds nothing.
  pub empty_iff :
      {q : BlockingQueue A} (xs : List A) → Holds q xs → (is_empty q ≡ true) ↔ (length xs ≡ 0)
  unfolding is_empty
  empty_iff {q} xs v = (
    λ h.
        end_home q.start (length xs) q.capacity v.start_in v.fits
          (sym v.end_at ∙ (==_iff q.end q.start).0 h),
    λ h.
        let back : q.end ≡ q.start = v.end_at ∙ rw (h, add-zero) (mod-eq_of_lt v.start_in) in
        ground arith,
  )

  pop_cons :
      {q : BlockingQueue A} (x : A) (rest : List A)
      → Holds q (x ∷ rest)
      → (q' : BlockingQueue A) × (pop q ≡ some (x, q')) × Holds q' rest
  unfolding pop
  pop_cons {q} x rest v =
      let busy : is_empty q ≢ true = λ h. omega (arith, (empty_iff (x ∷ rest) v).0 h) in
      (
        record q { start = (q.start + 1) % (q.capacity + 1) },
        ground (arith, v.slots.0),
        record {
          storage = v.storage;
          start_in = omega arith;
          fits = omega arith;
          end_at = v.end_at ∙ round-shift (q.capacity + 1) q.start (length rest);
          slots = v.slots.1;
        },
      )

  -- pop waits exactly when the queue holds nothing; otherwise it takes the oldest item.
  pub pop_lem :
      {q : BlockingQueue A} {xs : List A}
      → Holds q xs
      → (length xs ≡ 0 → pop q ≡ none)
        × ((x : A) (rest : List A)
            → xs ≡ x ∷ rest
            → (q' : BlockingQueue A) × (pop q ≡ some (x, q')) × Holds q' rest)
  unfolding pop
  pop_lem {q} {xs} v =
      (λ h. rw ((empty_iff xs v).1 h), λ x rest h. pop_cons x rest (subst (Holds q) h v))

  pub capacity-push :
      (q : BlockingQueue A) (e : A) {q' : BlockingQueue A}
      → push q e ≡ some q'
      → q'.capacity ≡ q.capacity
  unfolding push
  capacity-push q e h = ground arith

  pub capacity-pop :
      (q : BlockingQueue A) {x : A} {q' : BlockingQueue A}
      → pop q ≡ some (x, q')
      → q'.capacity ≡ q.capacity
  unfolding pop
  capacity-pop q h = ground arith

  -- On a queue that holds `xs`, push waits if `xs` fills the capacity, and otherwise returns a queue
  -- that holds `xs` with the item behind it.
  pub push_cases :
      {q : BlockingQueue A} {xs : List A} (e : A)
      → Holds q xs
      → ((push q e ≡ none) × (length xs ≡ q.capacity))
        ⊎ ((q' : BlockingQueue A) × (push q e ≡ some q')
            × Holds q' (xs ++ (e ∷ []))
            × (length xs < q.capacity))
  push_cases {q} {xs} e v = elim (dec_lt (length xs) q.capacity) [
    | yes p ↦ let (q', a, b) = (push_lem e v).1 p in inr (q', a, b, p)
    | no p ↦
        let full : length xs ≡ q.capacity = omega (arith, v.fits) in
        inl ((push_lem e v).0 full, full)
  ]

  -- On a queue that holds `xs`, pop waits if `xs` is empty, and otherwise returns the head of `xs`
  -- and a queue that holds the rest.
  pub pop_cases :
      {q : BlockingQueue A} (xs : List A)
      → Holds q xs
      → ((pop q ≡ none) × (xs ≡ []))
        ⊎ ((x : A) × (rest : List A) × (q' : BlockingQueue A) × (xs ≡ x ∷ rest)
            × (pop q ≡ some (x, q'))
            × Holds q' rest)
  pop_cases [] v = inl ((pop_lem v).0 refl, refl)
  pop_cases (x ∷ rest) v =
      let (q', a, b) = (pop_lem v).1 x rest refl in inr (x, rest, q', refl, a, b)

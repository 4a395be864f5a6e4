-- ===== src/Queue/Schedule.antt =====
-- Threads that share one queue of include/utils.h: every interleaving of their calls of push and
-- pop. A call that must wait leaves the queue alone, and its thread tries again later.
use i_tcp.Common.{ℕ, ◌≤◌, ◌≡◌, refl, ap, none, some, List, [], ◌∷◌, ◌++◌, arith, length, ◌∙◌, sym}
use mathlib.Core.List.{append_assoc}
use native.Mathlib.Decide.{dec_lt}
use i_tcp.Queue.{BlockingQueue, new, push, pop}
use i_tcp.Queue.Holds.{Holds, new-Holds, push_lem, pop_lem, capacity-push, capacity-pop}

pub data Call {ℓ} (A : Type ℓ) : Type ℓ where
  put : A → Call A
  take : Call A

-- The queue, with the items that it has accepted and those that it has handed out, in order.
pub record Trace {ℓ} (A : Type ℓ) : Type ℓ where
  pub queue : BlockingQueue A
  pub accepted : List A
  pub taken : List A

module _ {ℓ} {A : Type ℓ} where
  unfoldable pub attempt : Trace A → Call A → Trace A
  attempt t (put e) = elim (push t.queue e) [
    | none ↦ t
    | some q ↦ record t { queue = q; accepted = t.accepted ++ (e ∷ []) }
  ]
  attempt t take = elim (pop t.queue) [
    | none ↦ t
    | some (x, q) ↦ record t { queue = q; taken = t.taken ++ (x ∷ []) }
  ]

  unfoldable pub run : Trace A → List (Call A) → Trace A
  unfolding attempt
  run t [] = t
  run t (c ∷ cs) = run (attempt t c) cs

  -- What went in is what came out, in order, followed by what the queue still holds.
  abbrev InOrder : ℕ → Trace A → Type ℓ
  InOrder capacity t =
      (held : List A) × Holds t.queue held
      × (t.accepted ≡ t.taken ++ held)
      × (t.queue.capacity ≡ capacity)

  attempt-InOrder :
      (capacity : ℕ) (t : Trace A) (c : Call A)
      → InOrder capacity t
      → InOrder capacity (attempt t c)
  unfolding attempt
  attempt-InOrder capacity t (put e) (held, v, eq, cap) =
      elim (dec_lt (length held) t.queue.capacity) [
        | yes p ↦
            let (q, pushed, v') = (push_lem e v).1 p in
            rw (pushed, attempt)
              (
                held ++ (e ∷ []),
                v',
                ap (λ l. l ++ (e ∷ [])) eq ∙ append_assoc t.taken held (e ∷ []),
                capacity-push t.queue e pushed ∙ cap,
              )
        | no p ↦ rw ((push_lem e v).0 (omega (arith, v.fits)), attempt) (held, v, eq, cap)
      ]
  attempt-InOrder capacity t take ([], v, eq, cap) =
      rw ((pop_lem v).0 refl, attempt) ([], v, eq, cap)
  attempt-InOrder capacity t take (x ∷ held, v, eq, cap) =
      let (q, popped, v') = (pop_lem v).1 x held refl in
      rw (popped, attempt)
        (held, v', eq ∙ sym (append_assoc t.taken (x ∷ []) held), capacity-pop t.queue popped ∙ cap)

  run-InOrder :
      (capacity : ℕ) (t : Trace A) (cs : List (Call A))
      → InOrder capacity t
      → InOrder capacity (run t cs)
  unfolding run
  run-InOrder capacity t [] v = v
  run-InOrder capacity t (c ∷ cs) v =
      run-InOrder capacity (attempt t c) cs (attempt-InOrder capacity t c v)

  -- Whatever calls of push and pop the threads make on a new queue, and in whatever order the mutex
  -- lets them in, the items handed out are a prefix of the items accepted, in the same order, and
  -- the queue holds exactly the rest, never more than its capacity.
  pub run_fifo :
      (capacity : ℕ) (blank : A) (cs : List (Call A))
      → let t = run (record { queue = new capacity blank; accepted = []; taken = [] }) cs in
        (held : List A) × Holds t.queue held
        × (t.accepted ≡ t.taken ++ held)
        × (length held ≤ capacity)
  run_fifo capacity blank cs =
      let t : Trace A = record { queue = new capacity blank; accepted = []; taken = [] } in
      let (held, v, eq, cap) =
        run-InOrder capacity t cs ([], new-Holds capacity blank, refl, unfold new in refl) in
      (held, v, eq, omega (arith, v.fits, cap))

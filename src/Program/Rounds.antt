-- ===== src/Program/Rounds.antt =====
-- The next round of processIPPacket (src/daemon.cc) on the packets that wait.
use mathlib.Core.Path.{subst}
use mathlib.Core.List.{append_assoc, append-nil}
use i_tcp.Common.{
  ℕ, ◌≡◌, refl, sym, ap, ◌∙◌, true, none, some, List, [], ◌∷◌, ◌++◌, map, ◌==◌, Option-cases,
  Bool-cases, ==_iff, ◌⊎◌, inl, inr, >>=-eq-some,
}
use i_tcp.Dict.{
  find, find-cases, assign, nat_ordered, find-assign, keys-assign, keys-Has, assign-Ascends,
}
use i_tcp.Queue.{BlockingQueue, pop}
use i_tcp.Queue.Holds.{Holds, pop_lem}
use i_tcp.Tcp.Types.{MySocket, Segment, Reply}
use i_tcp.Tcp.Wire.{parse_packet}
use i_tcp.Tcp.Handler.{handle}
use i_tcp.Tcp.Kernel.{Kernel, process_ip_packet}
use i_tcp.Program.Backlog.{IsBacklog, some_injective}
use i_tcp.Program.Calls.{Given, next, packets_of}

-- What the next round of processIPPacket takes.
data Taken (k : Kernel) (rest : List Given) : ℕ → List ℕ → Type 0 where
  parts :
      (fd : ℕ) (buf : List ℕ) (u : BlockingQueue ℕ) (q q' : BlockingQueue (List ℕ))
      → pop k.un_solved_socket ≡ some (fd, u)
      → find fd k.socket_queue ≡ some q
      → pop q ≡ some (buf, q')
      → Holds u (map (λ (e : Given). e.0) rest)
      → Holds q' (packets_of fd rest)
      → Taken k rest fd buf

next-Taken :
    (k : Kernel) (fd : ℕ) (buf : List ℕ) (rest : List Given)
    → IsBacklog k ((fd, buf) ∷ rest)
    → Taken k rest fd buf
unfolding packets_of
next-Taken k fd buf rest v =
    let (u, first, w) = (pop_lem v.noted).1 fd (map (λ (e : Given). e.0) rest) refl in
    let self : (fd == fd) ≡ true = (==_iff fd fd).1 refl in
    elim (find-cases fd k.socket_queue) [
      | inl none' ↦ absurd (cc (rw self at (v.known fd none')))
      | inr (q, at) ↦
          let (q', popped, w') =
            (pop_lem (v.queues fd q at)).1 buf (packets_of fd rest) (rw self refl) in
          Taken.parts fd buf u q q' first at popped w w'
    ]

next_lem :
    (k : Kernel) (rest : List Given) {fd : ℕ} {buf : List ℕ}
    → Taken k rest fd buf
    → next k ≡ some (fd, buf)
unfolding next
next_lem k rest (Taken.parts fd buf u q q' first at popped w w') = rw (first, at, popped) refl

worked-IsBacklog :
    (k : Kernel) (rest : List Given) (s' : MySocket) {fd : ℕ} {buf : List ℕ} {u : BlockingQueue ℕ}
    {q q' : BlockingQueue (List ℕ)}
    → find fd k.socket_queue ≡ some q
    → Holds u (map (λ (e : Given). e.0) rest)
    → Holds q' (packets_of fd rest)
    → IsBacklog k ((fd, buf) ∷ rest)
    → IsBacklog
        (record {
          un_solved_socket = u;
          socket_queue = assign fd q' k.socket_queue;
          socket_set = assign fd s' k.socket_set;
        })
        rest
unfolding packets_of
worked-IsBacklog k rest s' {fd} {buf} {u} {q} {q'} at w w' v = record {
  noted = w;
  queues = λ j r found. elim (Bool-cases (fd == j)) [
    | inl e ↦
        let here : fd ≡ j = (==_iff fd j).0 e in
        let now : q' ≡ r = cc (rw e at (find-assign j fd q' q k.socket_queue at), found) in
        subst (λ r. Holds r (packets_of j rest)) now (rw here at w')
    | inr e ↦ rw e at (v.queues j r (cc (rw e at (find-assign j fd q' q k.socket_queue at), found)))
  ];
  known = λ j none'. elim (Bool-cases (fd == j)) [
    | inl e ↦ absurd (cc (rw e at (find-assign j fd q' q k.socket_queue at), none'))
    | inr e ↦ rw e at (v.known j (cc (rw e at (find-assign j fd q' q k.socket_queue at), none')))
  ];
  sockets = λ j has.
      keys-Has j k.socket_set _ (sym (keys-assign fd s' k.socket_set))
        (v.sockets j (keys-Has j _ k.socket_queue (keys-assign fd q' k.socket_queue) has));
  queue_keys = assign-Ascends fd q' k.socket_queue v.queue_keys;
  socket_keys = assign-Ascends fd s' k.socket_set v.socket_keys;
}

Taken-IsBacklog :
    (k : Kernel) (tmp : ℕ) (rest : List Given) {fd : ℕ} {buf : List ℕ} {k' : Kernel}
    {out : List Reply}
    → Taken k rest fd buf
    → IsBacklog k ((fd, buf) ∷ rest)
    → process_ip_packet k tmp ≡ some (k', out)
    → IsBacklog k' rest
unfolding process_ip_packet
Taken-IsBacklog k tmp rest {k'} {out} (Taken.parts fd buf u q q' first at popped w w') v h =
    let (g, _, h₁) = >>=-eq-some (parse_packet buf) _ (rw (first, at, popped) at h) in
    let (s, there, h₂) = >>=-eq-some (find fd k.socket_set) _ h₁ in
    let ((s', out'), _, h₃) = >>=-eq-some (handle s g tmp) _ h₂ in
    subst (λ (r : Kernel × List Reply). IsBacklog r.0 rest) (some_injective _ (k', out) h₃)
      (worked-IsBacklog k rest s' at w w' v)

-- The packet cannot be taken apart, or its socket, which exists, cannot handle it.
abbrev pub Stuck : Kernel → ℕ → ℕ → List ℕ → Type 0
Stuck k tmp fd buf =
    (parse_packet buf ≡ none)
    ⊎ ((g : Segment) × (s : MySocket) × (parse_packet buf ≡ some g)
        × (find fd k.socket_set ≡ some s)
        × (handle s g tmp ≡ none))

-- A round that does not end: the packet is cut short, or its handling leaves the buffer.
Taken-Stuck :
    (k : Kernel) (tmp : ℕ) (rest : List Given) {fd : ℕ} {buf : List ℕ}
    → Taken k rest fd buf
    → IsBacklog k ((fd, buf) ∷ rest)
    → process_ip_packet k tmp ≡ none
    → Stuck k tmp fd buf
unfolding process_ip_packet
Taken-Stuck k tmp rest (Taken.parts fd buf u q q' first at popped w w') v h =
    let (s, there) = v.sockets fd (q, at) in
    elim (Option-cases (parse_packet buf)) [
      | inl cut ↦ inl cut
      | inr (g, parsed) ↦ elim (Option-cases (handle s g tmp)) [
        | inl fault ↦ inr (g, s, parsed, there, fault)
        | inr (r, handled) ↦ absurd (cc (rw (first, at, popped, parsed, there, handled) at h))
      ]
    ]

next_empty :
    (k : Kernel) → IsBacklog k [] → (next k ≡ none) × ((tmp : ℕ) → process_ip_packet k tmp ≡ none)
unfolding next process_ip_packet
next_empty k v = let nothing = (pop_lem v.noted).0 refl in (rw nothing refl, λ tmp. rw nothing refl)

-- After a round of processIPPacket.
pub round_lem :
    (k : Kernel) (tmp : ℕ) (got worked pending : List Given) {k' : Kernel} {e : Given}
    {out : List Reply}
    → got ≡ worked ++ pending
    → IsBacklog k pending
    → next k ≡ some e
    → process_ip_packet k tmp ≡ some (k', out)
    → (rest : List Given) × (got ≡ (worked ++ (e ∷ [])) ++ rest) × IsBacklog k' rest
round_lem k tmp got worked [] order v taken h = absurd (cc (taken, (next_empty k v).0))
round_lem k tmp got worked ((fd, buf) ∷ rest) {k'} {e} order v taken h =
    let t = next-Taken k fd buf rest v in
    let same : ◌≡◌ {A = Given} (fd, buf) e = some_injective _ e (sym (next_lem k rest t) ∙ taken) in
    (
      rest,
      order
          ∙ ap (λ (e : Given). worked ++ (e ∷ rest)) same
          ∙ sym (append_assoc worked (e ∷ []) rest),
      Taken-IsBacklog k tmp rest t v h,
    )

pub stuck_lem :
    (k : Kernel) (tmp : ℕ) (got worked pending : List Given)
    → got ≡ worked ++ pending
    → IsBacklog k pending
    → process_ip_packet k tmp ≡ none
    → (got ≡ worked)
      ⊎ ((fd : ℕ) × (buf : List ℕ) × (rest : List Given) × (got ≡ worked ++ ((fd, buf) ∷ rest))
          × Stuck k tmp fd buf)
stuck_lem k tmp got worked [] order v h = inl (order ∙ append-nil worked)
stuck_lem k tmp got worked ((fd, buf) ∷ rest) order v h =
    inr (fd, buf, rest, order, Taken-Stuck k tmp rest (next-Taken k fd buf rest v) v h)

-- ===== src/Tcp/Listening.antt =====
-- A socket from socket_create over socket_bind to socket_listen (include/core.h).
use native.Mathlib.Decide.{dec_lt}
use i_tcp.Common.{
  ℕ, zero, suc, ◌+◌, ◌≡◌, ◌≢◌, ◌<◌, ◌≤◌, refl, ◌∙◌, Bool, true, false, none, some, List, [], ◌==◌,
  arith, ==_iff, Option-cases, ◌⊎◌, inl, inr,
}
use i_tcp.Dict.{find, insert, assign, nat_ordered, find-insert}
use i_tcp.Queue.{new}
use i_tcp.Tcp.Types.{no_role, listen, server, MySocket, Tuple4, set_status}
use i_tcp.Tcp.Kernel.{Kernel}
use i_tcp.Tcp.Demux.{Others, assign_self, assign_ne}
use i_tcp.Tcp.Sockets.{
  self_listen, sock_stream, new_socket, create_from, socket_create, bind, socket_bind,
  socket_listen,
}

-- Every descriptor from `i` to before `n` has a socket.
abbrev pub Taken : Kernel → ℕ → ℕ → Type 0
Taken k i n = (j : ℕ) → i ≤ j → j < n → find j k.socket_set ≢ none

abbrev pub with_socket : Kernel → ℕ → MySocket → Kernel
with_socket k fd s = record k {
  socket_set = insert fd s k.socket_set;
  socket_queue = insert fd (new 1000 []) k.socket_queue;
}

-- The lowest free descriptor from `i` to before `n`, and what socket_create makes there of the table.
abbrev Created : Kernel → MySocket → ℕ → ℕ → ℕ × Kernel → Type 0
Created k s i n r =
    (fd : ℕ) × (i ≤ fd)
    × (fd < n)
    × (find fd k.socket_set ≡ none)
    × Taken k i fd
    × (r ≡ (fd, with_socket k fd s))

create_from-cases :
    (left i : ℕ) (k : Kernel) (s : MySocket)
    → (Taken k i (i + left) × (create_from left i k s ≡ (i + left, k)))
      ⊎ Created k s i (i + left) (create_from left i k s)
unfolding create_from
create_from-cases zero i k s =
    let n : i + 0 ≡ i = omega arith in inl (λ j p q. absurd (omega arith), rw n)
create_from-cases (suc left) i k s = elim (Option-cases (find i k.socket_set)) [
  | inl free ↦
      inr (i, omega arith, omega arith, free, λ j p q. absurd (omega arith), rw (free, create_from))
  | inr (t, used) ↦
      let n : i + 1 + left ≡ i + suc left = omega arith in
      let more : (fd : ℕ) → Taken k (i + 1) fd → Taken k i fd = λ fd rest j p q e.
        elim (dec_lt i j) [
          | yes above ↦ rest j (omega arith) q e
          | no top ↦ let same : i ≡ j = omega arith in cc (used, same, e)
        ] in
      elim (create_from-cases left (i + 1) k s) [
        | inl (rest, full) ↦
            inl (more (i + suc left) (rw n at rest), rw (used, create_from) (rw n at full))
        | inr (fd, low, high, free, rest, made) ↦
            inr (fd, omega arith, omega arith, free, more fd rest, rw (used, create_from) made)
      ]
]

pub insert_self :
    (k : ℕ) (v : MySocket) (m : List (ℕ × MySocket))
    → find k m ≡ none
    → find k (insert k v m) ≡ some v
insert_self k v m h =
    let same : (k == k) ≡ true = (==_iff k k).1 refl in find-insert k k v m h ∙ rw same

pub insert_ne :
    (k j : ℕ) (v : MySocket) (m : List (ℕ × MySocket))
    → find k m ≡ none
    → k ≢ j
    → find j (insert k v m) ≡ find j m
insert_ne k j v m h ne =
    let other : (k == j) ≡ false = ground (arith, ne) in find-insert j k v m h ∙ rw other

-- socket_create returns 200 and changes nothing if descriptors 100 to 199 are taken. Otherwise it
-- returns the lowest free one; socket_bind and socket_listen then succeed on it, and it is a server
-- that listens at the address given, with no byte in its buffer; all other sockets stay as they are.
pub listen_lem :
    (k : Kernel) (blank address : Tuple4) (ready : Bool)
    → (Taken k 100 200 × (socket_create k sock_stream blank ready ≡ (200, k)))
      ⊎ ((fd : ℕ) × (k₁ k₂ k₃ : Kernel) × (s : MySocket) × ((100 ≤ fd)
            × (fd < 200)
            × (find fd k.socket_set ≡ none)
            × Taken k 100 fd)
          × (socket_create k sock_stream blank ready ≡ (fd, k₁))
          × (socket_bind k₁ fd address ≡ (true, k₂))
          × (socket_listen k₂ fd ≡ some k₃)
          × (find fd k₃.socket_set ≡ some s)
          × ((s.role ≡ server) × (s.tcb.status ≡ listen) × (s.address ≡ address) × (s.sizep ≡ 0))
          × Others fd k.socket_set k₃.socket_set)
unfolding socket_create socket_bind socket_listen bind
listen_lem k blank address ready =
    let s : MySocket = new_socket sock_stream blank ready in
    elim (create_from-cases 100 100 k s) [
      | inl full ↦ inl full
      | inr (fd, low, high, free, rest, made) ↦
          let m₁ : List (ℕ × MySocket) = insert fd s k.socket_set in
          let t : MySocket = (bind s address).1 in
          let m₂ : List (ℕ × MySocket) = assign fd t m₁ in
          let at₁ : find fd m₁ ≡ some s = insert_self fd s k.socket_set free in
          let at₂ : find fd m₂ ≡ some t = assign_self fd t s m₁ at₁ in
          let k₂ : Kernel = record (with_socket k fd s) { socket_set = m₂ } in
          inr (
            fd,
            with_socket k fd s,
            k₂,
            record k₂ { socket_set = assign fd (set_status t listen) m₂ },
            set_status t listen,
            (low, high, free, rest),
            made,
            rw (at₁, socket_bind),
            rw at₂,
            assign_self fd (set_status t listen) t m₂ at₂,
            unfold new_socket in (refl, refl, refl, refl),
            λ j ne.
                assign_ne fd j (set_status t listen) t m₂ at₂ ne
                ∙ (assign_ne fd j t s m₁ at₁ ne ∙ insert_ne fd j s k.socket_set free ne),
          )
    ]

-- On a stream socket that has just been bound, mysocket_t::listen does what socket_listen does.
self_listen-bind :
    (s : MySocket) (address : Tuple4)
    → s.role ≡ no_role
    → s.type ≡ sock_stream
    → self_listen (bind s address).1 ≡ (true, set_status (bind s address).1 listen)
unfolding self_listen bind
self_listen-bind s address role type = rw (role, type) refl

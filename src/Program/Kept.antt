-- ===== src/Program/Kept.antt =====
-- What the calls of src/socket.cc leave of the queues between recvIPPacket and processIPPacket.
use mathlib.Core.Path.{subst}
use i_tcp.Common.{
  guard, ltb, ◌^◌, ℕ, zero, suc, ◌+◌, ◌≡◌, sym, ◌∙◌, Bool, some, List, [], ◌==◌, Option-cases,
  Bool-cases, inl, inr, >>=-eq-some,
}
use i_tcp.Dict.{
  find, insert, assign, nat_ordered, Has, keys-assign, keys-Has, keys-Ascends, insert-Ascends,
  insert-Has, key_inserted, find-insert_cases,
}
use i_tcp.Word.{u32}
use i_tcp.Queue.{new}
use i_tcp.Queue.Holds.{Holds, new-Holds}
use i_tcp.Tcp.Types.{MySocket, Tuple4, Reply, closed, listen, set_status}
use i_tcp.Tcp.Data.{my_read, my_write}
use i_tcp.Tcp.Kernel.{Kernel}
use i_tcp.Tcp.Sockets.{create_from, socket_create, socket_bind, socket_listen}
use i_tcp.Socket.{
  put_socket, wrap_socket, wrap_bind, wrap_listen, connect_start, free_from, copy_socket,
  accept_start, accept_finish, wrap_read, send_first, write_start, close_set,
}
use i_tcp.Program.Calls.{Given, packets_of, Call}
use i_tcp.Program.Backlog.{IsBacklog, some_injective}

-- A call that changes sockets, but neither which there are nor the queues.
put-IsBacklog :
    (k : Kernel) (pending : List Given) (fd : ℕ) (s : MySocket)
    → IsBacklog k pending
    → IsBacklog (put_socket k fd s) pending
put-IsBacklog k pending fd s v = record {
  noted = v.noted;
  queues = v.queues;
  known = v.known;
  sockets =
      λ j has. keys-Has j k.socket_set _ (sym (keys-assign fd s k.socket_set)) (v.sockets j has);
  queue_keys = v.queue_keys;
  socket_keys = keys-Ascends k.socket_set _ (sym (keys-assign fd s k.socket_set)) v.socket_keys;
}

-- A new socket, or one in the place of a descriptor that is taken.
opens-IsBacklog :
    (k : Kernel) (pending : List Given) (fd capacity : ℕ) (s : MySocket)
    → IsBacklog k pending
    → IsBacklog
        (record k {
          socket_queue = insert fd (new capacity []) k.socket_queue;
          socket_set = insert fd s k.socket_set;
        })
        pending
opens-IsBacklog k pending fd capacity s v = record {
  noted = v.noted;
  queues = λ j q found.
      elim (find-insert_cases j fd (new capacity []) k.socket_queue v.queue_keys) [
        | inl same ↦ v.queues j q (sym same ∙ found)
        | inr (_, absent, now) ↦
            let eq : new capacity [] ≡ q = cc (now, found) in
            subst (λ q. Holds q (packets_of j pending)) eq
              (rw (v.known j absent) (new-Holds capacity []))
      ];
  known = λ j none'. elim (find-insert_cases j fd (new capacity []) k.socket_queue v.queue_keys) [
    | inl same ↦ v.known j (sym same ∙ none')
    | inr (_, absent, _) ↦ v.known j absent
  ];
  sockets = λ j (q, found).
      elim (find-insert_cases j fd (new capacity []) k.socket_queue v.queue_keys) [
        | inl same ↦
            insert-Has j fd s k.socket_set v.socket_keys (v.sockets j (q, sym same ∙ found))
        | inr (here, _, _) ↦
            subst (λ j. Has j (insert fd s k.socket_set)) here
              (key_inserted fd s k.socket_set v.socket_keys)
      ];
  queue_keys = insert-Ascends fd (new capacity []) k.socket_queue v.queue_keys;
  socket_keys = insert-Ascends fd s k.socket_set v.socket_keys;
}

create_from-IsBacklog :
    (left i : ℕ) (k : Kernel) (s : MySocket) (pending : List Given)
    → IsBacklog k pending
    → IsBacklog (create_from left i k s).1 pending
unfolding create_from
create_from-IsBacklog zero i k s pending v = v
create_from-IsBacklog (suc left) i k s pending v = elim (Option-cases (find i k.socket_set)) [
  | inl free ↦ rw (free, create_from) (opens-IsBacklog k pending i 1000 s v)
  | inr (_, used) ↦ rw (used, create_from) (create_from-IsBacklog left (i + 1) k s pending v)
]

bind-IsBacklog :
    (k : Kernel) (fd : ℕ) (address : Tuple4) (pending : List Given)
    → IsBacklog k pending
    → IsBacklog (socket_bind k fd address).1 pending
unfolding socket_bind
bind-IsBacklog k fd address pending v = elim (Option-cases (find fd k.socket_set)) [
  | inl absent ↦ rw (absent, socket_bind) v
  | inr (s, at) ↦ rw (at, socket_bind) (put-IsBacklog k pending fd _ v)
]

accept-IsBacklog :
    (k : Kernel) (fd : ℕ) (pending : List Given) {connfd : ℕ} {k' : Kernel}
    → accept_start k fd ≡ some (connfd, k')
    → IsBacklog k pending
    → IsBacklog k' pending
unfolding accept_start
accept-IsBacklog k fd pending {connfd} {k'} h v =
    let (s, _, h₁) = >>=-eq-some (find fd k.socket_set) _ h in
    let i : ℕ = free_from 100 100 k in
    let m : List (ℕ × MySocket) = insert i (copy_socket s) k.socket_set in
    let (old, _, h₂) = >>=-eq-some (find fd m) _ h₁ in
    let m' : List (ℕ × MySocket) = assign fd (set_status old closed) m in
    let (it, _, h₃) = >>=-eq-some (find i m') _ h₂ in
    let k₁ : Kernel = record k {
      socket_queue = insert i (new 2000 []) k.socket_queue;
      socket_set = m;
    } in
    subst (λ (r : ℕ × Kernel). IsBacklog r.1 pending) (some_injective _ (connfd, k') h₃)
      (put-IsBacklog (put_socket k₁ fd (set_status old closed)) pending i (set_status it listen) (
        put-IsBacklog k₁ pending fd (set_status old closed)
          (opens-IsBacklog k pending i 2000 (copy_socket s) v)))

-- Every call keeps the order of the waiting packets.
pub call-IsBacklog :
    (pending : List Given) {k k' : Kernel} → Call k k' → IsBacklog k pending → IsBacklog k' pending
unfolding wrap_socket socket_create wrap_bind wrap_listen socket_listen connect_start accept_finish
    wrap_read write_start close_set
call-IsBacklog pending {k} {k'} (Call.sockets type address ready {fd} h) v =
    subst (λ (r : ℕ × Kernel). IsBacklog r.1 pending) h
      (create_from-IsBacklog 100 100 k _ pending v)
call-IsBacklog pending {k} {k'} (Call.binds fd address {ok} h) v =
    subst (λ (r : Bool × Kernel). IsBacklog r.1 pending) h (bind-IsBacklog k fd address pending v)
call-IsBacklog pending {k} {k'} (Call.listens fd backlog {ok} h) v =
    elim (Bool-cases (backlog == 1)) [
      | inl one ↦
          let (k₁, a, b) = >>=-eq-some (socket_listen k fd) _ (rw one at h) in
          let (s, _, c) = >>=-eq-some (find fd k.socket_set) _ a in
          let same : put_socket k fd (set_status s listen) ≡ k' = cc (b, c) in
          subst (λ k. IsBacklog k pending) same (put-IsBacklog k pending fd _ v)
      | inr other ↦
          let same : k ≡ k' = cc (rw other at h) in subst (λ k. IsBacklog k pending) same v
    ]
call-IsBacklog pending {k} {k'} (Call.connects fd address tmp {r} h) v =
    let (s, _, b) = >>=-eq-some (find fd k.socket_set) _ h in
    subst (λ (r : Kernel × Reply). IsBacklog r.0 pending) (some_injective _ (k', r) b)
      (put-IsBacklog k pending fd _ v)
call-IsBacklog pending {k} {k'} (Call.accepts fd h) v = accept-IsBacklog k fd pending h v
call-IsBacklog pending {k} {k'} (Call.accepted fd h) v =
    let (s, _, b) = >>=-eq-some (find fd k.socket_set) _ h in
    subst (λ k. IsBacklog k pending) (some_injective _ k' b) (put-IsBacklog k pending fd _ v)
call-IsBacklog pending {k} {k'} (Call.reads fd nbyte {bytes} h) v =
    let (s, _, b) = >>=-eq-some (find fd k.socket_set) _ h in
    let (_, _, b') = >>=-eq-some (guard (ltb (u32 nbyte) (2 ^ 31))) _ b in
    let ((bytes', s'), _, c) = >>=-eq-some (my_read s (u32 nbyte)) _ b' in
    subst (λ (r : List ℕ × Kernel). IsBacklog r.1 pending) (some_injective _ (bytes, k') c)
      (put-IsBacklog k pending fd s' v)
call-IsBacklog pending {k} {k'} (Call.writes fd buf {r} h) v =
    let (s, _, b) = >>=-eq-some (find fd k.socket_set) _ h in
    let (s', _, c) = >>=-eq-some (my_write s buf) _ b in
    let ((s'', r'), _, d) = >>=-eq-some (send_first s') _ c in
    subst (λ (r : Kernel × Reply). IsBacklog r.0 pending) (some_injective _ (k', r) d)
      (put-IsBacklog k pending fd s'' v)
call-IsBacklog pending {k} {k'} (Call.closes fd tmp {r} h) v = v
call-IsBacklog pending {k} {k'} (Call.marks fd h) v =
    let (s, _, b) = >>=-eq-some (find fd k.socket_set) _ h in
    subst (λ k. IsBacklog k pending) (some_injective _ k' b) (put-IsBacklog k pending fd _ v)

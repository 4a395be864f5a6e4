-- ===== src/Program/Backlog.antt =====
-- The two levels of queues of iTCP_kernel_t (include/core.h) between recvIPPacket and processIPPacket:
-- unSolvedSocket has descriptors, and socketQueue a queue of packets for each of them.
use mathlib.Core.Path.{subst}
use mathlib.Core.List.{map-append, append-nil}
use i_tcp.Common.{
  ℕ, ◌≡◌, refl, ap, ◌∙◌, true, false, none, some, List, [], ◌∷◌, ◌++◌, map, ◌==◌, Bool-cases,
  ==_iff, inl, inr, length, guard, >>=-eq-some, leb, not, ◌&&◌,
}
use i_tcp.Word.{is_syn, is_ack}
use i_tcp.Dict.{
  find, assign, nat_ordered, find-assign, Has, keys, keys-assign, keys-Has, keys-Ascends, Ascends,
  assign-Ascends,
}
use i_tcp.Queue.{BlockingQueue, push}
use i_tcp.Queue.Holds.{Holds, push_cases}
use i_tcp.Tcp.Types.{MySocket, Tuple4, back}
use i_tcp.Tcp.Kernel.{Kernel, read_info, is_listen, find_listener, choose, recv_ip_packet}
use i_tcp.Program.Calls.{Given, packets_of}

-- The packets that wait, in the order in which they came: their sockets are noted in that order, and
-- each socket's queue has its own packets in that order.
pub record IsBacklog (k : Kernel) (pending : List Given) : Type 0 where
  pub noted : Holds k.un_solved_socket (map (λ (e : Given). e.0) pending)
  pub queues :
      (fd : ℕ) (q : BlockingQueue (List ℕ))
      → find fd k.socket_queue ≡ some q
      → Holds q (packets_of fd pending)
  pub known : (fd : ℕ) → find fd k.socket_queue ≡ none → packets_of fd pending ≡ []
  pub sockets : (fd : ℕ) → Has fd k.socket_queue → Has fd k.socket_set
  pub queue_keys : Ascends k.socket_queue
  pub socket_keys : Ascends k.socket_set

packets_of-append :
    (fd : ℕ) (xs ys : List Given) → packets_of fd (xs ++ ys) ≡ packets_of fd xs ++ packets_of fd ys
unfolding packets_of
packets_of-append fd [] ys = refl
packets_of-append fd ((j, buf) ∷ xs) ys = elim (Bool-cases (j == fd)) [
  | inl e ↦ rw e (ap (λ l. buf ∷ l) (packets_of-append fd xs ys))
  | inr e ↦ rw e (packets_of-append fd xs ys)
]

packets_of-same :
    (j fd : ℕ) (buf : List ℕ) (xs : List Given)
    → (fd == j) ≡ true
    → packets_of j (xs ++ ((fd, buf) ∷ [])) ≡ packets_of j xs ++ (buf ∷ [])
unfolding packets_of
packets_of-same j fd buf xs e = packets_of-append j xs ((fd, buf) ∷ []) ∙ rw e refl

packets_of-other :
    (j fd : ℕ) (buf : List ℕ) (xs : List Given)
    → (fd == j) ≡ false
    → packets_of j (xs ++ ((fd, buf) ∷ [])) ≡ packets_of j xs
unfolding packets_of
packets_of-other j fd buf xs e =
    packets_of-append j xs ((fd, buf) ∷ []) ∙ rw e (append-nil (packets_of j xs))

keys-find_listener :
    (m : List (ℕ × MySocket)) (info : Tuple4) {fd : ℕ} {m' : List (ℕ × MySocket)}
    → find_listener m info ≡ some (fd, m')
    → keys m ≡ keys m'
unfolding find_listener
keys-find_listener [] info h = absurd (cc h)
keys-find_listener ((j, s) ∷ m) info {fd} {m'} h =
    elim (Bool-cases (
      is_listen s.tcb.status
      && (s.address.src_ip == info.dst_ip && s.address.src_port == info.dst_port))) [
        | inl e ↦
            let eq : (j, record s { address = back info }) ∷ m ≡ m' = cc (rw e at h) in
            ap (λ (m : List (ℕ × MySocket)). keys m) eq
        | inr e ↦
            let ((i, n), a, b) = >>=-eq-some (find_listener m info) _ (rw e at h) in
            let eq : (j, s) ∷ n ≡ m' = cc b in
            ap (λ l. j ∷ l) (keys-find_listener m info a)
            ∙ ap (λ (m : List (ℕ × MySocket)). keys m) eq
      ]

keys-choose :
    (m : List (ℕ × MySocket)) (info : Tuple4) (flag : ℕ) {fd : ℕ} {m' : List (ℕ × MySocket)}
    → choose m info flag ≡ some (fd, m')
    → keys m ≡ keys m'
unfolding choose
keys-choose m info flag {fd} {m'} h = elim (Bool-cases (is_syn flag && not (is_ack flag))) [
  | inl e ↦ keys-find_listener m info (rw e at h)
  | inr e ↦ let eq : m ≡ m' = cc (rw e at h) in ap (λ (m : List (ℕ × MySocket)). keys m) eq
]

-- What recvIPPacket has done where it returns.
pub data Received (k : Kernel) (buf : List ℕ) : ℕ → Kernel → Type 0 where
  parts :
      (fd : ℕ) (m : List (ℕ × MySocket)) (q q' : BlockingQueue (List ℕ)) (u : BlockingQueue ℕ)
      → keys k.socket_set ≡ keys m
      → find fd k.socket_queue ≡ some q
      → push q buf ≡ some q'
      → push k.un_solved_socket fd ≡ some u
      → Received k buf fd (record {
        un_solved_socket = u;
        socket_queue = assign fd q' k.socket_queue;
        socket_set = m;
      })

pub some_injective {ℓ} : {A : Type ℓ} (a b : A) → some a ≡ some b → a ≡ b
some_injective a b h = cc h

pub recv_ip_packet-Received :
    (k : Kernel) (buf : List ℕ) {fd : ℕ} {k' : Kernel}
    → recv_ip_packet k buf ≡ some (fd, k')
    → Received k buf fd k'
unfolding recv_ip_packet
recv_ip_packet-Received k buf {fd} {k'} h =
    let ((info, flag), _, h₁) = >>=-eq-some (read_info buf) _ h in
    let ((connfd, m), chosen, h₂) = >>=-eq-some (choose k.socket_set info flag) _ h₁ in
    let (_, _, h₃) = >>=-eq-some (guard (leb (length buf) 2000)) _ h₂ in
    let (q, at, h₄) = >>=-eq-some (find connfd k.socket_queue) _ h₃ in
    let (q', pushed, h₅) = >>=-eq-some (push q buf) _ h₄ in
    let (u, noted, h₆) = >>=-eq-some (push k.un_solved_socket connfd) _ h₅ in
    subst (λ (r : ℕ × Kernel). Received k buf r.0 r.1) (some_injective _ (fd, k') h₆)
      (Received.parts connfd m q q' u (keys-choose k.socket_set info flag chosen) at pushed noted)

push-Holds {ℓ} :
    {A : Type ℓ} (q : BlockingQueue A) (xs : List A) (e : A) {q' : BlockingQueue A}
    → push q e ≡ some q'
    → Holds q xs
    → Holds q' (xs ++ (e ∷ []))
push-Holds q xs e {q'} h v = elim (push_cases e v) [
  | inl (waits, _) ↦ absurd (cc (h, waits))
  | inr (q'', pushed, v', _) ↦
      let same : q'' ≡ q' = cc (h, pushed) in subst (λ q. Holds q (xs ++ (e ∷ []))) same v'
]

pub Received-IsBacklog :
    (k : Kernel) (buf : List ℕ) (pending : List Given) {fd : ℕ} {k' : Kernel}
    → Received k buf fd k'
    → IsBacklog k pending
    → IsBacklog k' (pending ++ ((fd, buf) ∷ []))
Received-IsBacklog k buf pending (Received.parts fd m q q' u same at pushed noted) v = record {
  noted =
      rw (map-append (λ (e : Given). e.0) pending ((fd, buf) ∷ []))
        (push-Holds k.un_solved_socket _ fd noted v.noted);
  queues = λ j r found. elim (Bool-cases (fd == j)) [
    | inl e ↦
        let here : fd ≡ j = (==_iff fd j).0 e in
        let now : q' ≡ r = cc (rw e at (find-assign j fd q' q k.socket_queue at), found) in
        let old : Holds q (packets_of j pending) = v.queues j q (rw here at at) in
        rw (packets_of-same j fd buf pending e) (
          subst (λ r. Holds r (packets_of j pending ++ (buf ∷ []))) now
            (push-Holds q (packets_of j pending) buf pushed old))
    | inr e ↦
        rw (packets_of-other j fd buf pending e)
          (v.queues j r (cc (rw e at (find-assign j fd q' q k.socket_queue at), found)))
  ];
  known = λ j none'. elim (Bool-cases (fd == j)) [
    | inl e ↦ absurd (cc (rw e at (find-assign j fd q' q k.socket_queue at), none'))
    | inr e ↦
        packets_of-other j fd buf pending e
        ∙ v.known j (cc (rw e at (find-assign j fd q' q k.socket_queue at), none'))
  ];
  sockets = λ j has.
      keys-Has j k.socket_set m same
        (v.sockets j (keys-Has j _ k.socket_queue (keys-assign fd q' k.socket_queue) has));
  queue_keys = assign-Ascends fd q' k.socket_queue v.queue_keys;
  socket_keys = keys-Ascends k.socket_set m same v.socket_keys;
}

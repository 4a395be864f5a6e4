-- ===== src/Tcp/Demux.antt =====
-- That a received packet reaches the socket of its connection, and what that socket makes of it.
use mathlib.Core.List.{Memᴰ}
use i_tcp.Common.{
  ℕ, ◌≡◌, ◌≢◌, ◌<◌, refl, sym, ◌∙◌, ap, true, false, not, ◌&&◌, some, List, [], ◌∷◌, ◌++◌, ◌==◌,
  arith, leb, length, All, Bool-cases, ==_iff, inl, inr,
}
use i_tcp.Word.{is_syn, is_ack}
use i_tcp.Dict.{find, assign, nat_ordered, find-assign}
use i_tcp.Queue.{BlockingQueue}
use i_tcp.Queue.Holds.{Holds, push_lem, pop_lem}
use i_tcp.Tcp.Types.{MySocket, Tuple4, Segment, Reply, back}
use i_tcp.Tcp.Wire.{parse_packet}
use i_tcp.Tcp.Handler.{handle}
use i_tcp.Tcp.Kernel.{
  Kernel, read_info, same_tuple, find_connected, choose, recv_ip_packet, process_ip_packet,
}

same_tuple_iff : (a b : Tuple4) → same_tuple a b ≡ true → a ≡ b
same_tuple_iff a b h = ground arith

tuple_same : (a b : Tuple4) → a ≡ b → same_tuple a b ≡ true
tuple_same a b h = ground (arith, h)

read_info-parse_packet :
    (buf : List ℕ) {g : Segment}
    → parse_packet buf ≡ some g
    → (read_info buf ≡ some (g.info, g.flag)) × (leb (length buf) 2000 ≡ true)
unfolding read_info parse_packet
read_info-parse_packet buf h = ground arith

-- Where only one socket has the packet's addresses, turned round, find_connected finds it.
find_connected_lem :
    (sockets : List (ℕ × MySocket)) (info : Tuple4) (fd : ℕ) (s : MySocket)
    → Memᴰ (fd, s) sockets
    → s.address ≡ back info
    → All (λ (e : ℕ × MySocket). e.1.address ≡ back info → e.0 ≡ fd) sockets
    → find_connected sockets info ≡ fd
unfolding find_connected
find_connected_lem [] info fd s m e only = elim m [ ]
find_connected_lem ((j, t) ∷ it) info fd s (Memᴰ.head p) e only =
    let here : t.address ≡ back info = sym (ap (λ (r : ℕ × MySocket). r.1.address) p) ∙ e in
    rw (tuple_same t.address (back info) here, find_connected)
      (sym (ap (λ (r : ℕ × MySocket). r.0) p))
find_connected_lem ((j, t) ∷ it) info fd s (Memᴰ.tail m) e only =
    elim (Bool-cases (same_tuple t.address (back info))) [
      | inl same ↦ rw (same, find_connected) (only.0 (same_tuple_iff t.address (back info) same))
      | inr same ↦ rw (same, find_connected) (find_connected_lem it info fd s m e only.1)
    ]

find-Memᴰ {ℓ} : {V : Type ℓ} (k : ℕ) (m : List (ℕ × V)) {v : V} → find k m ≡ some v → Memᴰ (k, v) m
unfolding find
find-Memᴰ k [] h = cc h
find-Memᴰ k ((j, w) ∷ m) {v} h = elim (Bool-cases (j == k)) [
  | inl e ↦
      let key : j ≡ k = (==_iff j k).0 e in
      let value : w ≡ v = ground (arith, h, e) in Memᴰ.head (cc (key, value))
  | inr e ↦ Memᴰ.tail (find-Memᴰ k m (rw e at h))
]

pub assign_self {ℓ} :
    {V : Type ℓ} (k : ℕ) (v w : V) (m : List (ℕ × V))
    → find k m ≡ some w
    → find k (assign k v m) ≡ some v
assign_self k v w m h =
    let same : (k == k) ≡ true = (==_iff k k).1 refl in find-assign k k v w m h ∙ rw same

pub assign_ne {ℓ} :
    {V : Type ℓ} (k j : ℕ) (v w : V) (m : List (ℕ × V))
    → find k m ≡ some w
    → k ≢ j
    → find j (assign k v m) ≡ find j m
assign_ne k j v w m h ne =
    let other : (k == j) ≡ false = ground (arith, ne) in find-assign j k v w m h ∙ rw other

-- These packets wait for this socket.
abbrev pub Queued : Kernel → ℕ → List (List ℕ) → Type 0
Queued k fd xs = (q : BlockingQueue (List ℕ)) × (find fd k.socket_queue ≡ some q) × Holds q xs

-- Where all other sockets are as they were.
abbrev pub Others {ℓ} : {V : Type ℓ} → ℕ → List (ℕ × V) → List (ℕ × V) → Type ℓ
Others fd m m' = (j : ℕ) → fd ≢ j → find j m' ≡ find j m

-- A packet that is no opening SYN, and whose addresses are those of exactly one socket, turned round,
-- is queued for that socket by recvIPPacket behind what is queued there, and the socket is noted
-- behind those already to be worked on, if neither queue is full; the sockets and the queues of other
-- sockets stay as they are.
pub recv_ip_packet_lem :
    (k : Kernel) (buf : List ℕ) (g : Segment) (fd : ℕ) (s : MySocket) (q : BlockingQueue (List ℕ))
    (xs : List (List ℕ)) (ys : List ℕ)
    → parse_packet buf ≡ some g
    → (is_syn g.flag && not (is_ack g.flag)) ≡ false
    → find fd k.socket_set ≡ some s
    → s.address ≡ back g.info
    → All (λ (e : ℕ × MySocket). e.1.address ≡ back g.info → e.0 ≡ fd) k.socket_set
    → find fd k.socket_queue ≡ some q
    → Holds q xs
    → length xs < q.capacity
    → Holds k.un_solved_socket ys
    → length ys < k.un_solved_socket.capacity
    → (k' : Kernel) × (recv_ip_packet k buf ≡ some (fd, k'))
      × Queued k' fd (xs ++ (buf ∷ []))
      × Holds k'.un_solved_socket (ys ++ (fd ∷ []))
      × (k'.socket_set ≡ k.socket_set)
      × Others fd k.socket_queue k'.socket_queue
unfolding recv_ip_packet choose
recv_ip_packet_lem k buf g fd s q xs ys parsed flags at e only queue v room w space =
    let (info, short) = read_info-parse_packet buf parsed in
    let found : find_connected k.socket_set g.info ≡ fd =
      find_connected_lem k.socket_set g.info fd s (find-Memᴰ fd k.socket_set at) e only in
    let (q', pushed, v') = (push_lem buf v).1 room in
    let (u', noted, w') = (push_lem fd w).1 space in
    (
      record {
        un_solved_socket = u';
        socket_queue = assign fd q' k.socket_queue;
        socket_set = k.socket_set;
      },
      rw (info, flags, found, short, queue, pushed, noted),
      (q', assign_self fd q' q k.socket_queue queue, v'),
      w',
      refl,
      λ j ne. assign_ne fd j q' q k.socket_queue queue ne,
    )

-- A round of processIPPacket takes the oldest socket to be worked on and the oldest packet queued for
-- it. If the packet can be taken apart and is handled without fault, that socket becomes what the
-- handling makes of it, what the handling sends is sent, and the other sockets, their queues and what
-- else is queued stay.
pub process_ip_packet_lem :
    (k : Kernel) (buf : List ℕ) (g : Segment) (fd tmp : ℕ) (s s' : MySocket) (out : List Reply)
    (xs : List (List ℕ)) (ys : List ℕ)
    → Holds k.un_solved_socket (fd ∷ ys)
    → Queued k fd (buf ∷ xs)
    → parse_packet buf ≡ some g
    → find fd k.socket_set ≡ some s
    → handle s g tmp ≡ some (s', out)
    → (k' : Kernel) × (process_ip_packet k tmp ≡ some (k', out))
      × (find fd k'.socket_set ≡ some s')
      × Others fd k.socket_set k'.socket_set
      × Queued k' fd xs
      × Others fd k.socket_queue k'.socket_queue
      × Holds k'.un_solved_socket ys
unfolding process_ip_packet
process_ip_packet_lem k buf g fd tmp s s' out xs ys w (q, queue, v) parsed at handled =
    let (u', first, w') = (pop_lem w).1 fd ys refl in
    let (q', popped, v') = (pop_lem v).1 buf xs refl in
    (
      record {
        un_solved_socket = u';
        socket_queue = assign fd q' k.socket_queue;
        socket_set = assign fd s' k.socket_set;
      },
      rw (first, queue, popped, parsed, at, handled),
      assign_self fd s' s k.socket_set at,
      λ j ne. assign_ne fd j s' s k.socket_set at ne,
      (q', assign_self fd q' q k.socket_queue queue, v'),
      λ j ne. assign_ne fd j q' q k.socket_queue queue ne,
      w',
    )

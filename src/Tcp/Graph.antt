-- ===== src/Tcp/Graph.antt =====
-- The state diagram of a connection, and readIPPacket of src/tcp.cc against it.
use i_tcp.Common.{ℕ, ◌≡◌, refl, ap, true, false, some, List, [], ◌∷◌, length, arith, ◌⊎◌}
use i_tcp.Word.{is_syn, is_fin, is_ack, set_syn, set_fin, set_ack}
use i_tcp.Tcp.Types.{
  Status, unset, closed, listen, syn_sent, syn_rcvd, estab, fin_wait1, fin_wait2, last_ack, closing,
  time_wait, Tcb, MySocket, Segment, Reply, Tuple4, set_status,
}
use i_tcp.Tcp.Data.{recv_tcp_packet, recv_ack, recv_data}
use i_tcp.Tcp.Handler.{handle, adopt, by_flags, answer}

-- The transitions that a packet with these flags may cause. A FIN moves an established connection
-- to LASTACK at once: the program has no use of CLOSEWAIT.
pub data Edge (flag : ℕ) : Status → Status → Type 0 where
  established : is_syn flag ≡ true → is_ack flag ≡ true → Edge flag syn_sent estab
  opened : is_syn flag ≡ true → is_ack flag ≡ false → Edge flag listen syn_rcvd
  crossed : is_syn flag ≡ true → is_ack flag ≡ false → Edge flag syn_sent syn_rcvd
  left : is_syn flag ≡ false → is_fin flag ≡ true → Edge flag estab last_ack
  both_left : is_syn flag ≡ false → is_fin flag ≡ true → Edge flag fin_wait1 closing
  followed : is_syn flag ≡ false → is_fin flag ≡ true → Edge flag fin_wait2 time_wait
  accepted :
      is_syn flag ≡ false → is_fin flag ≡ false → is_ack flag ≡ true → Edge flag syn_rcvd estab
  half_closed :
      is_syn flag ≡ false → is_fin flag ≡ false → is_ack flag ≡ true → Edge flag fin_wait1 fin_wait2
  drained :
      is_syn flag ≡ false → is_fin flag ≡ false → is_ack flag ≡ true → Edge flag closing time_wait
  finished :
      is_syn flag ≡ false → is_fin flag ≡ false → is_ack flag ≡ true → Edge flag last_ack closed

ruleset edges = (
  established, opened, crossed, left, both_left, followed, accepted, half_closed, drained, finished,
)

tcb-adopt : (s : MySocket) (g : Segment) → (adopt s g).tcb ≡ s.tcb
unfolding adopt
tcb-adopt s g = ground arith

tcb-recv_tcp_packet :
    (s : MySocket) (buf : List ℕ) (len : ℕ) (info : Tuple4) (seq ack flag tmp : ℕ) {s' : MySocket}
    {out : List Reply}
    → recv_tcp_packet s buf len info seq ack flag tmp ≡ some (s', out)
    → s'.tcb ≡ s.tcb
unfolding recv_tcp_packet recv_ack recv_data
tcb-recv_tcp_packet s buf len info seq ack flag tmp h = ground arith

by_flags-Edge :
    (a : Status) (s : MySocket) (g : Segment) (tmp : ℕ) {s' : MySocket} {out : List Reply}
    → s.tcb.status ≡ a
    → by_flags a s g tmp ≡ some (s', out)
    → (s'.tcb.status ≡ a) ⊎ Edge g.flag a s'.tcb.status
unfolding by_flags
by_flags-Edge unset s g tmp e h =
    grind (
      arith,
      edges,
      tcb-recv_tcp_packet s g.payload (length g.payload) g.info g.seq g.ack g.flag tmp,
    )
by_flags-Edge _ s g tmp e h =
    grind (
      arith,
      edges,
      tcb-recv_tcp_packet s g.payload (length g.payload) g.info g.seq g.ack g.flag tmp,
    )

-- Whatever packet a socket handles, its state stays or moves along one edge of the diagram whose
-- conditions the packet's flags meet.
pub handle-Edge :
    (s : MySocket) (g : Segment) (tmp : ℕ) {s' : MySocket} {out : List Reply}
    → handle s g tmp ≡ some (s', out)
    → (s'.tcb.status ≡ s.tcb.status) ⊎ Edge g.flag s.tcb.status s'.tcb.status
unfolding handle
handle-Edge s g tmp h =
    by_flags-Edge s.tcb.status (adopt s g) g tmp (ap (λ (t : Tcb). t.status) (tcb-adopt s g)) h

Takes : Status → MySocket → Segment → ℕ → Status → Type 0
Takes a s g tmp b =
    (s' : MySocket) × (out : List Reply) × (by_flags a s g tmp ≡ some (s', out))
    × (s'.tcb.status ≡ b)

Edge-by_flags :
    {a b : Status} (s : MySocket) (g : Segment) (tmp : ℕ) → Edge g.flag a b → Takes a s g tmp b
unfolding by_flags Takes
Edge-by_flags s g tmp (established x y) = (
  record (set_status s estab) { conn_ready = true },
  answer g tmp (set_ack 0) ∷ [],
  rw (x, y),
  refl,
)
Edge-by_flags s g tmp (opened x y) = (
  record (set_status s syn_rcvd) { acc_syn_ready = true },
  answer g tmp (set_ack (set_syn 0)) ∷ [],
  rw (x, y),
  refl,
)
Edge-by_flags s g tmp (crossed x y) =
    (set_status s syn_rcvd, answer g tmp (set_ack 0) ∷ [], rw (x, y), refl)
Edge-by_flags s g tmp (left x y) = (
  set_status s last_ack,
  answer g tmp (set_ack 0) ∷ answer g tmp (set_fin 0) ∷ [],
  rw (x, y),
  refl,
)
Edge-by_flags s g tmp (both_left x y) =
    (set_status s closing, answer g tmp (set_ack 0) ∷ [], rw (x, y), refl)
Edge-by_flags s g tmp (followed x y) =
    (set_status s time_wait, answer g tmp (set_ack 0) ∷ [], rw (x, y), refl)
Edge-by_flags s g tmp (accepted x y z) =
    (record (set_status s estab) { acc_ack_ready = true }, [], rw (x, y, z), refl)
Edge-by_flags s g tmp (half_closed x y z) = (set_status s fin_wait2, [], rw (x, y, z), refl)
Edge-by_flags s g tmp (drained x y z) = (set_status s time_wait, [], rw (x, y, z), refl)
Edge-by_flags s g tmp (finished x y z) = (set_status s closed, [], rw (x, y, z), refl)

-- Every edge of the diagram is taken: a packet whose flags meet its conditions is handled without
-- fault and moves the socket along it.
pub Edge-handle :
    (s : MySocket) (g : Segment) (tmp : ℕ) {b : Status}
    → Edge g.flag s.tcb.status b
    → (s' : MySocket) × (out : List Reply) × (handle s g tmp ≡ some (s', out)) × (s'.tcb.status ≡ b)
unfolding handle Takes
Edge-handle s g tmp e = Edge-by_flags (adopt s g) g tmp e

-- ===== src/Socket/Race.antt =====
-- __wrap_close (src/socket.cc) sends its FIN first and sets FINWAIT1 afterwards, under no mutex: what
-- happens where both answers are handled in between.
use i_tcp.Common.{ℕ, ◌≤◌, ◌≡◌, refl, ◌∙◌, true, false, none, some, List, [], ◌∷◌, arith, leb}
use i_tcp.Word.{is_syn, is_fin, is_ack, set_fin, set_ack}
use i_tcp.Tcp.Types.{closed, estab, last_ack, fin_wait1, MySocket, Segment, Reply, set_status}
use i_tcp.Tcp.Data.{is_server, recv_ack}
use i_tcp.Tcp.Handler.{handle, answer, by_flags}
use i_tcp.Tcp.Events.{handle_at, adopt_at, at_estab_fin, at_estab_ack, at_last_ack}
use i_tcp.Tcp.Wire.{segment_of}
use i_tcp.Tcp.Demux.{assign_self}
use i_tcp.Tcp.Peers.{
  Peers, Delivery, at_server, at_client, pick, deliver, deliver_all, server_takes, client_takes,
  server_waits, client_waits, pick-nil,
}
use i_tcp.Dict.{find, nat_ordered}
use i_tcp.Tcp.Kernel.{Kernel}
use i_tcp.Socket.{signal, put_socket, close_start, close_set, close_mark, close_returns}
use i_tcp.Socket.Close.{marked}

-- A FIN at a closed socket is ignored.
at_closed_fin :
    (s : MySocket) (g : Segment) (tmp : ℕ)
    → s.tcb.status ≡ closed
    → g.flag ≡ set_fin 0
    → handle s g tmp ≡ some (s, [])
unfolding by_flags is_syn is_ack is_fin set_fin
at_closed_fin s g tmp e f = handle_at s g tmp closed e ∙ rw (adopt_at s g tmp closed e refl, f)

-- A FIN at a socket that waits for its last acknowledgement is ignored.
at_last_ack_fin :
    (s : MySocket) (g : Segment) (tmp : ℕ)
    → s.tcb.status ≡ last_ack
    → g.flag ≡ set_fin 0
    → handle s g tmp ≡ some (s, [])
unfolding by_flags is_syn is_ack is_fin set_fin
at_last_ack_fin s g tmp e f =
    handle_at s g tmp last_ack e ∙ rw (adopt_at s g tmp last_ack e refl, f)

-- An acknowledgement of all that a client has stored.
at_estab_all :
    (s : MySocket) (g : Segment) (tmp : ℕ)
    → s.tcb.status ≡ estab
    → g.flag ≡ set_ack 0
    → is_server s.role ≡ false
    → s.sizep ≤ g.ack
    → handle s g tmp ≡ some (record s { writep = g.ack }, [])
unfolding recv_ack
at_estab_all s g tmp e f r le =
    let all : leb s.sizep g.ack ≡ true = ground arith in at_estab_ack s g tmp e f ∙ rw (r, all)

-- Two packets in flight on one side are handled as they were sent, or the second one first.
pub data Order : Type 0 where
  in_order overtaken : Order

abbrev pub both_at : (ℕ → ℕ → Delivery) → Order → ℕ → List Delivery
both_at side in_order tmp = side 0 tmp ∷ side 0 tmp ∷ []
both_at side overtaken tmp = side 1 tmp ∷ side 0 tmp ∷ []

module _ (c s : MySocket) (tmp : ℕ) (ce : c.tcb.status ≡ estab) (se : s.tcb.status ≡ estab)
    (cr : is_server c.role ≡ false) (cs : c.sizep ≤ 1) where
  abbrev fin : Segment
  fin = segment_of (signal c tmp (set_fin 0))

  abbrev last : Segment
  last = segment_of (answer fin tmp (set_fin 0))

  -- Two sockets when both answers of the server have been handled, and what the client has sent is in
  -- flight.
  abbrev answered : MySocket → Peers
  answered x = record {
    client = x;
    server = set_status s last_ack;
    to_server =
        segment_of (answer last tmp (set_ack 0)) ∷ segment_of (answer last tmp (set_fin 0)) ∷ [];
    to_client = [];
  }

  -- The client by the answer that it has handled first.
  abbrev early_client : Order → MySocket
  early_client in_order = set_status (record c { writep = 1 }) last_ack
  early_client overtaken = set_status (set_status c last_ack) closed

  early_role :
      (o : Order) → is_server c.tcb.role ≡ false → is_server (early_client o).tcb.role ≡ false
  early_role in_order h = h
  early_role overtaken h = h

  abbrev between : MySocket → List Segment → List Segment → Peers
  between x up down = record {
    client = x;
    server = set_status s last_ack;
    to_server = up;
    to_client = down;
  }

  early :
      (o : Order)
      → deliver_all
          (record { client = c; server = s; to_server = fin ∷ []; to_client = [] })
          (at_server 0 tmp ∷ both_at at_client o tmp)
        ≡ some (answered (early_client o))
  unfolding deliver_all pick
  early in_order = rw (
    server_takes (record { client = c; server = s; to_server = fin ∷ []; to_client = [] }) 0 tmp fin
        [] _ _ refl (at_estab_fin s fin tmp se refl),
    client_takes (between c [] (segment_of (answer fin tmp (set_ack 0)) ∷ last ∷ [])) 0 tmp
        (segment_of (answer fin tmp (set_ack 0))) (last ∷ []) _ _ refl
        (at_estab_all c (segment_of (answer fin tmp (set_ack 0))) tmp ce refl cr cs),
    client_takes (between (record c { writep = 1 }) [] (last ∷ [])) 0 tmp last [] _ _ refl
        (at_estab_fin (record c { writep = 1 }) last tmp ce refl),
  )
  early overtaken = rw (
    server_takes (record { client = c; server = s; to_server = fin ∷ []; to_client = [] }) 0 tmp fin
        [] _ _ refl (at_estab_fin s fin tmp se refl),
    client_takes (between c [] (segment_of (answer fin tmp (set_ack 0)) ∷ last ∷ [])) 1 tmp last
        (segment_of (answer fin tmp (set_ack 0)) ∷ []) _ _ refl (at_estab_fin c last tmp ce refl),
    client_takes
        (between (set_status c last_ack) (answered c).to_server
          (segment_of (answer fin tmp (set_ack 0)) ∷ []))
        0 tmp (segment_of (answer fin tmp (set_ack 0))) [] _ _ refl
        (at_last_ack (set_status c last_ack) (segment_of (answer fin tmp (set_ack 0))) tmp refl
          refl),
  )

  -- The server has handled what the client sent.
  abbrev stuck : MySocket → Peers
  stuck x = record {
    client = x;
    server = set_status (set_status s last_ack) closed;
    to_server = [];
    to_client = [];
  }

  late :
      (x : MySocket) (o : Order)
      → deliver_all (answered x) (both_at at_server o tmp) ≡ some (stuck x)
  unfolding deliver_all pick
  late x in_order = rw (
    server_takes (answered x) 0 tmp (segment_of (answer last tmp (set_ack 0)))
        (segment_of (answer last tmp (set_fin 0)) ∷ []) _ _ refl
        (at_last_ack (set_status s last_ack) (segment_of (answer last tmp (set_ack 0))) tmp refl
          refl),
    server_takes (record (stuck x) { to_server = segment_of (answer last tmp (set_fin 0)) ∷ [] }) 0
        tmp (segment_of (answer last tmp (set_fin 0))) [] _ _ refl
        (at_closed_fin (set_status (set_status s last_ack) closed)
          (segment_of (answer last tmp (set_fin 0))) tmp refl refl),
  )
  late x overtaken = rw (
    server_takes (answered x) 1 tmp (segment_of (answer last tmp (set_fin 0)))
        (segment_of (answer last tmp (set_ack 0)) ∷ []) _ _ refl
        (at_last_ack_fin (set_status s last_ack) (segment_of (answer last tmp (set_fin 0))) tmp refl
          refl),
    server_takes (between x (segment_of (answer last tmp (set_ack 0)) ∷ []) []) 0 tmp
        (segment_of (answer last tmp (set_ack 0))) [] _ _ refl
        (at_last_ack (set_status s last_ack) (segment_of (answer last tmp (set_ack 0))) tmp refl
          refl),
  )

  stuck_waits : (x : MySocket) (d : Delivery) → deliver (stuck x) d ≡ none
  stuck_waits x (at_server i b) = server_waits (stuck x) i b (pick-nil [] i refl)
  stuck_waits x (at_client i b) = client_waits (stuck x) i b (pick-nil [] i refl)

-- Between two established sockets with nothing in flight, where the closing client has stored at most
-- one byte: __wrap_close sends its FIN, then the client handles the server's acknowledgement and FIN, in
-- either order, and only then FINWAIT1 is set; after that the server handles the client's
-- acknowledgement and FIN, in either order. Then every packet has been handled without fault and the
-- server is closed, but the client's __wrap_close waits for ever: its test fails, and no packet is left
-- that could change that.
pub close_race :
    (k : Kernel) (fd : ℕ) (c s : MySocket) (tmp : ℕ) (answers acks : Order)
    → find fd k.socket_set ≡ some c
    → c.tcb.status ≡ estab
    → s.tcb.status ≡ estab
    → is_server c.role ≡ false
    → c.sizep ≤ 1
    → is_server c.tcb.role ≡ false
    → (sent : Reply) × (p₁ p₂ : Peers) × (close_start k fd tmp ≡ some (some sent))
      × (sent.flag ≡ set_fin 0)
      × (deliver_all
            (record { client = c; server = s; to_server = segment_of sent ∷ []; to_client = [] })
            (at_server 0 tmp ∷ both_at at_client answers tmp)
          ≡ some p₁)
      × (close_set (put_socket k fd p₁.client) fd
          ≡ some (put_socket (put_socket k fd p₁.client) fd (marked p₁).client))
      × ((marked p₁).client.tcb.status ≡ fin_wait1)
      × (deliver_all (marked p₁) (both_at at_server acks tmp) ≡ some p₂)
      × (p₂.server.tcb.status ≡ closed)
      × (close_returns p₂.client ≡ false)
      × ((d : Delivery) → deliver p₂ d ≡ none)
unfolding close_mark close_start close_set
close_race k fd c s tmp answers acks at ce se cr cs role =
    let x : MySocket = set_status (early_client c s tmp ce se cr cs answers) fin_wait1 in
    let kept = early_role c s tmp ce se cr cs answers role in
    let now : marked (answered c s tmp ce se cr cs (early_client c s tmp ce se cr cs answers))
        ≡ answered c s tmp ce se cr cs x =
      rw kept refl in
    (
      signal c tmp (set_fin 0),
      answered c s tmp ce se cr cs (early_client c s tmp ce se cr cs answers),
      stuck c s tmp ce se cr cs x,
      rw (at, role) refl,
      refl,
      early c s tmp ce se cr cs answers,
      rw (assign_self fd (early_client c s tmp ce se cr cs answers) c k.socket_set at) refl,
      rw kept refl,
      rw now (late c s tmp ce se cr cs x acks),
      refl,
      rw kept refl,
      stuck_waits c s tmp ce se cr cs x,
    )

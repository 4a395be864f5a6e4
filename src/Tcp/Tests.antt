-- ===== src/Tcp/Tests.antt =====
-- Two sockets that open a connection, send a stream and close, and one packet over one hop.
use i_tcp.Common.{
  ℕ, ◌-◌, ◌*◌, ◌+◌, ◌≡◌, ◌<◌, refl, true, none, some, List, [], ◌∷◌, length, ◌⊎◌, arith,
}
use i_tcp.Word.{is_syn, is_fin, is_ack, set_syn, set_fin, set_ack}
use i_tcp.Dict.{pair_ordered}
use i_tcp.Ip.Arp.{recv_frame}
use i_tcp.Tcp.Types.{
  listen, syn_sent, estab, fin_wait1, last_ack, client, server, MySocket, Segment, Reply, slice,
  copy_in,
}
use i_tcp.Tcp.Data.{recv_tcp_packet, recv_data, recv_ack, my_read, my_write}
use i_tcp.Tcp.ReadWrite.{my_read-my_write}
use i_tcp.Tcp.Handler.{handle}
use i_tcp.Tcp.Wire.{segment_of, send_tcp_packet, parse_packet, tcp-OneHop}
use i_tcp.Tcp.Graph.{Edge, left, handle-Edge, Edge-handle}
use i_tcp.Tcp.Peers.{Peers, Delivery, at_server, at_client, deliver, deliver_all, pick, Proceeds}
use i_tcp.Tcp.Untouched.{Untouched}
use i_tcp.Tcp.Handshake.{Opened, handshake}
use i_tcp.Tcp.Teardown.{Closed, teardown}
use i_tcp.Tcp.Transfer.{DataOut, Delivered}
use i_tcp.Tcp.Stream.{HasPrefix, transfer}
use i_tcp.Sample.{
  message-Sendable, route, message-OneHop, veth_a, veth_b, host_a, host_b, a_to_b, message,
  socket_in, flagged,
}

handle-Edge_example :
    ((socket_in server last_ack 0).tcb.status ≡ estab)
    ⊎ Edge (set_fin 0) estab (socket_in server last_ack 0).tcb.status
unfolding handle set_fin is_syn is_ack is_fin
handle-Edge_example =
    handle-Edge (socket_in server estab 0) (flagged (set_fin 0)) 0
      {s' = socket_in server last_ack 0} refl

Edge-handle_example :
    (s' : MySocket) × (out : List Reply) × (handle
        (socket_in server estab 0)
        (flagged (set_fin 0))
        0
      ≡ some (s', out))
    × (s'.tcb.status ≡ last_ack)
unfolding set_fin is_syn is_fin
Edge-handle_example =
    Edge-handle (socket_in server estab 0) (flagged (set_fin 0)) 0 (left refl refl)

abbrev after : Peers → List Delivery → Peers
after p ds = elim (deliver_all p ds) [ none ↦ p | some p' ↦ p' ]

abbrev opening : Peers
opening = record {
  client = socket_in client syn_sent 0;
  server = socket_in server listen 0;
  to_server = flagged (set_syn 0) ∷ [];
  to_client = [];
}

abbrev three : List Delivery
three = at_server 0 1 ∷ at_client 0 2 ∷ at_server 0 3 ∷ []

handshake_example :
    ((length three < 3) × Proceeds (after opening three))
    ⊎ ((length three ≡ 3) × Opened (after opening three) × Untouched opening (after opening three))
unfolding deliver_all deliver pick handle set_syn set_ack is_syn is_ack is_fin
handshake_example =
    handshake opening (flagged (set_syn 0)) three {p' = after opening three} refl refl refl refl
      refl refl

abbrev leaving : Peers
leaving = record {
  client = socket_in client fin_wait1 0;
  server = socket_in server estab 0;
  to_server = flagged (set_fin 0) ∷ [];
  to_client = [];
}

-- The server's FIN arrives before its ACK.
abbrev overtaken : List Delivery
overtaken = at_server 0 1 ∷ at_client 1 2 ∷ at_client 0 3 ∷ at_server 0 4 ∷ []

teardown_example :
    ((length overtaken < 4) × Proceeds (after leaving overtaken))
    ⊎ ((length overtaken ≡ 4) × Closed (after leaving overtaken))
unfolding deliver_all deliver pick handle set_fin set_ack is_syn is_ack is_fin
teardown_example =
    teardown leaving (flagged (set_fin 0)) overtaken {p' = after leaving overtaken} refl refl refl
      refl refl refl

-- Three bytes to write.
abbrev first_chunk : Segment
first_chunk = record { info = a_to_b; seq = 0; ack = 0; flag = 0; payload = 7 ∷ 7 ∷ 7 ∷ [] }

abbrev writing : Peers
writing = record {
  client = socket_in client estab 3;
  server = socket_in server estab 0;
  to_server = first_chunk ∷ [];
  to_client = [];
}

abbrev two : List Delivery
two = at_server 0 1 ∷ at_client 0 2 ∷ []

writing-DataOut : DataOut (λ i. 7) 3 0 writing
unfolding slice
writing-DataOut = record {
  sync = record {
    client_status = refl;
    client_role = refl;
    client_bytes = refl;
    client_size = refl;
    server_status = refl;
    server_size = refl;
    agree = λ i h. refl;
  };
  more = omega arith;
  g = first_chunk;
  out = refl;
  flag = refl;
  seq = refl;
  payload = refl;
  quiet = refl;
}

transfer_example :
    ((length two < 2 * (3 - 0))
      × HasPrefix (λ i. 7) 3 (after writing two)
      × Proceeds (after writing two))
    ⊎ Delivered (λ i. 7) 3 (after writing two)
unfolding deliver_all deliver pick handle set_ack is_syn is_ack is_fin recv_tcp_packet recv_data
    recv_ack copy_in
transfer_example =
    transfer (λ i. 7) 3 0 writing two {p' = after writing two} (omega arith) writing-DataOut refl

tcp-OneHop_example :
    (frame packet : List ℕ) × (send_tcp_packet host_a 0 1 message
      ≡ some (record { device = 0; frame = frame } ∷ []))
    × (recv_frame host_b frame (length frame) 0 (0 ∷ [])
        ≡ some (record { ok = true; host = host_b; sent = []; up = some packet }))
    × (parse_packet packet ≡ some (segment_of message))
    × (length frame ≡ 58 + length message.buf)
tcp-OneHop_example =
    tcp-OneHop host_a host_b message route veth_a veth_b 0 0 1 (0 ∷ []) message-Sendable
      message-OneHop (omega arith) (omega arith)

-- A socket with two bytes to read, to which three are written.
my_read-my_write_example :
    (s' s'' : MySocket) × (my_write (socket_in client estab 2) (1 ∷ 2 ∷ 3 ∷ []) ≡ some s')
    × (my_read s' 5 ≡ some (7 ∷ 7 ∷ 1 ∷ 2 ∷ 3 ∷ [], s''))
    × (s''.readp ≡ s''.sizep)
    × (my_read s' 6 ≡ none)
unfolding slice
my_read-my_write_example =
    my_read-my_write (socket_in client estab 2) (7 ∷ 7 ∷ []) (1 ∷ 2 ∷ 3 ∷ []) refl refl
      (omega arith)

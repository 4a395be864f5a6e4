-- ===== src/Socket/Tests.antt =====
-- The calls of src/socket.cc at concrete sockets.
use i_tcp.Common.{
  ℕ, ◌+◌, ◌*◌, ◌≡◌, ◌≢◌, ◌<◌, ◌≤◌, refl, true, false, none, some, List, [], ◌∷◌, length, ◌⊎◌, arith,
}
use i_tcp.Word.{is_syn, is_fin, is_ack, set_syn, set_fin, set_ack}
use i_tcp.Dict.{find, nat_ordered}
use i_tcp.Queue.{new}
use i_tcp.Tcp.Types.{
  fin_wait1, Reply, buf_size, copy_out, closed, listen, estab, client, server, MySocket, slice,
  store, copy_in, set_status,
}
use i_tcp.Tcp.Data.{recv_tcp_packet, recv_data, recv_ack, my_write}
use i_tcp.Tcp.Handler.{handle}
use i_tcp.Tcp.Kernel.{Kernel}
use i_tcp.Tcp.Wire.{segment_of}
use i_tcp.Tcp.Peers.{Peers, Delivery, at_server, at_client, deliver, deliver_all, pick, Proceeds}
use i_tcp.Tcp.Transfer.{Delivered}
use i_tcp.Tcp.Listening.{Taken}
use i_tcp.Socket.{
  send_first, put_socket, signal, connecting, connect_start, connect_returns, accept_start,
  accept_finish, accept_returns, write_start, write_returns, close_start, close_set, close_mark,
  close_returns,
}
use i_tcp.Socket.Open.{dial, open_lem}
use i_tcp.Socket.Write.{ReadsAll, sending, after_write, filled, first_packet, write_read}
use i_tcp.Socket.Close.{fin_sent, marked, close_lem}
use i_tcp.Socket.Descriptors.{accept_lem}
use i_tcp.Socket.Race.{in_order, overtaken, close_race}
use i_tcp.Socket.Traffic.{Runs, Step}
use i_tcp.Socket.Intact.{Matches}
use i_tcp.Socket.Stream.{any_network}
use i_tcp.Sample.{a_to_b, socket_in}

abbrev after : Peers → List Delivery → Peers
after p ds = elim (deliver_all p ds) [ none ↦ p | some p' ↦ p' ]

-- A kernel whose only socket has descriptor 1.
abbrev only : MySocket → Kernel
only s = record {
  un_solved_socket = new 2 0;
  socket_queue = (1, new 2 []) ∷ [];
  socket_set = (1, s) ∷ [];
}

abbrev fresh : MySocket
fresh = socket_in client closed 0

abbrev bound : MySocket
bound = socket_in server listen 0

abbrev three : List Delivery
three = at_server 0 1 ∷ at_client 0 2 ∷ at_server 0 3 ∷ []

open_example :
    (connect_start (only fresh) 1 a_to_b 9
      ≡ some (
        put_socket (only fresh) 1 (dial fresh bound a_to_b 9).client,
        signal (connecting fresh a_to_b) 9 (set_syn 0),
      ))
    × (((length three < 3) × Proceeds (after (dial fresh bound a_to_b 9) three))
        ⊎ ((length three ≡ 3)
            × (connect_returns (after (dial fresh bound a_to_b 9) three).client ≡ true)
            × (accept_returns (after (dial fresh bound a_to_b 9) three).server ≡ true)
            × Delivered (λ i. 7) 0 (after (dial fresh bound a_to_b 9) three)))
unfolding deliver_all deliver pick handle set_syn set_ack is_syn is_ack is_fin find
open_example =
    open_lem (only fresh) 1 fresh bound a_to_b 9 three
      {p' = after (dial fresh bound a_to_b 9) three} refl refl refl refl refl refl

abbrev quiet : Peers
quiet = record {
  client = record (socket_in client estab 2) { writep = 2 };
  server = record (socket_in server estab 2) { readp = 2 };
  to_server = [];
  to_client = [];
}

quiet-Delivered : Delivered (λ i. 7) 2 quiet
quiet-Delivered = record {
  sync = record {
    client_status = refl;
    client_role = refl;
    client_bytes = refl;
    client_size = refl;
    server_status = refl;
    server_size = refl;
    agree = λ i h. refl;
  };
  written = refl;
  idle = (refl, refl);
}

abbrev bytes : List ℕ
bytes = 1 ∷ 2 ∷ 3 ∷ []

abbrev two : List Delivery
two = at_server 0 1 ∷ at_client 0 2 ∷ []

write_read_example :
    (write_start (only quiet.client) 1 bytes
      ≡ some (
        put_socket (only quiet.client) 1 (after_write quiet bytes).client,
        first_packet (filled quiet.client bytes),
      ))
    × (((length two < 2 * length bytes)
          × Proceeds (after (after_write quiet bytes) two)
          × ((write_returns (after (after_write quiet bytes) two).client ≡ false)
              ⊎ (length bytes ≤ 1000)))
        ⊎ (Delivered
              (store (λ i. 7) 2 bytes)
              (2 + length bytes)
              (after (after_write quiet bytes) two)
            × (write_returns (after (after_write quiet bytes) two).client ≡ true)
            × ReadsAll (λ i. 7) 2 quiet (after (after_write quiet bytes) two) bytes))
unfolding deliver_all deliver pick handle set_ack is_syn is_ack is_fin recv_tcp_packet recv_data
    recv_ack copy_in find slice
write_read_example =
    write_read (only quiet.client) 1 (λ i. 7) 2 quiet bytes two
      {p' = after (after_write quiet bytes) two} refl quiet-Delivered (omega arith) (omega arith)
      (omega arith) refl

-- The server answers before the client has its new state; its FIN arrives before its ACK.
abbrev answered : Peers
answered = after (fin_sent quiet 9) (at_server 0 1 ∷ [])

abbrev overtaken_fin : List Delivery
overtaken_fin = at_client 1 2 ∷ at_client 0 3 ∷ at_server 0 4 ∷ []

close_example :
    (close_start (only quiet.client) 1 9 ≡ some (some (signal quiet.client 9 (set_fin 0))))
    × (close_set (only answered.client) 1
        ≡ some (put_socket (only answered.client) 1 (marked answered).client))
    × ((marked answered).client.tcb.status ≡ fin_wait1)
    × (((length (at_server 0 1 ∷ overtaken_fin) < 4)
          × Proceeds (after (marked answered) overtaken_fin))
        ⊎ ((length (at_server 0 1 ∷ overtaken_fin) ≡ 4)
            × (close_returns (after (marked answered) overtaken_fin).client ≡ true)
            × (close_returns (after (marked answered) overtaken_fin).server ≡ true)
            × ((after (marked answered) overtaken_fin).to_server ≡ [])
            × ((after (marked answered) overtaken_fin).to_client ≡ [])))
unfolding deliver_all deliver pick handle set_fin set_ack is_syn is_ack is_fin find close_mark
close_example =
    close_lem (only quiet.client) (only answered.client) 1 (λ i. 7) 2 quiet 9 (at_server 0 1 ∷ [])
      overtaken_fin {q = answered} {p' = after (marked answered) overtaken_fin} refl quiet-Delivered
      refl refl (tt, tt) refl refl refl

nothing-Taken : ¬ Taken (only bound) 100 200
unfolding find
nothing-Taken t = t 100 (omega arith) (omega arith) refl

accept_example :
    (connfd : ℕ) × (k₁ k₂ : Kernel) × ((100 ≤ connfd)
      × (connfd < 200)
      × (find connfd (only bound).socket_set ≡ none)
      × Taken (only bound) 100 connfd)
    × (accept_start (only bound) 1 ≡ some (connfd, k₁))
    × (find connfd k₁.socket_set ≡ some (set_status bound listen))
    × (find 1 k₁.socket_set ≡ some (set_status bound closed))
    × ((j : ℕ) → connfd ≢ j → 1 ≢ j → find j k₁.socket_set ≡ find j (only bound).socket_set)
    × (accept_finish k₁ 1 ≡ some k₂)
    × (find 1 k₂.socket_set ≡ some (set_status bound listen))
    × ((j : ℕ) → 1 ≢ j → find j k₂.socket_set ≡ find j k₁.socket_set)
unfolding find
accept_example = accept_lem (only bound) 1 bound refl nothing-Taken

abbrev ended : MySocket
ended = socket_in client estab 1

close_race_example :
    (sent : Reply) × (p₁ p₂ : Peers) × (close_start (only ended) 1 9 ≡ some (some sent))
    × (sent.flag ≡ set_fin 0)
    × (deliver_all
          (record {
            client = ended;
            server = socket_in server estab 1;
            to_server = segment_of sent ∷ [];
            to_client = [];
          })
          (at_server 0 9 ∷ at_client 1 9 ∷ at_client 0 9 ∷ [])
        ≡ some p₁)
    × (close_set (put_socket (only ended) 1 p₁.client) 1
        ≡ some (put_socket (put_socket (only ended) 1 p₁.client) 1 (marked p₁).client))
    × ((marked p₁).client.tcb.status ≡ fin_wait1)
    × (deliver_all (marked p₁) (at_server 0 9 ∷ at_server 0 9 ∷ []) ≡ some p₂)
    × (p₂.server.tcb.status ≡ closed)
    × (close_returns p₂.client ≡ false)
    × ((d : Delivery) → deliver p₂ d ≡ none)
unfolding find
close_race_example =
    close_race (only ended) 1 ended (socket_in server estab 1) 9 overtaken in_order refl refl refl
      refl (omega arith) refl

-- Two writes of one byte, of which the second arrives first.
abbrev first_written : MySocket
first_written = sending (filled quiet.client (1 ∷ []))

abbrev both_written : MySocket
both_written = sending (filled first_written (2 ∷ []))

abbrev in_flight : Peers
in_flight = record quiet {
  client = both_written;
  to_server =
      segment_of (first_packet (filled quiet.client (1 ∷ [])))
      ∷ segment_of (first_packet (filled first_written (2 ∷ [])))
      ∷ [];
}

abbrev swapped : Peers
swapped = after in_flight (at_server 1 9 ∷ [])

swapped-Runs : Runs quiet swapped
unfolding send_first my_write copy_in copy_out slice deliver_all deliver pick handle is_syn is_ack
    is_fin recv_tcp_packet recv_data
swapped-Runs =
    Runs.later
      (Runs.later
        (Runs.later
          (Runs.later (Runs.later Runs.start (Step.written (1 ∷ []) refl)) (Step.sent refl))
          (Step.written (2 ∷ []) refl))
        (Step.sent refl))
      (Step.handled (at_server 1 9) refl)

any_network_example :
    (swapped.client.writep ≤ swapped.client.sizep)
    × (swapped.server.sizep ≤ swapped.client.sizep)
    × (swapped.client.sizep ≤ buf_size)
    × Matches quiet.server.databuf swapped.client.databuf swapped.client.sizep
        swapped.server.databuf
    × ((i tmp : ℕ)
        → (pick swapped.to_server i ≡ none)
          ⊎ ((q : Peers) × (deliver swapped (at_server i tmp) ≡ some q)))
    × ((i tmp : ℕ)
        → (pick swapped.to_client i ≡ none)
          ⊎ ((q : Peers) × (deliver swapped (at_client i tmp) ≡ some q)))
any_network_example = any_network (λ i. 7) 2 quiet quiet-Delivered (omega arith) swapped-Runs

-- ===== src/Program/Tests.antt =====
-- The opening of the two programs, with all three packets delivered.
use i_tcp.Common.{
  ◌+◌, ◌*◌, ◌++◌, replicate, arith, ℕ, ◌<◌, ◌≡◌, refl, true, false, some, none, List, [], ◌∷◌,
  length, ◌⊎◌,
}
use i_tcp.Word.{is_syn, is_fin, is_ack, set_syn, set_ack}
use i_tcp.Dict.{find, nat_ordered}
use i_tcp.Queue.{new}
use i_tcp.Tcp.Types.{client, server, estab, MySocket, Reply, back, slice, store, copy_in, copy_out}
use i_tcp.Tcp.Sockets.{bind, new_socket}
use i_tcp.Tcp.Data.{recv_tcp_packet, recv_data, recv_ack, my_read}
use i_tcp.Tcp.Handler.{handle}
use i_tcp.Tcp.Kernel.{Kernel, choose}
use i_tcp.Tcp.Wire.{segment_of}
use i_tcp.Tcp.Peers.{Peers, Delivery, at_server, at_client, deliver, deliver_all, pick, Proceeds}
use i_tcp.Tcp.Transfer.{Delivered}
use i_tcp.Socket.{connect_returns, accept_returns, write_returns}
use i_tcp.Socket.Write.{after_write}
use i_tcp.Daemon.{booted}
use i_tcp.Program.{sender_work, recver_work}
use i_tcp.Program.Data.{Written, both_writes}
use i_tcp.Program.Session.{talk, session}
use i_tcp.Sample.{veth_a, veth_b, a_to_b, socket_in}

abbrev three : List Delivery
three = at_server 0 1 ∷ at_client 0 2 ∷ at_server 0 3 ∷ []

abbrev begun : Peers
begun = talk a_to_b a_to_b a_to_b true false 7

abbrev ended : Peers
ended = elim (deliver_all begun three) [ none ↦ begun | some p' ↦ p' ]

session_example :
    (k₁ k₂ : Kernel) × (r : Reply) × (sender_work (booted (veth_a ∷ [])).kernel a_to_b true 7
      ≡ some (100, k₁, r))
    × (find 100 k₁.socket_set ≡ some begun.client)
    × (begun.to_server ≡ segment_of r ∷ [])
    × (recver_work (booted (veth_b ∷ [])).kernel a_to_b false a_to_b ≡ some (101, k₂))
    × (find 101 k₂.socket_set ≡ some begun.server)
    × ((sockets : List (ℕ × MySocket)) × (choose k₂.socket_set r.info r.flag ≡ some (101, sockets))
        × (find 100 sockets ≡ find 100 k₂.socket_set)
        × (find 101 sockets ≡ some (record begun.server { address = back r.info })))
    × (((length three < 3) × Proceeds ended)
        ⊎ ((length three ≡ 3)
            × (connect_returns ended.client ≡ true)
            × (accept_returns ended.server ≡ true)
            × Delivered (λ i. 0) 0 ended))
unfolding deliver_all deliver pick handle set_syn set_ack is_syn is_ack is_fin bind new_socket
session_example =
    session (veth_a ∷ []) (veth_b ∷ []) a_to_b a_to_b a_to_b true false 7 three {p' = ended} refl

-- A connection on which nothing has been sent, and 1001 bytes for each write.
abbrev unused : Peers
unused = record {
  client = socket_in client estab 0;
  server = socket_in server estab 0;
  to_server = [];
  to_client = [];
}

unused-Delivered : Delivered (λ i. 7) 0 unused
unused-Delivered = record {
  sync = record {
    client_status = refl;
    client_role = refl;
    client_bytes = refl;
    client_size = refl;
    server_status = refl;
    server_size = refl;
    agree = λ i h. refl;
  };
  written = refl;
  idle = (refl, refl);
}

abbrev ones : List ℕ
ones = replicate 1001 1

abbrev twos : List ℕ
twos = replicate 1001 2

abbrev four : List Delivery
four = at_server 0 1 ∷ at_client 0 2 ∷ at_server 0 3 ∷ at_client 0 4 ∷ []

abbrev half : Peers
half = elim (deliver_all (after_write unused ones) four) [ none ↦ unused | some p' ↦ p' ]

abbrev whole : Peers
whole = elim (deliver_all (after_write half twos) four) [ none ↦ half | some p' ↦ p' ]

-- A kernel with the client's socket.
abbrev on : Peers → Kernel
on p = record {
  un_solved_socket = new 2000 0;
  socket_queue = [];
  socket_set = (100, p.client) ∷ [];
}

both_writes_example :
    Written (on unused) 100 unused ones
    × Written (on half) 100 half twos
    × (((length four < 2 * length twos) × Proceeds whole × (write_returns whole.client ≡ false))
        ⊎ ((write_returns whole.client ≡ true)
            × ((s : MySocket) × (my_read whole.server (length ones + length twos)
                  ≡ some (ones ++ twos, s))
                × (s.readp ≡ s.sizep))))
unfolding find deliver_all deliver pick handle set_ack is_syn is_ack is_fin recv_tcp_packet
    recv_data recv_ack copy_in copy_out slice store
both_writes_example =
    both_writes (λ i. 7) 0 (on unused) (on half) 100 unused ones twos four four {p₁ = half}
      {p₂ = whole} unused-Delivered refl refl refl (omega arith) (omega arith) (omega arith) refl
      refl refl

-- ===== src/Program/EndingTests.antt =====
-- Two kernels with one connection, on which the sender is to write; it has sent its first packet, and
-- the receiver has got it.
use i_tcp.Common.{◌≤◌, replicate, ℕ, refl, true, none, some, List, [], ◌∷◌, ◌⊎◌, map}
use i_tcp.Word.{is_syn, is_fin, is_ack, set_ack}
use i_tcp.Dict.{find, assign, nat_ordered}
use i_tcp.Queue.{new}
use i_tcp.Tcp.Types.{
  client, server, estab, listen, MySocket, Reply, slice, store, copy_in, copy_out,
}
use i_tcp.Tcp.Data.{recv_tcp_packet, recv_data, my_write}
use i_tcp.Tcp.Handler.{handle}
use i_tcp.Tcp.Kernel.{Kernel}
use i_tcp.Tcp.Wire.{segment_of}
use i_tcp.Tcp.Peers.{pick}
use i_tcp.Tcp.Transfer.{Delivered}
use i_tcp.Socket.{write_start, send_first}
use i_tcp.Program.{SenderAt, connecting, reading, sender_resume}
use i_tcp.Program.Talk.{Talk, ends, Step, Steps}
use i_tcp.Program.Ending.{GoesOn, HasEnded, conversation}
use i_tcp.Sample.{socket_in}

abbrev caller : MySocket
caller = record (socket_in client estab 0) { conn_ready = true }

abbrev callee : MySocket
callee = socket_in server estab 0

abbrev kernel_of : List (ℕ × MySocket) → Kernel
kernel_of sockets = record {
  un_solved_socket = new 2000 0;
  socket_queue = [];
  socket_set = sockets;
}

abbrev opened : Talk
opened = record {
  sender = kernel_of ((100, caller) ∷ []);
  recver = kernel_of ((100, socket_in server listen 0) ∷ (101, callee) ∷ []);
  sender_at = connecting;
  recver_at = reading;
  to_server = [];
  to_client = [];
}

opened-Delivered : Delivered (λ i. 7) 0 (ends opened caller callee)
opened-Delivered = record {
  sync = record {
    client_status = refl;
    client_role = refl;
    client_bytes = refl;
    client_size = refl;
    server_status = refl;
    server_size = refl;
    agree = λ i h. refl;
  };
  written = refl;
  idle = (refl, refl);
}

abbrev writefile : List ℕ
writefile = replicate 1001 1

abbrev resumed : SenderAt × Kernel × List Reply
resumed = elim (sender_resume opened.sender 100 writefile connecting) [
  | none ↦ (connecting, opened.sender, [])
  | some r ↦ r
]

abbrev begun : Talk
begun = record opened {
  sender = resumed.1;
  sender_at = resumed.0;
  to_server = map segment_of resumed.2;
}

abbrev taken : MySocket × List Reply
taken = elim begun.to_server [
  | [] ↦ (callee, [])
  | g ∷ _ ↦ elim (handle callee g 5) [ none ↦ (callee, []) | some r ↦ r ]
]

abbrev received : Talk
received = record begun {
  recver = kernel_of ((100, socket_in server listen 0) ∷ (101, taken.0) ∷ []);
  to_server = [];
  to_client = map segment_of taken.1;
}

received-Steps : Steps 100 100 101 writefile opened 2 received
unfolding sender_resume write_start my_write send_first copy_in copy_out slice store find assign
    pick handle is_syn is_ack is_fin set_ack recv_tcp_packet recv_data new
received-Steps =
    Steps.later (Steps.later Steps.start (Step.sender_goes_on refl))
      (Step.reaches_recver 0 5 refl refl refl)

conversation_example :
    (2 ≤ 4007) × (GoesOn 100 100 101 writefile received ⊎ HasEnded 100 100 101 writefile received)
unfolding find
conversation_example =
    conversation 100 100 101 2 writefile (λ i. 7) caller callee opened refl refl refl refl refl
      opened-Delivered refl refl received-Steps

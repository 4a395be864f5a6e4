-- ===== src/Socket/Open.antt =====
-- __wrap_connect on one side and __wrap_accept on the other (src/socket.cc), up to their returns.
use i_tcp.Common.{
  ℕ, ◌<◌, ◌≡◌, refl, ◌∙◌, ap, true, false, some, List, [], ◌∷◌, length, arith, ◌⊎◌, inl, inr,
}
use i_tcp.Word.{set_syn}
use i_tcp.Dict.{find, nat_ordered}
use i_tcp.Tcp.Types.{listen, MySocket, Tuple4, set_status}
use i_tcp.Tcp.Data.{is_server}
use i_tcp.Tcp.Wire.{segment_of}
use i_tcp.Tcp.Kernel.{Kernel}
use i_tcp.Tcp.Peers.{Peers, Delivery, deliver_all, Proceeds}
use i_tcp.Tcp.Steady.{deliver_all-BothSteady}
use i_tcp.Tcp.Handshake.{handshake}
use i_tcp.Tcp.Transfer.{Delivered}
use i_tcp.Socket.{put_socket, signal, connecting, connect_start, connect_returns, accept_returns}

-- The two sockets when both calls wait: `c` has connected to `address`, a copy of `l` listens.
abbrev pub dial : MySocket → MySocket → Tuple4 → ℕ → Peers
dial c l address tmp = record {
  client = connecting c address;
  server = set_status l listen;
  to_server = segment_of (signal (connecting c address) tmp (set_syn 0)) ∷ [];
  to_client = [];
}

-- __wrap_connect on a client's socket that has no data sends one SYN, and where that reaches a socket
-- with no data on which __wrap_accept waits: after any deliveries, of whatever packets in whatever
-- order, either fewer than three were made and a further one is possible without fault, or exactly
-- three were made; then the waits of both calls are over, both sides are established with an empty
-- stream, and no packet is in flight.
pub open_lem :
    (k : Kernel) (fd : ℕ) (c l : MySocket) (address : Tuple4) (tmp : ℕ) (ds : List Delivery)
    {p' : Peers}
    → find fd k.socket_set ≡ some c
    → is_server c.role ≡ false
    → c.sizep ≡ 0
    → c.writep ≡ 0
    → l.sizep ≡ 0
    → deliver_all (dial c l address tmp) ds ≡ some p'
    → (connect_start k fd address tmp
        ≡ some (
          put_socket k fd (dial c l address tmp).client,
          signal (connecting c address) tmp (set_syn 0),
        ))
      × (((length ds < 3) × Proceeds p')
          ⊎ ((length ds ≡ 3)
              × (connect_returns p'.client ≡ true)
              × (accept_returns p'.server ≡ true)
              × Delivered c.databuf 0 p'))
unfolding connect_start
open_lem k fd c l address tmp ds {p'} at role size sent left h = (
  rw at,
  elim (handshake (dial c l address tmp) _ ds refl refl refl refl refl h) [
    | inl (few, more) ↦ inl (few, more)
    | inr (three, (states, flags, idle), same) ↦
        let steady = deliver_all-BothSteady (dial c l address tmp) ds h in
        inr (
          three,
          flags.0,
          rw (flags.1, flags.2),
          record {
            sync = record {
              client_status = states.0;
              client_role = ap is_server steady.client.role ∙ role;
              client_bytes = same.client.databuf;
              client_size = same.client.sizep ∙ size;
              server_status = states.1;
              server_size = same.server.sizep ∙ left;
              agree = λ i low. absurd (omega arith);
            };
            written = same.client.writep ∙ sent;
            idle = idle;
          },
        )
  ],
)

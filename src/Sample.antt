-- ===== src/Sample.antt =====
-- Two hosts on one link, for the tests.
use i_tcp.Common.{refl, arith, ℕ, false, List, [], ◌∷◌}
use i_tcp.Device.{Device}
use i_tcp.Ip.Host.{Host, full_mask}
use i_tcp.Tcp.Types.{Status, Role, Tuple4, MySocket, Segment, Reply}
use i_tcp.Word.{set_ack}
use i_tcp.Dict.{find, pair_ordered, nat_ordered}
use i_tcp.Route.{RtValue}
use i_tcp.Ip.Arp.{memcmp_eq}
use i_tcp.Tcp.Wire.{Sendable, OneHop}

abbrev pub mac_a : List ℕ
mac_a = 2 ∷ 0 ∷ 0 ∷ 0 ∷ 0 ∷ 1 ∷ []

abbrev pub mac_b : List ℕ
mac_b = 2 ∷ 0 ∷ 0 ∷ 0 ∷ 0 ∷ 2 ∷ []

abbrev pub ip_a : ℕ
ip_a = 0x100_000a

abbrev pub ip_b : ℕ
ip_b = 0x200_000a

abbrev pub veth_a : Device
veth_a = record { mac = mac_a; ip = ip_a; name = "veth0"; id = 0 }

abbrev pub veth_b : Device
veth_b = record { mac = mac_b; ip = ip_b; name = "veth0"; id = 0 }

abbrev pub host_a : Host
host_a = record {
  curr_device = veth_a ∷ [];
  route_table = ((ip_b, full_mask), record { device_id = 0; dst_mac = mac_b; ttl = 8 }) ∷ [];
}

abbrev pub host_b : Host
host_b = record { curr_device = veth_b ∷ []; route_table = [] }

abbrev pub a_to_b : Tuple4
a_to_b = record { src_ip = ip_a; dst_ip = ip_b; src_port = 4000; dst_port = 80 }

abbrev pub message : Reply
message = record { buf = 1 ∷ 2 ∷ 3 ∷ []; info = a_to_b; seq = 5; ack = 7; flag = set_ack 0 }

-- A socket in a state, with so many bytes in its buffer, all of them 7.
abbrev pub socket_in : Role → Status → ℕ → MySocket
socket_in role status size = record {
  databuf = λ i. 7;
  readp = 0;
  writep = 0;
  sizep = size;
  role = role;
  type = 1;
  address = a_to_b;
  tcb = record { role = role; status = status };
  conn_ready = false;
  acc_syn_ready = false;
  acc_ack_ready = false;
}

-- A packet of no payload with these flags.
abbrev pub flagged : ℕ → Segment
flagged flag = record { info = a_to_b; seq = 0; ack = 0; flag = flag; payload = [] }

pub message-Sendable : Sendable message
unfolding set_ack
message-Sendable = record {
  src_ip = omega arith;
  dst_ip = omega arith;
  src_port = omega arith;
  dst_port = omega arith;
  seq = omega arith;
  ack = omega arith;
  flag = omega arith;
  room = omega arith;
}

abbrev pub route : RtValue
route = record { device_id = 0; dst_mac = mac_b; ttl = 8 }

pub message-OneHop : OneHop host_a host_b message route veth_a veth_b 0
unfolding find
message-OneHop = record {
  ascends = (tt, tt);
  routed = refl;
  unicast = omega arith;
  out = refl;
  out_id = refl;
  at = refl;
  tx_mac = refl;
  rx_mac = refl;
  hop_mac = refl;
  apart = unfold memcmp_eq in refl;
  addressed = refl;
}

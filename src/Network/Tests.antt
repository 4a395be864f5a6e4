-- ===== src/Network/Tests.antt =====
-- Three hosts with one device each, all on one link; host 0 announces its address, and host 2 hears it.
use mathlib.Core.Path.{subst}
use i_tcp.Common.{
  ℕ, zero, suc, ◌∙◌, ap, ◌+◌, ◌%◌, false, ◌≡◌, ◌≢◌, ◌<◌, refl, none, some, List, [], ◌∷◌, ◌++◌,
  length, ◌⊎◌, arith, get_elem?,
}
use mathlib.Core.List.{Memᴰ}
use i_tcp.Word.{ptr2ip_t, change_endian, read16, read32, read8}
use i_tcp.Dict.{find, pair_ordered, assign, insert}
use i_tcp.Device.{Device, get_device_id, last_id}
use i_tcp.Route.Table.{entry}
use i_tcp.Route.{
  RtValue, all_ones, look_for_route, broadcast_hops, matching_hops, my_arp_look_for_route,
  or_broadcast, set_routing_table,
}
use i_tcp.Packet.{
  l3_myarp, construct_ip_packet, ip_row1, memcpy, construct_frame, ip_hdr_bytes, read_ip_hdr,
}
use i_tcp.Ip.Host.{Sent, send_ip_packet, send_all, send_hops, send_frame, forward}
use i_tcp.Ip.Arp.{
  Outcome, recv_frame, send_arp, send_arp_from, memcmp_eq, dispatch, learn, note_route, own_ip,
  reach_dst, recv_arp, refresh, send_arp_broadcast,
}
use i_tcp.Ip.Learning.{Owns}
use i_tcp.Network.{spread, Links, Flying, Network, Step, Runs, transmit, update}
use i_tcp.Network.Sites.{IsSite, Explained}
use i_tcp.Network.Walks.{quiet, Runs-Explained}
use i_tcp.Network.Facing.{Facing, OnItsWay, route}
use i_tcp.Network.Storm.{steps, OnlyHears, Loops, endless, routing_loop}

abbrev machine : ℕ → Device
machine n = record {
  mac = 2 ∷ 0 ∷ 0 ∷ 0 ∷ 0 ∷ n ∷ [];
  ip = 0x100_000a + n % 256;
  name = "veth0";
  id = 0;
}

abbrev machines : ℕ → List Device
machines n = machine n ∷ []

abbrev hub : Links
hub n i = (0, 0) ∷ (1, 0) ∷ (2, 0) ∷ []

abbrev told : List Sent
told = elim (send_arp ((quiet machines).hosts 0) (0 ∷ [])) [ none ↦ [] | some sent ↦ sent ]

-- Host 0 has called sendArp.
abbrev begun : Network
begun = record (quiet machines) { flight = transmit hub 0 told }

abbrev frame : List ℕ
frame = elim told [ [] ↦ [] | s ∷ _ ↦ s.frame ]

abbrev at_end : ℕ → Flying
at_end n = record { host = n; device = 0; frame = frame }

abbrev outcome : Outcome
outcome = elim (recv_frame ((quiet machines).hosts 2) frame (length frame) 0 (0 ∷ [])) [
  | none ↦ record { ok = false; host = (quiet machines).hosts 2; sent = []; up = none }
  | some o ↦ o
]

-- Host 2 has passed the announcement on, to host 1 too.
abbrev passed : Network
passed = record {
  hosts = update begun.hosts 2 outcome.host;
  flight = ((at_end 0 ∷ at_end 1 ∷ []) ++ []) ++ transmit hub 2 outcome.sent;
}

begun-Step : Step hub (quiet machines) begun
unfolding transmit spread send_arp send_arp_from send_ip_packet construct_ip_packet ptr2ip_t ip_row1
    memcpy send_all look_for_route send_hops send_frame construct_frame ip_hdr_bytes
begun-Step = Step.announces 0 0 refl

passed-Step : Step hub begun passed
unfolding transmit spread send_arp send_arp_from send_ip_packet construct_ip_packet ptr2ip_t ip_row1
    memcpy send_all look_for_route send_hops send_frame construct_frame ip_hdr_bytes recv_frame
    memcmp_eq read_ip_hdr dispatch get_device_id last_id assign find insert learn note_route own_ip
    reach_dst recv_arp refresh send_arp_broadcast forward broadcast_hops matching_hops
    my_arp_look_for_route or_broadcast set_routing_table change_endian read16 read32 read8
passed-Step = Step.hears (at_end 0 ∷ at_end 1 ∷ []) [] (at_end 2) (machine 2) 0 refl refl refl

passed-Runs : Runs hub (quiet machines) passed
passed-Runs = Runs.later (Runs.later Runs.start begun-Step) passed-Step

abbrev last_byte : List ℕ → ℕ
last_byte bytes = elim (get_elem? bytes 5) [ none ↦ 0 | some b ↦ b ]

-- The address of host 0.
abbrev announced_ip : ℕ
announced_ip = 0x100_000a

machines-IsSite : (n : ℕ) → IsSite (machines n)
machines-IsSite n = record {
  table = record { ids = (refl, tt); names = (tt, tt) };
  macs = (refl, tt);
  ips = (omega arith, tt);
}

strange : (n : ℕ) → 0x100_000a + n % 256 ≢ announced_ip → ¬ Owns (machines n) announced_ip
strange n other (zero, d, at, e) =
    let same : machine n ≡ d = cc at in other (ap (λ (d : Device). d.ip) same ∙ e)
strange n other (suc i, d, at, e) = cc at

facing : Facing hub machines announced_ip 2 1 (machine 2) (machine 1)
facing = record {
  there = refl;
  here = refl;
  to = Memᴰ.tail (Memᴰ.head refl);
  back = Memᴰ.tail (Memᴰ.tail (Memᴰ.head refl));
  apart = λ e. let f : 2 ≡ 1 = ap last_byte e in omega (arith, f);
  hosts = omega arith;
  foreign = strange 2 (omega arith);
  foreign' = strange 1 (omega arith);
  small = omega arith;
}

abbrev relayed : List ℕ
relayed = elim (construct_ip_packet announced_ip all_ones l3_myarp (0 ∷ []) 1 7) [
  | none ↦ []
  | some packet ↦ packet
]

on_its_way : OnItsWay announced_ip 7 1 (machine 1) (machine 2) passed
unfolding transmit spread send_arp send_arp_from send_ip_packet construct_ip_packet ptr2ip_t ip_row1
    memcpy send_all look_for_route send_hops send_frame construct_frame ip_hdr_bytes recv_frame
    memcmp_eq read_ip_hdr dispatch get_device_id last_id assign find insert learn note_route own_ip
    reach_dst recv_arp refresh send_arp_broadcast forward broadcast_hops matching_hops
    my_arp_look_for_route or_broadcast set_routing_table change_endian read16 read32 read8
on_its_way = (0, relayed, refl, Memᴰ.tail (Memᴰ.tail (Memᴰ.tail (Memᴰ.head refl))))

noted : route passed 2 announced_ip ≡ some (entry 0 (machine 0).mac 8)
unfolding transmit spread send_arp send_arp_from send_ip_packet construct_ip_packet ptr2ip_t ip_row1
    memcpy send_all look_for_route send_hops send_frame construct_frame ip_hdr_bytes recv_frame
    memcmp_eq read_ip_hdr dispatch get_device_id last_id assign find insert learn note_route own_ip
    reach_dst recv_arp refresh send_arp_broadcast forward broadcast_hops matching_hops
    my_arp_look_for_route or_broadcast set_routing_table change_endian read16 read32 read8
noted = refl

unnoted : route passed 1 announced_ip ≡ none
unfolding transmit spread send_arp send_arp_from send_ip_packet construct_ip_packet ptr2ip_t ip_row1
    memcpy send_all look_for_route send_hops send_frame construct_frame ip_hdr_bytes recv_frame
    memcmp_eq read_ip_hdr dispatch get_device_id last_id assign find insert learn note_route own_ip
    reach_dst recv_arp refresh send_arp_broadcast forward broadcast_hops matching_hops
    my_arp_look_for_route or_broadcast set_routing_table change_endian read16 read32 read8
unnoted = refl

Runs-Explained_example : Explained hub machines 2 announced_ip (entry 0 (machine 0).mac 8)
Runs-Explained_example =
    Runs-Explained hub machines 2 announced_ip 0xffff_ffff (entry 0 (machine 0).mac 8)
      machines-IsSite passed-Runs noted

endless_example :
    (net' : Network) × (rs : Runs hub passed net') × (steps rs ≡ 1000)
    × OnlyHears rs
    × (ttl' : ℕ) × (OnItsWay announced_ip ttl' 1 (machine 1) (machine 2) net'
        ⊎ OnItsWay announced_ip ttl' 2 (machine 2) (machine 1) net')
endless_example =
    endless hub machines announced_ip 2 1 (machine 2) (machine 1) 7 1000 machines-IsSite facing
      passed-Runs on_its_way

routing_loop_example :
    (net' : Network) × Runs hub passed net'
    × (Loops announced_ip 2 1 (machine 2) (machine 1) 255 254 net'
        ⊎ Loops announced_ip 1 2 (machine 1) (machine 2) 255 254 net')
routing_loop_example =
    routing_loop hub machines announced_ip 2 1 (machine 2) (machine 1) 7 machines-IsSite facing
      passed-Runs on_its_way (omega arith) (λ v h. absurd (cc (unnoted, h)))
      (λ v h.
        let e : entry 0 (machine 0).mac 8 ≡ v = cc (noted, h) in
        subst (λ (v : RtValue). v.ttl < 254) e (omega arith))

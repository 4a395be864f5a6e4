-- ===== src/Route/Tests.antt =====
-- The routing table at concrete entries.
use i_tcp.Common.{ℕ, ◌≡◌, refl, true, false, some, ◌⊎◌, if◌then◌else◌, arith}
use i_tcp.Dict.{find, pair_same, Ascends, pair_ordered}
use i_tcp.Device.Table.{IsTable, NamedAt}
use i_tcp.Ip.Host.{full_mask}
use i_tcp.Route.{RtKey, RtTable, set_routing_table, look_for_route, my_arp_look_for_route}
use i_tcp.Route.Table.{IsRouted, entry, set_routing_table_cases}
use i_tcp.Route.Lookup.{route_of, look_for_route_lem, one_hop, one_ttl, my_arp_look_for_route_lem}
use i_tcp.Sample.{mac_a, ip_a, ip_b, host_a}

one_device-IsTable : IsTable host_a.curr_device
one_device-IsTable = record { ids = (refl, tt); names = (tt, tt) }

one_route-Ascends : Ascends host_a.route_table
one_route-Ascends = (tt, tt)

one_route-IsRouted : IsRouted host_a.curr_device host_a.route_table
one_route-IsRouted = record { ascends = one_route-Ascends; devices = (omega arith, tt) }

set_routing_table_cases_example :
    ((set_routing_table host_a.curr_device host_a.route_table ip_a full_mask mac_a "veth0" 5
        ≡ (false, host_a.route_table))
      × ((i : ℕ) → ¬ NamedAt host_a.curr_device i "veth0"))
    ⊎ ((i : ℕ) × (t' : RtTable) × NamedAt host_a.curr_device i "veth0"
        × (set_routing_table host_a.curr_device host_a.route_table ip_a full_mask mac_a "veth0" 5
            ≡ (true, t'))
        × IsRouted host_a.curr_device t'
        × ((j : RtKey)
            → find j t' ≡ (
                if pair_same (ip_a, full_mask) j
                then some (entry i mac_a 5)
                else find j host_a.route_table)))
set_routing_table_cases_example =
    set_routing_table_cases host_a.curr_device host_a.route_table ip_a full_mask mac_a "veth0" 5
      one_device-IsTable one_route-IsRouted

look_for_route_lem_example :
    look_for_route host_a.curr_device host_a.route_table ip_b full_mask
    ≡ route_of host_a.curr_device (find (ip_b, full_mask) host_a.route_table) ip_b
look_for_route_lem_example =
    look_for_route_lem host_a.curr_device host_a.route_table ip_b full_mask one_route-Ascends

my_arp_look_for_route_lem_example : my_arp_look_for_route host_a.route_table ip_b full_mask ≡ (
  one_hop (find (ip_b, full_mask) host_a.route_table),
  one_ttl (find (ip_b, full_mask) host_a.route_table),
)
my_arp_look_for_route_lem_example =
    my_arp_look_for_route_lem host_a.route_table ip_b full_mask one_route-Ascends

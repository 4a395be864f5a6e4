-- ===== src/Route.antt =====
-- The routing table: nextHop and opRoutingTable of include/ip.h, rtKey_t and rtValue_t of
-- include/utils.h. Each method holds the mutex rt_m from its first statement to its return, so it is
-- one step. The table and currDevice are arguments; a method that changes the table returns it.
-- A pointer into the vector currDevice is the index of the element.
pub mod Table
pub mod Lookup
mod Tests
use Prim.Native.String.{String}
use i_tcp.Common.{
  ℕ, Bool, true, false, ◌&&◌, Option, none, some, List, [], ◌∷◌, ◌++◌, map, ◌==◌, if◌then◌else◌,
  take, replicate,
}
use i_tcp.Dict.{find, insert, assign, pair_ordered}
use i_tcp.Device.{Device, get_device_id}

-- rtKey_t: destination and mask.
abbrev pub RtKey : Type 0
RtKey = ℕ × ℕ

pub record RtValue : Type 0 where
  pub device_id : ℕ  -- deviceID
  pub dst_mac : List ℕ  -- dstMAC, six bytes
  pub ttl : ℕ  -- from a header's byte, or 1024: never negative

abbrev pub RtTable : Type 0
RtTable = List (RtKey × RtValue)

pub record NextHop : Type 0 where
  pub dst_mac : List ℕ  -- dstMAC
  pub src_device : ℕ  -- srcDevice

-- The broadcast address 0xffffffff, and the six bytes of a broadcast MAC.
abbrev pub all_ones : ℕ
all_ones = 0xffff_ffff

abbrev pub bcm : List ℕ
bcm = replicate 6 0xff

-- setRoutingTable with its argument ttl. `false` is the return value -1.
unfoldable pub set_routing_table :
    List Device → RtTable → ℕ → ℕ → List ℕ → String → ℕ → Bool × RtTable
set_routing_table devices rt_table dest mask next_hop_mac device ttl =
    elim (get_device_id devices device) [
      | none ↦ (false, rt_table)
      | some device_id ↦
          let rt_key : RtKey = (dest, mask) in
          let rt_value : RtValue = record {
            device_id = device_id;
            dst_mac = take 6 next_hop_mac;
            ttl = ttl;
          } in
          elim (find rt_key rt_table) [
            | some _ ↦ (true, assign rt_key rt_value rt_table)
            | none ↦ (true, insert rt_key rt_value rt_table)
          ]
    ]

-- setRoutingTable without that argument.
unfoldable pub set_routing_table_default :
    List Device → RtTable → ℕ → ℕ → List ℕ → String → Bool × RtTable
unfolding set_routing_table
set_routing_table_default devices rt_table dest mask next_hop_mac device =
    set_routing_table devices rt_table dest mask next_hop_mac device 1024

-- The loop over all devices in lookForRoute, which occurs there twice.
unfoldable pub broadcast_hops : List Device → List NextHop
broadcast_hops devices = map (λ (d : Device). record { dst_mac = bcm; src_device = d.id }) devices

-- The loop over the table in lookForRoute.
unfoldable pub matching_hops : RtTable → ℕ → ℕ → List NextHop
matching_hops [] dest mask = []
matching_hops (((key_dest, key_mask), value) ∷ it) dest mask =
    let rest = matching_hops it dest mask in
    if dest == key_dest && mask == key_mask
    then record { dst_mac = value.dst_mac; src_device = value.device_id } ∷ rest
    else rest

-- `ret.size() != 0`
unfoldable pub or_broadcast : List Device → List NextHop → List NextHop
unfolding broadcast_hops
or_broadcast devices [] = broadcast_hops devices
or_broadcast devices (hop ∷ hops) = hop ∷ hops

unfoldable pub look_for_route : List Device → RtTable → ℕ → ℕ → List NextHop
unfolding broadcast_hops matching_hops or_broadcast
look_for_route devices rt_table dest mask =
    if dest == all_ones
    then broadcast_hops devices
    else or_broadcast devices (matching_hops rt_table dest mask)

-- The two vectors grow together.
unfoldable pub my_arp_look_for_route : RtTable → ℕ → ℕ → List NextHop × List ℕ
my_arp_look_for_route [] dest mask = ([], [])
my_arp_look_for_route (((key_dest, key_mask), value) ∷ it) dest mask =
    let (ret, ttl) = my_arp_look_for_route it dest mask in
    if dest == key_dest && mask == key_mask
    then (record { dst_mac = value.dst_mac; src_device = value.device_id } ∷ ret, value.ttl ∷ ttl)
    else (ret, ttl)

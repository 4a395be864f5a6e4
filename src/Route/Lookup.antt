-- ===== src/Route/Lookup.antt =====
-- lookForRoute and myArpLookForRoute against a lookup in the map.

use mathlib.Core.Path.{subst}
use i_tcp.Common.{
  ℕ, ◌≡◌, refl, true, Option, none, some, List, [], ◌∷◌, arith, All, map, replicate, ◌==◌,
  if◌then◌else◌, inl, inr, Bool-cases,
}
use i_tcp.Dict.{find, pair_same_iff, pair_ordered, pair_before, pair_same, Ascends, find-cases}
use i_tcp.Device.{Device}
use i_tcp.Route.{
  RtKey, RtValue, RtTable, NextHop, all_ones, broadcast_hops, matching_hops, look_for_route,
  my_arp_look_for_route,
}

abbrev pub hop_of : RtValue → NextHop
hop_of v = record { dst_mac = v.dst_mac; src_device = v.device_id }

-- An entry found or not, as the loop collects it.
abbrev pub one_hop : Option RtValue → List NextHop
one_hop none = []
one_hop (some v) = hop_of v ∷ []

abbrev pub one_ttl : Option RtValue → List ℕ
one_ttl none = []
one_ttl (some v) = v.ttl ∷ []

-- Both loops over the table compare with every entry.
walk-after :
    (t : RtTable) (dest mask : ℕ)
    → All (λ (e : RtKey × RtValue). pair_before (dest, mask) e.0 ≡ true) t
    → (matching_hops t dest mask ≡ []) × (my_arp_look_for_route t dest mask ≡ ([], []))
unfolding matching_hops my_arp_look_for_route
walk-after [] dest mask h = (refl, refl)
walk-after (((kd, km), v) ∷ t) dest mask h = ground (arith, walk-after t dest mask)

walk-find :
    (t : RtTable) (dest mask : ℕ)
    → Ascends t
    → (matching_hops t dest mask ≡ one_hop (find (dest, mask) t))
      × (my_arp_look_for_route t dest mask
          ≡ (one_hop (find (dest, mask) t), one_ttl (find (dest, mask) t)))
unfolding matching_hops my_arp_look_for_route find
walk-find [] dest mask h = (refl, refl)
walk-find (((kd, km), v) ∷ t) dest mask h = elim (Bool-cases (pair_same (kd, km) (dest, mask))) [
  | inl e ↦
      let p : ◌≡◌ {A = RtKey} (kd, km) (dest, mask) = (pair_same_iff (kd, km) (dest, mask)).0 e in
      let after : All (λ (e : RtKey × RtValue). pair_before (dest, mask) e.0 ≡ true) t =
        subst (λ (k : RtKey). All (λ (e : RtKey × RtValue). pair_before k e.0 ≡ true) t) p h.0 in
      ground (arith, e, walk-after t dest mask after)
  | inr e ↦ ground (arith, e, walk-find t dest mask h.1)
]

-- Each device, with the MAC ff:ff:ff:ff:ff:ff.
abbrev pub to_all : List Device → List NextHop
to_all ds = map (λ (d : Device). record { dst_mac = replicate 6 255; src_device = d.id }) ds

-- The hops that lookForRoute should return: every device for the broadcast address, the entry of the
-- key where there is one, and every device where there is none.
abbrev pub route_of : List Device → Option RtValue → ℕ → List NextHop
route_of ds found dest =
    if dest == all_ones then to_all ds else elim found [ none ↦ to_all ds | some v ↦ hop_of v ∷ [] ]

-- On a table whose keys ascend, as every map's do, lookForRoute returns all devices with the
-- broadcast MAC (six bytes 255) for 255.255.255.255; for any other destination the one entry that the map has under
-- exactly this destination and mask, and all devices again if it has none.
pub look_for_route_lem :
    (ds : List Device) (t : RtTable) (dest mask : ℕ)
    → Ascends t
    → look_for_route ds t dest mask ≡ route_of ds (find (dest, mask) t) dest
unfolding look_for_route broadcast_hops
look_for_route_lem ds t dest mask h = elim (find-cases (dest, mask) t) [
  | inl e ↦ ground (arith, walk-find t dest mask h, e)
  | inr (v, e) ↦ ground (arith, walk-find t dest mask h, e)
]

-- On such a table myArpLookForRoute returns the entry's hop and its TTL, each in a vector of one, and
-- two empty vectors where the key has no entry.
pub my_arp_look_for_route_lem :
    (t : RtTable) (dest mask : ℕ)
    → Ascends t
    → my_arp_look_for_route t dest mask
      ≡ (one_hop (find (dest, mask) t), one_ttl (find (dest, mask) t))
my_arp_look_for_route_lem t dest mask h = (walk-find t dest mask h).1

-- ===== src/Ip/Learning.antt =====
-- recvArp of src/myArp.cc: which announcements change the routing table, and what is sent on.
use i_tcp.Common.{
  ℕ, zero, suc, ◌≡◌, ◌<◌, ◌^◌, refl, true, false, Option, none, some, List, [], ◌∷◌, arith, All,
  get_elem?, ◌⊎◌, inl, inr, ltb, if◌then◌else◌, ◌==◌, Bool-cases,
}
use i_tcp.Dict.{find, pair_same, pair_ordered, pair_same_iff, find-cases}
use i_tcp.Device.{Device}
use i_tcp.Device.Table.{IsTable, NamedAt, get_device_id_iff}
use i_tcp.Route.{RtKey, RtValue, all_ones}
use i_tcp.Route.Table.{IsRouted, entry, set_routing_table_cases}
use i_tcp.Route.Lookup.{one_ttl, my_arp_look_for_route_lem}
use i_tcp.Packet.{l3_myarp, construct_ip_packet}
use i_tcp.Ip.Host.{Host}
use i_tcp.Ip.Arp.{less_one, own_ip, learn, refresh, note_route, recv_arp}
use i_tcp.Ip.Announce.{HasMac, on_each, send_arp_broadcast_lem}

-- The better of what a key has and a new entry: the new one if its TTL is greater.
abbrev pub better : Option RtValue → RtValue → RtValue
better none new = new
better (some old) new = if ltb old.ttl new.ttl then new else old

-- The host with `v` for the key `k`, and nothing else changed.
abbrev pub Rerouted : Host → RtKey → RtValue → Host → Type 0
Rerouted h k v h' =
    (h'.curr_device ≡ h.curr_device)
    × IsRouted h.curr_device h'.route_table
    × ((j : RtKey)
        → find j h'.route_table ≡ (if pair_same k j then some v else find j h.route_table))

-- One of the devices has this address.
abbrev pub Owns : List Device → ℕ → Type 0
Owns ds ip = (i : ℕ) × (d : Device) × (get_elem? ds i ≡ some d) × (d.ip ≡ ip)

own_ip-true : (ds : List Device) (ip : ℕ) → own_ip ds ip ≡ true → Owns ds ip
unfolding own_ip
own_ip-true [] ip h = cc h
own_ip-true (d ∷ ds) ip h = elim (Bool-cases (d.ip == ip)) [
  | inl e ↦ (0, d, refl, ground (arith, e))
  | inr e ↦ let (i, c, p, q) = own_ip-true ds ip (rw e at h) in (suc i, c, p, q)
]

own_ip-false : (ds : List Device) (ip : ℕ) → own_ip ds ip ≡ false → ¬ Owns ds ip
unfolding own_ip
own_ip-false [] ip h (i, d, p, q) = cc p
own_ip-false (c ∷ ds) ip h (zero, d, p, q) = ground (arith, h, p, q)
own_ip-false (c ∷ ds) ip h (suc i, d, p, q) = own_ip-false ds ip (ground (arith, h)) (i, d, p, q)

module _ (h : Host) (src mask id ttl : ℕ) (d : Device) (mac : List ℕ)
    (at : get_elem? h.curr_device id ≡ some d) (v : IsTable h.curr_device)
    (r : IsRouted h.curr_device h.route_table) where
  learn_lem :
      (h' : Host) × (learn h src mask id mac ttl ≡ some h')
      × Rerouted h (src, mask) (entry id mac ttl) h'
  unfolding learn
  learn_lem =
      let named : NamedAt h.curr_device id d.name = (d, at, refl) in
      let found = (get_device_id_iff h.curr_device d.name id v).0.1 named in
      elim (set_routing_table_cases h.curr_device h.route_table src mask mac d.name ttl v r) [
        | inl (_, nowhere) ↦ absurd (nowhere id named)
        | inr (i, t', other, set, routed, finds) ↦
            let same : id ≡ i =
              cc (found, (get_device_id_iff h.curr_device d.name i v).0.1 other) in
            (record h { route_table = t' }, rw (at, set), (refl, routed, rw (← same) at finds))
      ]

  kept : (old : RtValue) → find (src, mask) h.route_table ≡ some old → Rerouted h (src, mask) old h
  kept old e = (
    refl,
    r,
    λ j. elim (Bool-cases (pair_same (src, mask) j)) [
      | inl same ↦
          let k : (src, mask) ≡ j = (pair_same_iff (src, mask) j).0 same in rw (same, ← k) e
      | inr same ↦ rw same
    ],
  )

  note_route_lem :
      (h' : Host) × (note_route h src mask id mac ttl (one_ttl (find (src, mask) h.route_table))
        ≡ some h')
      × Rerouted h (src, mask) (better (find (src, mask) h.route_table) (entry id mac ttl)) h'
  unfolding note_route refresh
  note_route_lem = elim (find-cases (src, mask) h.route_table) [
    | inl e ↦ rw (e, note_route) learn_lem
    | inr (old, e) ↦ elim (Bool-cases (ltb old.ttl ttl)) [
      | inl less ↦ let (h', p, q) = learn_lem in (h', rw (e, less, p), rw (e, less) q)
      | inr less ↦ (h, rw (e, less), rw (e, less) (kept old e))
    ]
  ]

-- An announcement that arrives on a device of a host with well-formed tables and six-byte MACs: if
-- one of the host's own addresses is announced, recvArp does nothing. Otherwise it returns; the key
-- of the announced address and mask has the better by TTL of its old entry and one with this device,
-- sender and TTL; every other key and every device is as it was; the tables stay well formed; and
-- the announcement of that address, with one taken off its TTL, leaves as one broadcast frame on
-- each device, whatever the TTL is, and whether or not the table changed.
pub recv_arp_lem :
    (h : Host) (src mask id ttl b : ℕ) (d : Device) (mac : List ℕ)
    → get_elem? h.curr_device id ≡ some d
    → IsTable h.curr_device
    → All HasMac h.curr_device
    → IsRouted h.curr_device h.route_table
    → src < 2 ^ 32
    → (Owns h.curr_device src × (recv_arp h src mask id mac ttl (b ∷ []) ≡ some (h, [])))
      ⊎ (¬ Owns h.curr_device src
          × ((h' : Host) × (packet : List ℕ) × (recv_arp h src mask id mac ttl (b ∷ [])
                ≡ some (h', on_each packet h.curr_device))
              × (construct_ip_packet src all_ones l3_myarp (b ∷ []) 1 (less_one ttl) ≡ some packet)
              × Rerouted h
                  (src, mask)
                  (better (find (src, mask) h.route_table) (entry id mac ttl))
                  h'))
unfolding recv_arp
recv_arp_lem h src mask id ttl b d mac at v macs r hs =
    elim (Bool-cases (own_ip h.curr_device src)) [
      | inl e ↦ inl (own_ip-true h.curr_device src e, rw e)
      | inr e ↦
          let (h', noted, rerouted) = note_route_lem h src mask id ttl d mac at v r in
          let (packet, made, sent) =
            send_arp_broadcast_lem h' src (less_one ttl) b id d (rw rerouted.0 at) (rw rerouted.0 v)
              (rw rerouted.0 macs) hs in
          let ttls = my_arp_look_for_route_lem h.route_table src mask r.ascends in
          inr (
            own_ip-false h.curr_device src e,
            (h', packet, rw (e, ttls, noted, sent, rerouted.0), made, rerouted),
          )
    ]

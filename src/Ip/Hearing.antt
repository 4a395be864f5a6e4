-- ===== src/Ip/Hearing.antt =====
-- recvFrame of src/ip.cc on the frame of an announcement.
use i_tcp.Common.{
  ℕ, ◌≡◌, ◌<◌, ◌^◌, refl, true, false, some, List, [], ◌∷◌, arith, All, length, get_elem?, ◌==◌,
  ◌⊎◌, inl, inr, Bool-cases, none, if◌then◌else◌,
}
use i_tcp.Word.{u8}
use i_tcp.Dict.{find, pair_ordered}
use i_tcp.Device.{Device}
use i_tcp.Device.Table.{IsTable}
use i_tcp.Route.{all_ones, bcm}
use i_tcp.Route.Table.{IsRouted, entry}
use i_tcp.Packet.{l2_ipv4, l3_myarp, construct_ip_packet}
use i_tcp.Packet.Frames.{read-construct_ip_packet}
use i_tcp.Ip.Host.{Host}
use i_tcp.Ip.Arp.{Outcome, recv_frame, memcmp_eq, less_one}
use i_tcp.Ip.Recv.{dropped, received, handled}
use i_tcp.Ip.Announce.{HasMac, on_device, on_each}
use i_tcp.Ip.Learning.{Owns, Rerouted, better, recv_arp_lem}

-- recvFrame has passed the announcement on, and noted its sender as a next hop.
abbrev pub Passes : Host → ℕ → List ℕ → ℕ → ℕ → ℕ → Outcome → Type 0
Passes h i mac src b t o =
    (packet : List ℕ) × (construct_ip_packet src all_ones l3_myarp (b ∷ []) 1 (less_one t)
      ≡ some packet)
    × (o.sent ≡ on_each packet h.curr_device)
    × Rerouted h (src, 0xffff_ffff) (better (find (src, 0xffff_ffff) h.route_table) (entry i mac t))
        o.host

module _ (h : Host) (i : ℕ) (rx : Device) (at : get_elem? h.curr_device i ≡ some rx)
    (v : IsTable h.curr_device) (macs : All HasMac h.curr_device)
    (r : IsRouted h.curr_device h.route_table) (apart : rx.ip < all_ones)
    (six : length rx.mac ≡ 6) where
  -- A frame of an announcement with TTL `ttl`, sent from device `tx`: dropped if it is from this
  -- device, ignored if the address is an own one, and passed on otherwise.
  pub hear_lem :
      (tx : Device) (src ttl b b' : ℕ) (packet : List ℕ)
      → length tx.mac ≡ 6
      → src < 2 ^ 32
      → construct_ip_packet src all_ones l3_myarp (b ∷ []) 1 ttl ≡ some packet
      → let frame = (on_device packet tx).frame in
        (o : Outcome) × (recv_frame h frame (length frame) i (b' ∷ []) ≡ some o)
        × (((memcmp_eq tx.mac rx.mac ≡ true) × (o.host ≡ h) × (o.sent ≡ []))
            ⊎ ((memcmp_eq tx.mac rx.mac ≡ false)
                × ((Owns h.curr_device src × (o.host ≡ h) × (o.sent ≡ []))
                    ⊎ (¬ Owns h.curr_device src × Passes h i tx.mac src b' (u8 ttl) o))))
  hear_lem tx src ttl b b' packet ht hs made =
      let (p, hdr, made', size, back, ends, rest, _, _) =
        read-construct_ip_packet src all_ones l3_myarp (b ∷ []) ttl hs (omega arith)
          (omega arith) in
      let same : packet ≡ p = cc (made, made') in
      let frame : List ℕ = (on_device p tx).frame in
      let all : recv_frame h frame (length frame) i (b' ∷ []) ≡ (
          if memcmp_eq tx.mac rx.mac
          then some (dropped h)
          else handled h i rx tx.mac (b' ∷ []) p src all_ones l3_myarp (b ∷ []) (u8 ttl)) =
        rw (ends.0, ends.1, rest.0, rest.1) at
          (received h i rx bcm tx.mac p (b ∷ []) (b' ∷ []) l2_ipv4 hdr at six refl ht back size) in
      let foreign : (rx.ip == all_ones) ≡ false = ground arith in
      elim (Bool-cases (memcmp_eq tx.mac rx.mac)) [
        | inl own ↦ (dropped h, rw (same, all, own), inl (own, refl, refl))
        | inr other ↦ elim (recv_arp_lem h src 0xffff_ffff i (u8 ttl) b' rx tx.mac at v macs r hs) [
          | inl (owns, quiet) ↦ (
            record { ok = true; host = h; sent = []; up = none },
            rw (same, all, other, foreign, quiet),
            inr (other, inl (owns, refl, refl)),
          )
          | inr (foreign_ip, (h', next, said, made'', rerouted)) ↦ (
            record { ok = true; host = h'; sent = on_each next h.curr_device; up = none },
            rw (same, all, other, foreign, said),
            inr (other, inr (foreign_ip, (next, made'', refl, rerouted))),
          )
        ]
      ]

-- ===== src/Network/Routes.antt =====
-- The routes and the frames in flight of a network of hosts that run src/myArp.cc, one change at a time.
use mathlib.Core.Path.{subst}
use i_tcp.Common.{
  ℕ, zero, ◌≡◌, ◌<◌, refl, Option, none, some, List, [], ◌∷◌, ◌++◌, All, All-append, get_elem?,
  length, inl, inr, Bool-cases, ==_iff, ◌==◌, ltb,
}
use mathlib.Core.List.{append_assoc}
use i_tcp.Dict.{find, pair_ordered, pair_same, pair_same_iff}
use i_tcp.Device.{Device}
use i_tcp.Device.Table.{IsTable}
use i_tcp.Route.{RtKey, RtValue, all_ones}
use i_tcp.Route.Table.{IsRouted, entry}
use i_tcp.Packet.Frames.{take-length}
use i_tcp.Ip.Host.{Host, Sent}
use i_tcp.Ip.Arp.{Outcome}
use i_tcp.Ip.Announce.{on_each, Announced, IsTable-At}
use i_tcp.Ip.Learning.{better, Rerouted}
use i_tcp.Network.{Links, Flying, Network, transmit, update}
use i_tcp.Network.Sites.{
  Linked, Carries, owns, IsAnnouncement, Explained, ttl_after, on_each-IsAnnouncement,
}

module _ (link : Links) (devices : ℕ → List Device) where
  pub record IsMapped (net : Network) : Type 0 where
    pub devices' : (n : ℕ) → (net.hosts n).curr_device ≡ devices n
    pub routed : (n : ℕ) → IsRouted (devices n) (net.hosts n).route_table
    pub routes :
        (n ip mask : ℕ) (v : RtValue)
        → find (ip, mask) (net.hosts n).route_table ≡ some v
        → Explained link devices n ip v
    pub flight : All (IsAnnouncement link devices) net.flight

  transmit-append :
      (n : ℕ) (xs ys : List Sent)
      → transmit link n (xs ++ ys) ≡ transmit link n xs ++ transmit link n ys
  unfolding transmit
  transmit-append n [] ys = refl
  transmit-append n (x ∷ xs) ys = simp (transmit-append n xs ys, append_assoc)

  -- What sendArp sends.
  pub told-IsAnnouncement :
      (n b : ℕ) (ds : List Device) (sent : List Sent)
      → IsTable (devices n)
      → All (λ (d : Device). get_elem? (devices n) d.id ≡ some d) ds
      → All (λ (d : Device). d.ip < all_ones) ds
      → Announced (devices n) b ds sent
      → All (IsAnnouncement link devices) (transmit link n sent)
  unfolding transmit
  told-IsAnnouncement n b [] sent t at ips v = rw (v, transmit) tt
  told-IsAnnouncement n b (d ∷ ds) sent t (here, at) (low, ips) (packet, rest, made, e, v) =
      rw (e, transmit-append n (on_each packet (devices n)) rest)
        (All-append (IsAnnouncement link devices) (transmit link n (on_each packet (devices n))) _
          (on_each-IsAnnouncement link devices d.ip n zero 8 b packet (devices n)
            (owns (d.id, d, here, refl)) (IsTable-At (devices n) t) low refl made)
          (told-IsAnnouncement n b ds rest t at ips v))

  -- A predicate of each host, after one of them has changed.
  updated {κ} :
      (P : ℕ → Host → Type κ) (hosts : ℕ → Host) (n : ℕ) (h : Host)
      → P n h
      → ((m : ℕ) → P m (hosts m))
      → (m : ℕ) → P m (update hosts n h m)
  updated P hosts n h p all m = elim (Bool-cases (n == m)) [
    | inl e ↦ rw e (subst (λ m. P m h) ((==_iff n m).0 e) p)
    | inr e ↦ rw e (all m)
  ]

  pub with_host :
      (net : Network) (n : ℕ) (h : Host) (flight : List Flying)
      → IsMapped net
      → h.curr_device ≡ devices n
      → IsRouted (devices n) h.route_table
      → ((ip mask : ℕ) (v : RtValue)
          → find (ip, mask) h.route_table ≡ some v
          → Explained link devices n ip v)
      → All (IsAnnouncement link devices) flight
      → IsMapped (record { hosts = update net.hosts n h; flight = flight })
  with_host net n h flight v same routed routes told = record {
    devices' = updated (λ m (k : Host). k.curr_device ≡ devices m) net.hosts n h same v.devices';
    routed =
        updated (λ m (k : Host). IsRouted (devices m) k.route_table) net.hosts n h routed v.routed;
    routes =
        updated
          (λ m (k : Host).
            (ip mask : ℕ) (w : RtValue)
            → find (ip, mask) k.route_table ≡ some w
            → Explained link devices m ip w)
          net.hosts n h routes v.routes;
    flight = told;
  }

  -- The route that an announcement gives, and the better of it and an older one.
  entry-Explained :
      (n i t ip m k : ℕ) (d : Device)
      → Carries link devices ip m k
      → Linked link devices m d n i
      → length d.mac ≡ 6
      → t ≡ ttl_after k
      → Explained link devices n ip (entry i d.mac t)
  entry-Explained n i t ip m k d c l six age = record {
    m = m;
    k = k;
    d = d;
    carried = c;
    linked = l;
    mac = rw (← six) (take-length d.mac);
    age = age;
  }

  better-Explained :
      (n ip : ℕ) (new : RtValue) (old : Option RtValue)
      → Explained link devices n ip new
      → ((w : RtValue) → old ≡ some w → Explained link devices n ip w)
      → Explained link devices n ip (better old new)
  better-Explained n ip new none v before = v
  better-Explained n ip new (some w) v before = elim (Bool-cases (ltb w.ttl new.ttl)) [
    | inl less ↦ rw less v
    | inr less ↦ rw less (before w refl)
  ]

  -- The routes of a host that has heard an announcement.
  pub reroutes-Explained :
      (net : Network) (n i t : ℕ) (h : Host)
      → IsMapped net
      → (m k ip : ℕ) (d : Device) → Carries link devices ip m k
      → Linked link devices m d n i
      → length d.mac ≡ 6
      → t ≡ ttl_after k
      → Rerouted
          (net.hosts n)
          (ip, 0xffff_ffff)
          (better (find (ip, 0xffff_ffff) (net.hosts n).route_table) (entry i d.mac t))
          h
      → (ip' mask : ℕ) (w : RtValue) → find (ip', mask) h.route_table ≡ some w
      → Explained link devices n ip' w
  reroutes-Explained net n i t h v m k ip d c l six age (_, _, finds) ip' mask w found =
      elim (Bool-cases (pair_same (ip, 0xffff_ffff) (ip', mask))) [
        | inl e ↦
            let key : ◌≡◌ {A = RtKey} (ip, 0xffff_ffff) (ip', mask) =
              (pair_same_iff (ip, 0xffff_ffff) (ip', mask)).0 e in
            let new : RtValue =
              better (find (ip, 0xffff_ffff) (net.hosts n).route_table) (entry i d.mac t) in
            let same : new ≡ w = cc (rw e at (finds (ip', mask)), found) in
            subst (λ (j : ℕ × RtValue). Explained link devices n j.0 j.1) (cc (key, same))
              (better-Explained n ip (entry i d.mac t)
                (find (ip, 0xffff_ffff) (net.hosts n).route_table)
                (entry-Explained n i t ip m k d c l six age) (v.routes n ip 0xffff_ffff))
        | inr e ↦ v.routes n ip' mask w (cc (rw e at (finds (ip', mask)), found))
      ]

  -- A host that has sent and noted nothing.
  pub unchanged :
      (net : Network) (n : ℕ) (flight : List Flying) (o : Outcome)
      → IsMapped net
      → All (IsAnnouncement link devices) flight
      → o.host ≡ net.hosts n
      → o.sent ≡ []
      → IsMapped
          (record { hosts = update net.hosts n o.host; flight = flight ++ transmit link n o.sent })
  unfolding transmit
  unchanged net n flight o v told host sent =
      with_host net n o.host (flight ++ transmit link n o.sent) v (rw host (v.devices' n))
        (rw host (v.routed n)) (rw host (v.routes n))
        (All-append (IsAnnouncement link devices) flight _ told (rw sent tt))

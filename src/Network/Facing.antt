-- ===== src/Network/Facing.antt =====
-- Two neighbours that hear an announcement from one another (recvArp of src/myArp.cc).
use mathlib.Core.Path.{subst}
use i_tcp.Common.{
  ℕ, zero, suc, ◌≡◌, ◌≢◌, ◌<◌, refl, sym, ap, Bool, true, false, Option, some, List, [], ◌∷◌, ◌++◌,
  arith, All-get, get_elem?, inl, inr, ==_iff, ◌==◌,
}
use mathlib.Core.List.{Memᴰ}
use mathlib.Core.List.Memᴰ
use i_tcp.Word.{u8}
use i_tcp.Dict.{find, pair_ordered, pair_same, pair_same_iff}
use i_tcp.Device.{Device}
use i_tcp.Route.{RtKey, RtValue, all_ones}
use i_tcp.Route.Table.{entry}
use i_tcp.Packet.{l3_myarp, construct_ip_packet}
use i_tcp.Ip.Arp.{less_one}
use i_tcp.Ip.Recv.{memcmp_eq_iff}
use i_tcp.Ip.Announce.{HasMac, on_device, on_each}
use i_tcp.Ip.Learning.{Owns, better}
use i_tcp.Ip.Hearing.{hear_lem}
use i_tcp.Network.{Links, Network, Step, hears, announces, lost, transmit, spread, update}
use i_tcp.Network.Sites.{IsSite}
use i_tcp.Network.Routes.{IsMapped}

split-Memᴰ {ℓ} :
    {A : Type ℓ} {a : A} (xs : List A) → Memᴰ a xs → (pre post : List A) × (xs ≡ pre ++ (a ∷ post))
split-Memᴰ [] h = elim h [ ]
split-Memᴰ (x ∷ xs) (Memᴰ.head p) = ([], xs, ap (λ y. y ∷ xs) (sym p))
split-Memᴰ (x ∷ xs) (Memᴰ.tail h) =
    let (pre, post, e) = split-Memᴰ xs h in (x ∷ pre, post, ap (λ l. x ∷ l) e)

-- A frame that is sent on a device reaches each of its ends.
spread-Memᴰ :
    (frame : List ℕ) (n i : ℕ) (ends : List (ℕ × ℕ))
    → Memᴰ (n, i) ends
    → Memᴰ (record { host = n; device = i; frame = frame }) (spread frame ends)
unfolding spread
spread-Memᴰ frame n i [] h = elim h [ ]
spread-Memᴰ frame n i (e ∷ ends) (Memᴰ.head p) = Memᴰ.head (cc p)
spread-Memᴰ frame n i (e ∷ ends) (Memᴰ.tail h) = Memᴰ.tail (spread-Memᴰ frame n i ends h)

transmit-Memᴰ :
    (link : Links) (n m i : ℕ) (packet : List ℕ) (d : Device) (ds : List Device) (j : ℕ)
    → get_elem? ds j ≡ some d
    → Memᴰ (m, i) (link n d.id)
    → Memᴰ
        (record { host = m; device = i; frame = (on_device packet d).frame })
        (transmit link n (on_each packet ds))
unfolding transmit
transmit-Memᴰ link n m i packet d [] j at h = absurd (cc at)
transmit-Memᴰ link n m i packet d (c ∷ ds) zero at h =
    let same : d ≡ c = cc at in
    Memᴰ.append_left _ (
      subst
        (λ (e : Device).
          Memᴰ (record { host = m; device = i; frame = (on_device packet d).frame })
            (spread (on_device packet e).frame (link n e.id)))
        same (spread-Memᴰ (on_device packet d).frame m i (link n d.id) h))
transmit-Memᴰ link n m i packet d (c ∷ ds) (suc j) at h =
    Memᴰ.append_right (spread (on_device packet c).frame (link n c.id))
      (transmit-Memᴰ link n m i packet d ds j at h)

abbrev pub full_key : ℕ → RtKey
full_key ip = (ip, 0xffff_ffff)

-- The route of a host for an address, if it has one.
abbrev pub route : Network → ℕ → ℕ → Option RtValue
route net n ip = find (full_key ip) (net.hosts n).route_table

-- An announcement of `ip` is on its way from device `d` to device `r` of host `n`.
abbrev pub OnItsWay : ℕ → ℕ → ℕ → Device → Device → Network → Type 0
OnItsWay ip ttl n r d net =
    (b : ℕ) × (packet : List ℕ) × (construct_ip_packet ip all_ones l3_myarp (b ∷ []) 1 ttl
      ≡ some packet)
    × Memᴰ (record { host = n; device = r.id; frame = (on_device packet d).frame }) net.flight

module _ {link : Links} where
  -- A call of recvFrame.
  abbrev pub is_hearing : {a b : Network} → Step link a b → Bool
  is_hearing (announces _ _ _) = false
  is_hearing (hears _ _ _ _ _ _ _ _) = true
  is_hearing (lost _ _ _ _) = false

module _ (link : Links) (devices : ℕ → List Device) where
  -- Device `d` of host `m` and device `r` of host `n` are on one link, and neither host owns `ip`.
  pub record Facing (ip m n : ℕ) (d r : Device) : Type 0 where
    pub there : get_elem? (devices m) d.id ≡ some d
    pub here : get_elem? (devices n) r.id ≡ some r
    pub to : Memᴰ (n, r.id) (link m d.id)
    pub back : Memᴰ (m, d.id) (link n r.id)
    pub apart : d.mac ≢ r.mac
    pub hosts : m ≢ n
    pub foreign : ¬ Owns (devices m) ip
    pub foreign' : ¬ Owns (devices n) ip
    pub small : ip < all_ones

  pub turned : (ip m n : ℕ) (d r : Device) → Facing ip m n d r → Facing ip n m r d
  turned ip m n d r f = record {
    there = f.here;
    here = f.there;
    to = f.back;
    back = f.to;
    apart = λ e. f.apart (sym e);
    hosts = λ e. f.hosts (sym e);
    foreign = f.foreign';
    foreign' = f.foreign;
    small = f.small;
  }

  module _ (sites : (n : ℕ) → IsSite (devices n)) where
    -- Host `n` hears the announcement and passes it on to `m`.
    pub answer :
        (net : Network) (ip m n : ℕ) (d r : Device) (ttl : ℕ)
        → Facing ip m n d r
        → IsMapped link devices net
        → OnItsWay ip ttl n r d net
        → (net' : Network) × (s : Step link net net') × (is_hearing s ≡ true)
          × OnItsWay ip (less_one (u8 ttl)) m d r net'
          × (route net' n ip ≡ some (better (route net n ip) (entry r.id d.mac (u8 ttl))))
          × (route net' m ip ≡ route net m ip)
    answer net ip m n d r ttl f v (b, packet, made, way) =
        let same : (net.hosts n).curr_device ≡ devices n = v.devices' n in
        let at : get_elem? (net.hosts n).curr_device r.id ≡ some r = rw same f.here in
        let (pre, post, e) = split-Memᴰ net.flight way in
        let six = All-get HasMac (devices n) r.id (sites n).macs f.here in
        let tx_six = All-get HasMac (devices m) d.id (sites m).macs f.there in
        let low = All-get (λ (d : Device). d.ip < all_ones) (devices n) r.id (sites n).ips f.here in
        let (o, got, cases) =
          hear_lem (net.hosts n) r.id r at (rw same (sites n).table) (rw same (sites n).macs)
            (rw same (v.routed n)) low six d ip ttl b 0 packet tx_six (omega (arith, f.small))
            made in
        let self : (n == n) ≡ true = (==_iff n n).1 refl in
        let other : (n == m) ≡ false = ground (arith, f.hosts) in
        let key : pair_same (full_key ip) (full_key ip) ≡ true =
          (pair_same_iff (full_key ip) (full_key ip)).1 refl in
        elim cases [
          | inl (own, _, _) ↦ absurd (f.apart (memcmp_eq_iff d.mac r.mac own))
          | inr (_, inl (owns, _, _)) ↦ absurd (f.foreign' (rw same at owns))
          | inr (_, inr (_, (next, made', sent, rerouted))) ↦ (
            record {
              hosts = update net.hosts n o.host;
              flight = (pre ++ post) ++ transmit link n o.sent;
            },
            hears pre post _ r 0 e at got,
            refl,
            (
              0,
              next,
              made',
              Memᴰ.append_right (pre ++ post) (
                  rw (sent, same)
                    (transmit-Memᴰ link n m d.id next r (devices n) r.id f.here f.back)),
            ),
            rw self (rw key at (rerouted.2 (full_key ip))),
            rw other,
          )
        ]

-- ===== src/Network/Sites.antt =====
-- How announcements travel between hosts (src/myArp.cc): the walks along which they are passed on.
use i_tcp.Common.{
  ℕ, zero, suc, ◌+◌, ◌*◌, ◌%◌, ◌≡◌, ◌<◌, refl, some, List, [], ◌∷◌, arith, All, All-append,
  get_elem?,
}
use mathlib.Core.List.{Memᴰ}
use i_tcp.Word.{u8}
use i_tcp.Dict.{pair_ordered}
use i_tcp.Device.{Device}
use i_tcp.Device.Table.{IsTable}
use i_tcp.Route.{RtValue, all_ones}
use i_tcp.Packet.{l3_myarp, construct_ip_packet}
use i_tcp.Ip.Arp.{less_one}
use i_tcp.Ip.Announce.{HasMac, on_device, on_each}
use i_tcp.Ip.Learning.{Owns}
use i_tcp.Network.{Links, Flying, spread, transmit}

-- The devices of one host, with addresses that are no broadcast address.
pub record IsSite (ds : List Device) : Type 0 where
  pub table : IsTable ds
  pub macs : All HasMac ds
  pub ips : All (λ (d : Device). d.ip < all_ones) ds

-- The TTL of an announcement after so many hosts have passed it on: 8, counted down in a byte.
abbrev pub ttl_after : ℕ → ℕ
ttl_after k = (8 + 255 * k) % 256

pub ttl_after-suc : (k t : ℕ) → t ≡ ttl_after k → u8 (less_one t) ≡ ttl_after (suc k)
ttl_after-suc k t e = omega arith

module _ (link : Links) (devices : ℕ → List Device) where
  -- What host `m` sends on its device `d` arrives on device `i` of host `n`.
  pub record Linked (m : ℕ) (d : Device) (n i : ℕ) : Type 0 where
    pub device : get_elem? (devices m) d.id ≡ some d
    pub end : Memᴰ (n, i) (link m d.id)

  -- Host `m` announces an address, as its own or after hearing it along a walk of `k` links.
  pub data Carries (ip : ℕ) : ℕ → ℕ → Type 0 where
    owns : {m : ℕ} → Owns (devices m) ip → Carries ip m zero
    relays :
        {m k : ℕ} (d : Device) (n i : ℕ)
        → Carries ip m k
        → Linked m d n i
        → ¬ Owns (devices n) ip
        → Carries ip n (suc k)

  -- A frame with an announcement of an address that host `m` carries.
  pub record IsAnnouncement (g : Flying) : Type 0 where
    pub ip : ℕ
    pub m : ℕ
    pub k : ℕ
    pub d : Device
    pub ttl : ℕ
    pub b : ℕ
    pub packet : List ℕ
    pub carried : Carries ip m k
    pub linked : Linked m d g.host g.device
    pub small : ip < all_ones
    pub age : u8 ttl ≡ ttl_after k
    pub made : construct_ip_packet ip all_ones l3_myarp (b ∷ []) 1 ttl ≡ some packet
    pub frame : g.frame ≡ (on_device packet d).frame

  -- A route leads to a device of a neighbour that carries its address, and its TTL tells how far the
  -- announcement had come.
  pub record Explained (n ip : ℕ) (v : RtValue) : Type 0 where
    pub m : ℕ
    pub k : ℕ
    pub d : Device
    pub carried : Carries ip m k
    pub linked : Linked m d n v.device_id
    pub mac : v.dst_mac ≡ d.mac
    pub age : v.ttl ≡ ttl_after k

  spread-IsAnnouncement :
      (ip m k ttl b : ℕ) (d : Device) (packet : List ℕ) (ends : List (ℕ × ℕ))
      → Carries ip m k
      → get_elem? (devices m) d.id ≡ some d
      → ((e : ℕ × ℕ) → Memᴰ e ends → Memᴰ e (link m d.id))
      → ip < all_ones
      → u8 ttl ≡ ttl_after k
      → construct_ip_packet ip all_ones l3_myarp (b ∷ []) 1 ttl ≡ some packet
      → All IsAnnouncement (spread (on_device packet d).frame ends)
  unfolding spread
  spread-IsAnnouncement ip m k ttl b d packet [] c at in_link small age made = tt
  spread-IsAnnouncement ip m k ttl b d packet ((n, i) ∷ ends) c at in_link small age made = (
    record {
      ip = ip;
      m = m;
      k = k;
      d = d;
      ttl = ttl;
      b = b;
      packet = packet;
      carried = c;
      linked = record { device = at; end = in_link (n, i) (Memᴰ.head refl) };
      small = small;
      age = age;
      made = made;
      frame = refl;
    },
    spread-IsAnnouncement ip m k ttl b d packet ends c at (λ e h. in_link e (Memᴰ.tail h)) small age
        made,
  )

  -- The frames with which a host announces one address on all its devices.
  pub on_each-IsAnnouncement :
      (ip m k ttl b : ℕ) (packet : List ℕ) (ds : List Device)
      → Carries ip m k
      → All (λ (d : Device). get_elem? (devices m) d.id ≡ some d) ds
      → ip < all_ones
      → u8 ttl ≡ ttl_after k
      → construct_ip_packet ip all_ones l3_myarp (b ∷ []) 1 ttl ≡ some packet
      → All IsAnnouncement (transmit link m (on_each packet ds))
  unfolding transmit
  on_each-IsAnnouncement ip m k ttl b packet [] c at small age made = tt
  on_each-IsAnnouncement ip m k ttl b packet (d ∷ ds) c (here, at) small age made =
      All-append IsAnnouncement (spread (on_device packet d).frame (link m d.id)) _
        (spread-IsAnnouncement ip m k ttl b d packet (link m d.id) c here (λ e h. h) small age made)
        (on_each-IsAnnouncement ip m k ttl b packet ds c at small age made)

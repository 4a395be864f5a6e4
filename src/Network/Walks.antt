-- ===== src/Network/Walks.antt =====
-- Which routes src/myArp.cc makes in a network of hosts.
use mathlib.Core.Path.{subst}
use i_tcp.Common.{
  ℕ, suc, ◌^◌, ◌≡◌, ◌<◌, refl, ◌∙◌, some, List, [], ◌∷◌, ◌++◌, arith, All-append, All-imp,
  All-middle, All-get, get_elem?, length, inl, inr,
}
use i_tcp.Word.{u8}
use i_tcp.Dict.{find, pair_ordered}
use i_tcp.Device.{Device}
use i_tcp.Route.{RtValue, all_ones}
use i_tcp.Route.Table.{IsRouted}
use i_tcp.Ip.Host.{Sent}
use i_tcp.Ip.Arp.{Outcome, less_one, recv_frame}
use i_tcp.Ip.Announce.{HasMac, Announced, IsTable-At, send_arp_lem}
use i_tcp.Ip.Learning.{Owns}
use i_tcp.Ip.Hearing.{hear_lem}
use i_tcp.Network.{
  Links, Flying, Network, Step, announces, hears, lost, Runs, start, later, transmit, update,
}
use i_tcp.Network.Routes.{IsMapped, told-IsAnnouncement, with_host, reroutes-Explained, unchanged}
use i_tcp.Network.Sites.{
  IsSite, relays, IsAnnouncement, Explained, ttl_after-suc, on_each-IsAnnouncement,
}

module _ (link : Links) (devices : ℕ → List Device) where
  module _ (sites : (n : ℕ) → IsSite (devices n)) where
    Announced-IsMapped :
        (net : Network) (n b : ℕ) (sent : List Sent)
        → IsMapped link devices net
        → Announced (devices n) b (devices n) sent
        → IsMapped link devices (record net { flight = net.flight ++ transmit link n sent })
    Announced-IsMapped net n b sent v told = record {
      devices' = v.devices';
      routed = v.routed;
      routes = v.routes;
      flight = All-append (IsAnnouncement link devices) net.flight _ v.flight (
          told-IsAnnouncement link devices n b (devices n) sent (sites n).table
            (IsTable-At (devices n) (sites n).table) (sites n).ips told);
    }

    -- recvFrame on a frame in flight.
    heard-IsMapped :
        (net : Network) (pre post : List Flying) (g : Flying) (rx : Device) (b : ℕ) {o : Outcome}
        → IsMapped link devices net
        → net.flight ≡ pre ++ (g ∷ post)
        → get_elem? (net.hosts g.host).curr_device g.device ≡ some rx
        → recv_frame (net.hosts g.host) g.frame (length g.frame) g.device (b ∷ []) ≡ some o
        → IsMapped link devices (record {
          hosts = update net.hosts g.host o.host;
          flight = (pre ++ post) ++ transmit link g.host o.sent;
        })
    heard-IsMapped net pre post g rx b {o} v e at h =
        let n : ℕ = g.host in
        let same : (net.hosts n).curr_device ≡ devices n = v.devices' n in
        let (a, others) = All-middle (IsAnnouncement link devices) pre g post (rw e at v.flight) in
        let at' : get_elem? (devices n) g.device ≡ some rx = rw same at at in
        let six : length rx.mac ≡ 6 = All-get HasMac (devices n) g.device (sites n).macs at' in
        let low : rx.ip < all_ones =
          All-get (λ (d : Device). d.ip < all_ones) (devices n) g.device (sites n).ips at' in
        let tx_six : length a.d.mac ≡ 6 =
          All-get HasMac (devices a.m) a.d.id (sites a.m).macs a.linked.device in
        let (o', got, cases) =
          hear_lem (net.hosts n) g.device rx at (rw same (sites n).table) (rw same (sites n).macs)
            (rw same (v.routed n)) low six a.d a.ip a.ttl a.b b a.packet tx_six
            (omega (arith, a.small)) a.made in
        let eq : o' ≡ o = cc (got, h, a.frame) in
        subst
          (λ (o : Outcome). IsMapped link devices (record {
            hosts = update net.hosts n o.host;
            flight = (pre ++ post) ++ transmit link n o.sent;
          }))
          eq
          (elim cases [
            | inl (_, host, sent) ↦ unchanged link devices net n (pre ++ post) o' v others host sent
            | inr (_, inl (_, host, sent)) ↦
                unchanged link devices net n (pre ++ post) o' v others host sent
            | inr (_, inr (foreign, (packet, made, sent, rerouted))) ↦
                let strange : ¬ Owns (devices n) a.ip = rw same at foreign in
                let routed : IsRouted (devices n) o'.host.route_table = rw same at rerouted.1 in
                with_host link devices net n o'.host ((pre ++ post) ++ transmit link n o'.sent) v
                  (rerouted.0 ∙ same) routed
                  (reroutes-Explained link devices net n g.device (u8 a.ttl) o'.host v a.m a.k a.ip
                    a.d a.carried a.linked tx_six a.age rerouted)
                  (All-append (IsAnnouncement link devices) (pre ++ post) _ others (
                    rw (sent, same)
                      (on_each-IsAnnouncement link devices a.ip n (suc a.k) (less_one (u8 a.ttl)) b
                        packet (devices n) (relays a.d n g.device a.carried a.linked strange)
                        (IsTable-At (devices n) (sites n).table) a.small
                        (ttl_after-suc a.k (u8 a.ttl) a.age) made)))
          ])

    -- Every step of a network keeps it so.
    pub Step-IsMapped :
        {net net' : Network}
        → Step link net net'
        → IsMapped link devices net
        → IsMapped link devices net'
    Step-IsMapped {net} (announces n b {sent} h) v =
        let same : (net.hosts n).curr_device ≡ devices n = v.devices' n in
        let (told, p, q) =
          send_arp_lem (net.hosts n) b (rw same (sites n).table) (rw same (sites n).macs) (
            rw same (
              All-imp (λ (d : Device). d.ip < all_ones) (λ (d : Device). d.ip < 2 ^ 32)
                (λ d low. omega arith) (devices n) (sites n).ips)) in
        let eq : told ≡ sent = cc (p, h) in Announced-IsMapped net n b sent v (rw (same, eq) at q)
    Step-IsMapped {net} (hears pre post g rx b e at h) v =
        heard-IsMapped net pre post g rx b v e at h
    Step-IsMapped {net} (lost pre post g e) v = record {
      devices' = v.devices';
      routed = v.routed;
      routes = v.routes;
      flight = (All-middle (IsAnnouncement link devices) pre g post (rw e at v.flight)).1;
    }

    pub Runs-IsMapped :
        {net net' : Network}
        → Runs link net net'
        → IsMapped link devices net
        → IsMapped link devices net'
    Runs-IsMapped start v = v
    Runs-IsMapped (later r s) v = Step-IsMapped s (Runs-IsMapped r v)

-- Before anything has been sent.
abbrev pub quiet : (ℕ → List Device) → Network
quiet devices = record {
  hosts = λ n. record { curr_device = devices n; route_table = [] };
  flight = [];
}

pub quiet-IsMapped :
    (link : Links) (devices : ℕ → List Device) → IsMapped link devices (quiet devices)
unfolding find
quiet-IsMapped link devices = record {
  devices' = λ n. refl;
  routed = λ n. record { ascends = tt; devices = tt };
  routes = λ n ip mask v h. absurd (cc h);
  flight = tt;
}

-- Hosts with well-formed device tables, six-byte MACs and no broadcast address start with empty routing
-- tables, over links of any shape. Whatever they announce, and whatever frames are lost, in whatever
-- order: each route of each host leads over a link to a device of a host that owns the address or has
-- heard it along a walk of links from an owner, none of whose later hosts owns it, and its TTL is 8
-- less one for each link of that walk, counted in a byte.
pub Runs-Explained :
    (link : Links) (devices : ℕ → List Device) (n ip mask : ℕ) (v : RtValue) {net : Network}
    → ((m : ℕ) → IsSite (devices m))
    → Runs link (quiet devices) net
    → find (ip, mask) (net.hosts n).route_table ≡ some v
    → Explained link devices n ip v
Runs-Explained link devices n ip mask v sites r found =
    (Runs-IsMapped link devices sites r (quiet-IsMapped link devices)).routes n ip mask v found

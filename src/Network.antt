-- ===== src/Network.antt =====
-- Hosts that run src/myArp.cc and src/ip.cc, with the frames of their announcements between them.
-- `link` says at which devices of which hosts a frame arrives that a host sends on a device of its
-- own; it is what libpcap and the virtual interfaces make of pcap_sendpacket, the sending device
-- itself included if pcap captures what it sends.
pub mod Sites
pub mod Routes
pub mod Walks
pub mod Facing
pub mod Storm
mod Tests
use i_tcp.Common.{ℕ, ◌≡◌, Option, some, List, [], ◌∷◌, ◌++◌, ◌==◌, if◌then◌else◌, length, get_elem?}
use i_tcp.Device.{Device}
use i_tcp.Ip.Host.{Host, Sent}
use i_tcp.Ip.Arp.{Outcome, recv_frame, send_arp}

-- A frame on its way to a device of a host.
pub record Flying : Type 0 where
  pub host : ℕ
  pub device : ℕ
  pub frame : List ℕ

pub record Network : Type 0 where
  pub hosts : ℕ → Host
  pub flight : List Flying

abbrev pub Links : Type 0
Links = ℕ → ℕ → List (ℕ × ℕ)

-- One frame at each of these ends, and the frames that a host sends at the ends of their devices.
unfoldable pub spread : List ℕ → List (ℕ × ℕ) → List Flying
spread frame [] = []
spread frame ((n, i) ∷ ends) = record { host = n; device = i; frame = frame } ∷ spread frame ends

unfoldable pub transmit : Links → ℕ → List Sent → List Flying
transmit link n [] = []
transmit link n (s ∷ ss) = spread s.frame (link n s.device) ++ transmit link n ss

abbrev pub update : (ℕ → Host) → ℕ → Host → ℕ → Host
update hosts n h m = if n == m then h else hosts m

-- A host calls sendArp, or recvFrame is called with a frame that has arrived on one of its devices,
-- or a frame is lost. `b` is the byte of an announcement that the code does not set.
pub data Step (link : Links) (net : Network) : Network → Type 0 where
  announces :
      (n b : ℕ) {sent : List Sent}
      → send_arp (net.hosts n) (b ∷ []) ≡ some sent
      → Step link net (record net { flight = net.flight ++ transmit link n sent })
  hears :
      (pre post : List Flying) (g : Flying) (rx : Device) (b : ℕ) {o : Outcome}
      → net.flight ≡ pre ++ (g ∷ post)
      → get_elem? (net.hosts g.host).curr_device g.device ≡ some rx
      → recv_frame (net.hosts g.host) g.frame (length g.frame) g.device (b ∷ []) ≡ some o
      → Step link net (record {
        hosts = update net.hosts g.host o.host;
        flight = (pre ++ post) ++ transmit link g.host o.sent;
      })
  lost :
      (pre post : List Flying) (g : Flying)
      → net.flight ≡ pre ++ (g ∷ post)
      → Step link net (record net { flight = pre ++ post })

pub data Runs (link : Links) (net : Network) : Network → Type 0 where
  start : Runs link net net
  later : {m k : Network} → Runs link net m → Step link m k → Runs link net k

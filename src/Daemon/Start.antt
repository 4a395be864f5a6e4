-- ===== src/Daemon/Start.antt =====
-- main of src/daemon.cc up to the first announcement.
use mathlib.Core.List.{Memᴰ}
use i_tcp.Common.{ℕ, ◌≡◌, ◌<◌, ◌^◌, refl, true, some, List, [], ◌∷◌, All, All-imp}
use i_tcp.Queue.Holds.{Holds, new-Holds}
use i_tcp.Device.{Device, Ifaddr}
use i_tcp.Device.Table.{IsTable, NamedAt}
use i_tcp.Device.Discover.{is_wanted}
use i_tcp.Device.Addresses.{HasAddress, IsLong, add_all_first}
use i_tcp.Ip.Host.{Sent}
use i_tcp.Ip.Announce.{HasMac, Announced, send_arp_lem}
use i_tcp.Daemon.{Daemon, blank, booted, main_start, period_send_my_arp}

-- On interfaces whose addresses have the bytes that are read of them, the set-up of main returns, with
-- a well-formed table that has every AF_PACKET interface whose name begins with 'v', with empty queues
-- and no socket; and periodSendMyArp then announces the address of each device of that table, in
-- turn, with one frame on each device.
pub start_lem :
    (ifas : List Ifaddr) (b : ℕ)
    → All IsLong ifas
    → (device_num : ℕ) × (d : Daemon) × (sent : List Sent) × (main_start (some ifas)
        ≡ some (device_num, d))
      × IsTable d.host.curr_device
      × ((ifa : Ifaddr)
          → Memᴰ ifa ifas
          → is_wanted ifa ≡ true
          → (k : ℕ) × NamedAt d.host.curr_device k ifa.ifa_name)
      × (Holds d.frames [] × Holds d.kernel.un_solved_socket [] × (d.kernel.socket_set ≡ []))
      × (period_send_my_arp d (b ∷ []) ≡ some sent)
      × Announced d.host.curr_device b d.host.curr_device sent
unfolding main_start period_send_my_arp
start_lem ifas b long =
    let (device_num, ds, p, v, addresses, found) = add_all_first ifas long in
    let (sent, q, told) =
      send_arp_lem (booted ds).host b v (All-imp HasAddress HasMac (λ d a. a.0) ds addresses)
        (All-imp HasAddress (λ (d : Device). d.ip < 2 ^ 32) (λ d a. a.1) ds addresses) in
    (
      device_num,
      booted ds,
      sent,
      rw p,
      v,
      found,
      (new-Holds 1024 blank, new-Holds 2000 0, refl),
      q,
      told,
    )

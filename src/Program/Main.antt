-- ===== src/Program/Main.antt =====
-- src/main.cc, and the callbacks through which its loop and that of src/daemon.cc reach recvFrame and
-- recvIPPacket (src/packetio.cc, src/ip.cc). `none` is also a call through a null pointer.
use i_tcp.Common.{
  ◌+◌, ◌^◌, ◌<◌, [], ◌⊎◌, inl, inr, true, false, arith, ◌==◌, Bool-cases, ℕ, ◌≡◌, refl, Option,
  none, some, List, ◌>>=◌, length, get_elem?,
}
use i_tcp.Device.{Device, Ifaddr, add_all}
use i_tcp.Packet.{l2_ipv4, construct_ip_packet}
use i_tcp.Ip.Host.{Host, Sent, send_frame}
use i_tcp.Ip.Arp.{Outcome, recv_frame, send_arp, memcmp_eq}
use i_tcp.Ip.Recv.{recv_frame-send_frame}
use i_tcp.Tcp.Kernel.{Kernel, recv_ip_packet}
use i_tcp.Daemon.{call_back}

-- eth_callback and ip_callback of iTCP_kernel_t, which is a global variable: both are null at first.
pub record Callbacks : Type 0 where
  pub eth_callback : Option (Host → List ℕ → ℕ → ℕ → List ℕ → Option Outcome)
  pub ip_callback : Option (Kernel → List ℕ → Option (ℕ × Kernel))

abbrev pub unset_callbacks : Callbacks
unset_callbacks = record { eth_callback = none; ip_callback = none }

unfoldable pub set_frame_receive_callback :
    Callbacks → (Host → List ℕ → ℕ → ℕ → List ℕ → Option Outcome) → Callbacks
set_frame_receive_callback c callback = record c { eth_callback = some callback }

unfoldable pub set_ip_packet_receive_callback :
    Callbacks → (Kernel → List ℕ → Option (ℕ × Kernel)) → Callbacks
set_ip_packet_receive_callback c callback = record c { ip_callback = some callback }

-- What recvFrame does with a packet for this host.
unfoldable pub pass_up : Callbacks → Option (List ℕ) → Kernel → Option Kernel
pass_up c none k = some k
pass_up c (some packet) k = do ip_callback ← c.ip_callback; (_, k') ← ip_callback k packet; some k'

-- A frame that is given to the frame callback.
unfoldable pub eth_call :
    Callbacks → Host → Kernel → List ℕ → ℕ → ℕ → List ℕ → Option (Host × Kernel × List Sent)
unfolding pass_up
eth_call c h k packet len id arp_byte = do
  eth_callback ← c.eth_callback
  o ← eth_callback h packet len id arp_byte
  k' ← pass_up c o.up k
  some (o.host, k', o.sent)

-- main of src/main.cc up to its loop. It opens currDevice[0].
unfoldable pub test_start :
    Option (List Ifaddr) → List ℕ → Option (ℕ × Host × Callbacks × List Sent)
test_start ifaddr arp_byte = do
  (device_num, devices) ← add_all ifaddr []
  let host : Host = record { curr_device = devices; route_table = [] }
  sent ← send_arp host arp_byte
  opened ← get_elem? devices 0
  some (device_num, host, set_frame_receive_callback unset_callbacks recv_frame, sent)

-- One round of its loop, on the packet that pcap_next returns.
unfoldable pub test_round :
    Callbacks → Host → Kernel → List ℕ → List ℕ → Option (Host × Kernel × List Sent)
unfolding eth_call
test_round c h k packet arp_byte = eth_call c h k packet (length packet) 0 arp_byte

-- The callbacks that src/daemon.cc, src/sender.cc and src/recver.cc set.
abbrev pub daemon_callbacks : Callbacks
daemon_callbacks =
    set_ip_packet_receive_callback (set_frame_receive_callback unset_callbacks recv_frame)
      recv_ip_packet

-- The callbacks of src/main.cc.
abbrev pub test_callbacks : Callbacks
test_callbacks = set_frame_receive_callback unset_callbacks recv_frame

again {ℓ} :
    {A : Type ℓ} (m : Option (ℕ × Kernel)) (f : Kernel → A)
    → ((m >>= λ r. some r.1) >>= λ k. some (f k)) ≡ (m >>= λ r. some (f r.1))
again none f = refl
again (some r) f = refl

-- A packet for the address of the first device, in a frame that sendFrame has made of it on a
-- neighbour's device with another six-byte MAC. A round of a loop with the callbacks of src/daemon.cc
-- hands exactly this packet to recvIPPacket, and changes and sends nothing else; with those of
-- src/main.cc it calls a null pointer. A frame from a device with the same MAC is dropped by both.
pub test_round_lem :
    (ds : List Device) (tid : ℕ) (tx rx : Device) (h : Host) (k : Kernel)
    (destmac payload arp_byte : List ℕ) (src proto ttl : ℕ)
    → get_elem? ds tid ≡ some tx
    → get_elem? h.curr_device 0 ≡ some rx
    → length tx.mac ≡ 6
    → length rx.mac ≡ 6
    → length destmac ≡ 6
    → src < 2 ^ 32
    → rx.ip < 2 ^ 32
    → 20 + length payload < 65536
    → (packet frame : List ℕ) × (construct_ip_packet src rx.ip proto payload (length payload) ttl
        ≡ some packet)
      × (send_frame ds packet (length packet) l2_ipv4 destmac tid
          ≡ some (record { device = tid; frame = frame }))
      × (((memcmp_eq tx.mac rx.mac ≡ false)
            × (test_round daemon_callbacks h k frame arp_byte
                ≡ (recv_ip_packet k packet >>= λ r. some (h, r.1, [])))
            × (test_round test_callbacks h k frame arp_byte ≡ none))
          ⊎ ((memcmp_eq tx.mac rx.mac ≡ true)
              × (test_round daemon_callbacks h k frame arp_byte ≡ some (h, k, []))
              × (test_round test_callbacks h k frame arp_byte ≡ some (h, k, []))))
unfolding test_round set_frame_receive_callback set_ip_packet_receive_callback
test_round_lem ds tid tx rx h k destmac payload arp_byte src proto ttl at rat ht hr hd hs hdst hp =
    let (packet, frame, made, sent, got, _) =
      recv_frame-send_frame ds tid tx destmac src rx.ip proto payload ttl h 0 rx arp_byte at rat ht
        hr hd hs hdst hp in
    (
      packet,
      frame,
      made,
      sent,
      let own : (rx.ip == rx.ip) ≡ true = ground arith in
          elim (Bool-cases (memcmp_eq tx.mac rx.mac)) [
            | inl same ↦ inr (same, rw (got, same) refl, rw (got, same) refl)
            | inr other ↦ inl (
              other,
              rw (got, other, own) (again (recv_ip_packet k packet) _),
              rw (got, other, own) refl,
            )
          ],
    )

-- The callbacks of src/daemon.cc are those that its rounds use.
call_back-pass_up :
    (up : Option (List ℕ)) (k : Kernel) → call_back up k ≡ pass_up daemon_callbacks up k
unfolding call_back pass_up set_ip_packet_receive_callback
call_back-pass_up none k = refl
call_back-pass_up (some packet) k = refl

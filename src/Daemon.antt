-- ===== src/Daemon.antt =====
-- src/daemon.cc: frames from pcap_next go through a queue to recvFrame, packets from there through
-- recvIPPacket's queues to readIPPacket, and what that sends goes out as frames again. Each function
-- is one round of a thread's loop; `none` is a wait on a queue or an access outside of a buffer.
-- src/sender.cc and src/recver.cc have the same loops.
pub mod Hop
pub mod Start
mod Tests
use i_tcp.Common.{
  ℕ, ◌+◌, ◌*◌, Option, none, some, List, [], ◌∷◌, ◌++◌, ◌>>=◌, ◌>>◌, guard, leb, length,
}
use i_tcp.Queue.{BlockingQueue, push, pop, new}
use i_tcp.Device.{Device, Ifaddr, add_all}
use i_tcp.Ip.Host.{Host, Sent}
use i_tcp.Ip.Arp.{recv_frame, send_arp}
use i_tcp.Tcp.Types.{Reply}
use i_tcp.Tcp.Wire.{send_tcp_packet}
use i_tcp.Tcp.Kernel.{Kernel, recv_ip_packet, process_ip_packet}

-- recvPcap: the bytes of `packet` that are set, which are the first `len`.
pub record RecvPcap : Type 0 where
  pub packet : List ℕ
  pub len : ℕ
  pub id : ℕ

-- The parts of iTCP_kernel_t, and the queue `q` of main.
pub record Daemon : Type 0 where
  pub host : Host
  pub kernel : Kernel
  pub frames : BlockingQueue RecvPcap

-- main up to the start of its threads: the number of devices, and what the globals hold then. `blank`
-- is a recvPcap by its constructor.
abbrev pub blank : RecvPcap
blank = record { packet = []; len = 0; id = 1024 }

abbrev pub booted : List Device → Daemon
booted devices = record {
  host = record { curr_device = devices; route_table = [] };
  kernel = record { un_solved_socket = new 2000 0; socket_queue = []; socket_set = [] };
  frames = new 1024 blank;
}

unfoldable pub main_start : Option (List Ifaddr) → Option (ℕ × Daemon)
main_start ifaddr = do (device_num, devices) ← add_all ifaddr []; some (device_num, booted devices)

-- The body of periodSendMyArp's loop, which runs twice.
unfoldable pub period_send_my_arp : Daemon → List ℕ → Option (List Sent)
period_send_my_arp d arp_byte = send_arp d.host arp_byte

-- stdio's BUFSIZ on Linux, the most bytes that recvPcapPacket lets pcap keep of a packet.
abbrev pub bufsiz : ℕ
bufsiz = 8192

-- The body of recvPcapPacket's loop on a packet as it was on the wire. Its header.len bytes are copied,
-- of which pcap_next has no more than BUFSIZ, to an array of 16 KiB.
unfoldable pub recv_pcap_packet : Daemon → List ℕ → ℕ → Option Daemon
recv_pcap_packet d packet id = do
  guard (leb (length packet) bufsiz)
  guard (leb (length packet) (16 * 1024))
  q ← push d.frames (record { packet = packet; len = length packet; id = id })
  some (record d { frames = q })

-- recvIPPacket is the IP callback; recvFrame does not look at its result.
unfoldable pub call_back : Option (List ℕ) → Kernel → Option Kernel
call_back none k = some k
call_back (some packet) k = do (_, k') ← recv_ip_packet k packet; some k'

-- The body of main's loop: recvFrame is the frame callback.
unfoldable pub main_step : Daemon → List ℕ → Option (Daemon × List Sent)
unfolding call_back
main_step d arp_byte = do
  (tmp, q) ← pop d.frames
  o ← recv_frame d.host tmp.packet tmp.len tmp.id arp_byte
  k ← call_back o.up d.kernel
  some (record { host = o.host; kernel = k; frames = q }, o.sent)

-- The calls of sendTCPPacket; `unset` is what the two header fields of each packet hold.
unfoldable pub send_replies : Host → (ℕ → ℕ × ℕ) → ℕ → List Reply → Option (List Sent)
send_replies h unset i [] = some []
send_replies h unset i (r ∷ rs) = do
  sent ← send_tcp_packet h (unset i).0 (unset i).1 r
  rest ← send_replies h unset (i + 1) rs
  some (sent ++ rest)

-- The body of processIPPacket's loop with what it sends.
unfoldable pub process_step : Daemon → ℕ → (ℕ → ℕ × ℕ) → Option (Daemon × List Sent)
unfolding send_replies
process_step d tmp unset = do
  (k, out) ← process_ip_packet d.kernel tmp
  sent ← send_replies d.host unset 0 out
  some (record d { kernel = k }, sent)

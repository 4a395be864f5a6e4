-- ===== src/Daemon/Hop.antt =====
-- One packet from sendTCPPacket on one host to the socket that it is for on another, through all the
-- threads of src/daemon.cc.
use i_tcp.Common.{
  ℕ, ◌≡◌, ◌<◌, ◌≤◌, ◌^◌, refl, ◌∙◌, ap, true, false, not, ◌&&◌, some, List, [], ◌∷◌, arith, leb,
  length, All,
}
use i_tcp.Word.{is_syn, is_ack}
use i_tcp.Dict.{find, nat_ordered}
use i_tcp.Queue.{BlockingQueue}
use i_tcp.Queue.Holds.{Holds, push_lem, pop_lem}
use i_tcp.Device.{Device}
use i_tcp.Route.{RtValue}
use i_tcp.Ip.Host.{Host}
use i_tcp.Ip.Arp.{recv_frame}
use i_tcp.Tcp.Types.{MySocket, Segment, Reply, Tuple4, back}
use i_tcp.Tcp.Handler.{handle}
use i_tcp.Tcp.Wire.{send_tcp_packet, parse_packet, segment_of, Sendable, OneHop, tcp-OneHop}
use i_tcp.Tcp.Kernel.{Kernel, process_ip_packet}
use i_tcp.Tcp.Demux.{Queued, Others, recv_ip_packet_lem, process_ip_packet_lem}
use i_tcp.Daemon.{RecvPcap, Daemon, bufsiz, recv_pcap_packet, main_step}

-- Socket `fd` is the only one of the connection with these addresses, and every queue on the way to
-- it is empty, with room for one item.
pub record IsWaiting (d : Daemon) (fd : ℕ) (s : MySocket) (info : Tuple4) : Type 0 where
  pub frames : Holds d.frames []
  pub frame_room : 0 < d.frames.capacity
  pub socket : find fd d.kernel.socket_set ≡ some s
  pub address : s.address ≡ back info
  pub only : All (λ (e : ℕ × MySocket). e.1.address ≡ back info → e.0 ≡ fd) d.kernel.socket_set
  pub q : BlockingQueue (List ℕ)
  pub queue : find fd d.kernel.socket_queue ≡ some q
  pub packets : Holds q []
  pub packet_room : 0 < q.capacity
  pub noted : Holds d.kernel.un_solved_socket []
  pub note_room : 0 < d.kernel.un_solved_socket.capacity

-- A frame whose packet goes up to the IP callback, from pcap_next to the socket's queue.
captured :
    (d : Daemon) (frame packet arp_byte : List ℕ) (id fd : ℕ) (s : MySocket) (g : Segment)
    → IsWaiting d fd s g.info
    → length frame ≤ bufsiz
    → recv_frame d.host frame (length frame) id arp_byte
      ≡ some (record { ok = true; host = d.host; sent = []; up = some packet })
    → parse_packet packet ≡ some g
    → (is_syn g.flag && not (is_ack g.flag)) ≡ false
    → (d₁ d₂ : Daemon) × (recv_pcap_packet d frame id ≡ some d₁)
      × (main_step d₁ arp_byte ≡ some (d₂, []))
      × (d₂.host ≡ d.host)
      × Holds d₂.frames []
      × Queued d₂.kernel fd (packet ∷ [])
      × Holds d₂.kernel.un_solved_socket (fd ∷ [])
      × (d₂.kernel.socket_set ≡ d.kernel.socket_set)
unfolding recv_pcap_packet main_step
captured d frame packet arp_byte id fd s g v small up parsed flags =
    let p : RecvPcap = record { packet = frame; len = length frame; id = id } in
    let (q, pushed, w) = (push_lem p v.frames).1 v.frame_room in
    let (q', popped, w') = (pop_lem w).1 p [] refl in
    let (k, taken, queued, noted, sockets, _) =
      recv_ip_packet_lem d.kernel packet g fd s v.q [] [] parsed flags v.socket v.address v.only
        v.queue v.packets v.packet_room v.noted v.note_room in
    let kept : leb (length frame) bufsiz ≡ true = ground arith in
    let fits : leb (length frame) 16384 ≡ true = ground arith in
    (
      record d { frames = q },
      record { host = d.host; kernel = k; frames = q' },
      rw (kept, fits, pushed),
      rw (popped, up, taken),
      refl,
      w',
      queued,
      noted,
      sockets,
    )

-- The way of one packet of an open connection. Where the addressed host is one hop away and its
-- queues are empty, sendTCPPacket hands one frame to pcap; captured there, it passes recvFrame, and
-- nothing is sent or changed below TCP; recvIPPacket queues it for the socket of the connection; and
-- processIPPacket makes of that socket, and sends, what the state machine says of exactly the
-- segment that was sent. All other sockets stay as they are, and the queues are empty again.
pub arrive :
    (from : Host) (d : Daemon) (r : Reply) (v : RtValue) (tx rx : Device) (id size other fd tmp : ℕ)
    (arp_byte : List ℕ) (s s' : MySocket) (out : List Reply)
    → Sendable r
    → OneHop from d.host r v tx rx id
    → size < 2 ^ 16
    → other < 2 ^ 32
    → IsWaiting d fd s r.info
    → (is_syn r.flag && not (is_ack r.flag)) ≡ false
    → handle s (segment_of r) tmp ≡ some (s', out)
    → (frame : List ℕ) × (d₁ d₂ : Daemon) × (k : Kernel) × (send_tcp_packet from size other r
        ≡ some (record { device = v.device_id; frame = frame } ∷ []))
      × (recv_pcap_packet d frame id ≡ some d₁)
      × (main_step d₁ arp_byte ≡ some (d₂, []))
      × (process_ip_packet d₂.kernel tmp ≡ some (k, out))
      × (find fd k.socket_set ≡ some s')
      × Others fd d.kernel.socket_set k.socket_set
      × ((d₂.host ≡ d.host) × Holds d₂.frames [] × Queued k fd [] × Holds k.un_solved_socket [])
arrive from d r v tx rx id size other fd tmp arp_byte s s' out room hop hs ho w flags handled =
    let (frame, packet, sent, up, parsed, n) =
      tcp-OneHop from d.host r v tx rx id size other arp_byte room hop hs ho in
    let small : length frame ≤ bufsiz = omega (arith, room.room) in
    let (d₁, d₂, caught, stepped, host, frames, queued, noted, sockets) =
      captured d frame packet arp_byte id fd s (segment_of r) w small up parsed flags in
    let at : find fd d₂.kernel.socket_set ≡ some s = ap (find fd) sockets ∙ w.socket in
    let (k, processed, found, others, left, _, empty) =
      process_ip_packet_lem d₂.kernel packet (segment_of r) fd tmp s s' out [] [] noted queued
        parsed at handled in
    (
      frame,
      d₁,
      d₂,
      k,
      sent,
      caught,
      stepped,
      processed,
      found,
      λ j ne. others j ne ∙ ap (find j) sockets,
      (host, frames, left, empty),
    )

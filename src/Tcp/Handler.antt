-- ===== src/Tcp/Handler.antt =====
-- readIPPacket of src/tcp.cc from the point where the packet is taken apart: what it does to the
-- socket, and the calls of sendTCPPacket that it makes. `tmp` is the one byte that such a call sends
-- as its payload; the code allocates it and does not set it.
use i_tcp.Common.{
  ℕ, ◌+◌, Bool, true, false, not, ◌&&◌, Option, some, List, [], ◌∷◌, if◌then◌else◌, length,
}
use i_tcp.Word.{u32, is_syn, is_fin, is_ack, set_syn, set_fin, set_ack}
use i_tcp.Tcp.Types.{
  Status, closed, listen, syn_sent, syn_rcvd, estab, fin_wait1, fin_wait2, last_ack, closing,
  time_wait, MySocket, Segment, Reply, back, set_status,
}
use i_tcp.Tcp.Data.{is_server, recv_tcp_packet}

abbrev pub Step : Type 0
Step = Option (MySocket × List Reply)

-- sendTCPPacket(tmp, 1, sendinfo, ack, seq + 1, flag)
abbrev pub answer : Segment → ℕ → ℕ → Reply
answer g tmp flag = record {
  buf = tmp ∷ [];
  info = back g.info;
  seq = g.ack;
  ack = u32 (g.seq + 1);
  flag = flag;
}

unfoldable pub on_syn_ack : Status → MySocket → Segment → ℕ → Step
on_syn_ack syn_sent s g tmp =
    some (record (set_status s estab) { conn_ready = true }, answer g tmp (set_ack 0) ∷ [])
on_syn_ack _ s g tmp = some (s, [])

unfoldable pub on_syn : Status → MySocket → Segment → ℕ → Step
on_syn listen s g tmp = some (
  record (set_status s syn_rcvd) { acc_syn_ready = true },
  answer g tmp (set_ack (set_syn 0)) ∷ [],
)
on_syn syn_sent s g tmp = some (set_status s syn_rcvd, answer g tmp (set_ack 0) ∷ [])
on_syn _ s g tmp = some (s, [])

unfoldable pub on_fin : Status → MySocket → Segment → ℕ → Step
on_fin estab s g tmp =
    some (set_status s last_ack, answer g tmp (set_ack 0) ∷ answer g tmp (set_fin 0) ∷ [])
on_fin fin_wait1 s g tmp = some (set_status s closing, answer g tmp (set_ack 0) ∷ [])
on_fin fin_wait2 s g tmp = some (set_status s time_wait, answer g tmp (set_ack 0) ∷ [])
on_fin _ s g tmp = some (s, [])

unfoldable pub on_data : MySocket → Segment → ℕ → Step
on_data s g tmp = recv_tcp_packet s g.payload (length g.payload) g.info g.seq g.ack g.flag tmp

unfoldable pub on_ack : Status → MySocket → Segment → ℕ → Step
unfolding on_data
on_ack syn_rcvd s g tmp = some (record (set_status s estab) { acc_ack_ready = true }, [])
on_ack fin_wait1 s g tmp = some (set_status s fin_wait2, [])
on_ack closing s g tmp = some (set_status s time_wait, [])
on_ack last_ack s g tmp = some (set_status s closed, [])
on_ack estab s g tmp = on_data s g tmp
on_ack _ s g tmp = some (s, [])

-- A server in SYNSENT takes the packet's addresses for its own.
abbrev pub is_syn_sent : Status → Bool
is_syn_sent syn_sent = true
is_syn_sent _ = false

unfoldable pub adopt : MySocket → Segment → MySocket
adopt s g =
    if is_syn_sent s.tcb.status && is_server s.tcb.role
    then record s { address = back g.info }
    else s

-- The chain of tests on the flags.
unfoldable pub by_flags : Status → MySocket → Segment → ℕ → Step
unfolding on_syn_ack on_syn on_fin on_ack on_data
by_flags status s g tmp =
    if is_syn g.flag && is_ack g.flag
    then on_syn_ack status s g tmp
    else (if is_syn g.flag && not (is_ack g.flag)
        then on_syn status s g tmp
        else (if is_fin g.flag
            then on_fin status s g tmp
            else (if is_ack g.flag then on_ack status s g tmp else on_data s g tmp)))

unfoldable pub handle : MySocket → Segment → ℕ → Step
unfolding adopt by_flags
handle s g tmp = by_flags s.tcb.status (adopt s g) g tmp

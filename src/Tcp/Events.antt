-- ===== src/Tcp/Events.antt =====
-- What readIPPacket of src/tcp.cc does at each edge of the state diagram: the socket afterwards and
-- the packets that it sends.
use i_tcp.Common.{ℕ, ◌≡◌, refl, ◌∙◌, true, false, some, [], ◌∷◌, length}
use i_tcp.Word.{is_syn, is_fin, is_ack, set_syn, set_fin, set_ack}
use i_tcp.Tcp.Types.{
  Status, closed, listen, syn_sent, syn_rcvd, estab, fin_wait1, fin_wait2, last_ack, closing,
  time_wait, MySocket, Segment, set_status,
}
use i_tcp.Tcp.Data.{recv_data, recv_ack, recv_tcp_packet}
use i_tcp.Tcp.Handler.{handle, adopt, by_flags, answer, is_syn_sent}

module _ (s : MySocket) (g : Segment) (tmp : ℕ) where
  -- A packet with these flags at a socket in this state.
  pub handle_at : (a : Status) → s.tcb.status ≡ a → handle s g tmp ≡ by_flags a (adopt s g) g tmp
  unfolding handle
  handle_at a e = rw e

  -- Only a server in SYNSENT takes over the packet's addresses.
  pub adopt_at : (a : Status) → s.tcb.status ≡ a → is_syn_sent a ≡ false → adopt s g ≡ s
  unfolding adopt
  adopt_at a e n = rw (e, n)

  pub at_listen :
      s.tcb.status ≡ listen
      → g.flag ≡ set_syn 0
      → handle s g tmp
        ≡ some (
          record (set_status s syn_rcvd) { acc_syn_ready = true },
          answer g tmp (set_ack (set_syn 0)) ∷ [],
        )
  unfolding by_flags is_syn is_ack set_syn
  at_listen e f = handle_at listen e ∙ rw (adopt_at listen e refl, f)

  pub at_syn_sent :
      s.tcb.status ≡ syn_sent
      → g.flag ≡ set_ack (set_syn 0)
      → handle s g tmp
        ≡ some (
          record (set_status (adopt s g) estab) { conn_ready = true },
          answer g tmp (set_ack 0) ∷ [],
        )
  unfolding by_flags is_syn is_ack set_syn set_ack
  at_syn_sent e f = handle_at syn_sent e ∙ rw f

  pub at_syn_rcvd :
      s.tcb.status ≡ syn_rcvd
      → g.flag ≡ set_ack 0
      → handle s g tmp ≡ some (record (set_status s estab) { acc_ack_ready = true }, [])
  unfolding by_flags is_syn is_ack is_fin set_ack
  at_syn_rcvd e f = handle_at syn_rcvd e ∙ rw (adopt_at syn_rcvd e refl, f)

  pub at_estab_fin :
      s.tcb.status ≡ estab
      → g.flag ≡ set_fin 0
      → handle s g tmp
        ≡ some (set_status s last_ack, answer g tmp (set_ack 0) ∷ answer g tmp (set_fin 0) ∷ [])
  unfolding by_flags is_syn is_ack is_fin set_fin
  at_estab_fin e f = handle_at estab e ∙ rw (adopt_at estab e refl, f)

  pub at_fin_wait1_fin :
      s.tcb.status ≡ fin_wait1
      → g.flag ≡ set_fin 0
      → handle s g tmp ≡ some (set_status s closing, answer g tmp (set_ack 0) ∷ [])
  unfolding by_flags is_syn is_ack is_fin set_fin
  at_fin_wait1_fin e f = handle_at fin_wait1 e ∙ rw (adopt_at fin_wait1 e refl, f)

  pub at_fin_wait2_fin :
      s.tcb.status ≡ fin_wait2
      → g.flag ≡ set_fin 0
      → handle s g tmp ≡ some (set_status s time_wait, answer g tmp (set_ack 0) ∷ [])
  unfolding by_flags is_syn is_ack is_fin set_fin
  at_fin_wait2_fin e f = handle_at fin_wait2 e ∙ rw (adopt_at fin_wait2 e refl, f)

  pub at_fin_wait1_ack :
      s.tcb.status ≡ fin_wait1
      → g.flag ≡ set_ack 0
      → handle s g tmp ≡ some (set_status s fin_wait2, [])
  unfolding by_flags is_syn is_ack is_fin set_ack
  at_fin_wait1_ack e f = handle_at fin_wait1 e ∙ rw (adopt_at fin_wait1 e refl, f)

  pub at_closing_ack :
      s.tcb.status ≡ closing
      → g.flag ≡ set_ack 0
      → handle s g tmp ≡ some (set_status s time_wait, [])
  unfolding by_flags is_syn is_ack is_fin set_ack
  at_closing_ack e f = handle_at closing e ∙ rw (adopt_at closing e refl, f)

  pub at_last_ack :
      s.tcb.status ≡ last_ack → g.flag ≡ set_ack 0 → handle s g tmp ≡ some (set_status s closed, [])
  unfolding by_flags is_syn is_ack is_fin set_ack
  at_last_ack e f = handle_at last_ack e ∙ rw (adopt_at last_ack e refl, f)

  -- Data and acknowledgements of an established connection go to recvTCPPacket.
  pub at_estab_data :
      s.tcb.status ≡ estab
      → g.flag ≡ 0
      → handle s g tmp ≡ recv_data s g.payload (length g.payload) g.info g.seq g.ack tmp
  unfolding by_flags is_syn is_ack is_fin recv_tcp_packet
  at_estab_data e f = handle_at estab e ∙ rw (adopt_at estab e refl, f)

  pub at_estab_ack :
      s.tcb.status ≡ estab
      → g.flag ≡ set_ack 0
      → handle s g tmp ≡ recv_ack s (length g.payload) g.info g.seq g.ack
  unfolding by_flags is_syn is_ack is_fin recv_tcp_packet set_ack
  at_estab_ack e f = handle_at estab e ∙ rw (adopt_at estab e refl, f)

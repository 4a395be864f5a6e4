-- ===== src/Program/Talk.antt =====
-- src/sender.cc and src/recver.cc at work on one connection, with the packets between them: the steps
-- of either program and of the network, in any order. A packet that arrives is handled by
-- processIPPacket, which is Tcp/Demux's subject.
use mathlib.Core.Path.{subst}
use i_tcp.Common.{ℕ, suc, ◌<◌, ◌≤◌, ◌≡◌, sym, ◌∙◌, some, List, ◌++◌, length, arith, inl, inr, map}
use i_tcp.Dict.{find, nat_ordered}
use i_tcp.Tcp.Types.{MySocket, Segment, Reply, Buffer, buf_size}
use i_tcp.Tcp.Handler.{handle}
use i_tcp.Tcp.Wire.{segment_of}
use i_tcp.Tcp.Kernel.{Kernel}
use i_tcp.Tcp.Demux.{assign_self}
use i_tcp.Tcp.Peers.{Peers, at_server, at_client, pick, server_takes, client_takes}
use i_tcp.Tcp.Steady.{deliver-BothSteady}
use i_tcp.Socket.{put_socket}
use i_tcp.Program.{SenderAt, RecverAt, reading, sender_resume, recver_resume}
use i_tcp.Program.Backlog.{some_injective}
use i_tcp.Program.Phases.{whole, IsAt, deliver-IsAt}
use i_tcp.Program.Sender.{sender_next}
use i_tcp.Program.Recver.{recver_waits}

pub record Talk : Type 0 where
  pub sender : Kernel
  pub recver : Kernel
  pub sender_at : SenderAt
  pub recver_at : RecverAt
  pub to_server : List Segment
  pub to_client : List Segment

-- The two ends of the connection.
abbrev pub ends : Talk → MySocket → MySocket → Peers
ends c x y = record { client = x; server = y; to_server = c.to_server; to_client = c.to_client }

-- `fd` is the sender's socket, `old` and `connfd` are the receiver's two.
module _ (fd old connfd : ℕ) (file : List ℕ) where
  pub data Step (c : Talk) : Talk → Type 0 where
    reaches_recver :
        (i tmp : ℕ) {g : Segment} {rest : List Segment} {s s' : MySocket} {out : List Reply}
        → pick c.to_server i ≡ some (g, rest)
        → find connfd c.recver.socket_set ≡ some s
        → handle s g tmp ≡ some (s', out)
        → Step c (record c {
          recver = put_socket c.recver connfd s';
          to_server = rest;
          to_client = c.to_client ++ map segment_of out;
        })
    reaches_sender :
        (i tmp : ℕ) {g : Segment} {rest : List Segment} {s s' : MySocket} {out : List Reply}
        → pick c.to_client i ≡ some (g, rest)
        → find fd c.sender.socket_set ≡ some s
        → handle s g tmp ≡ some (s', out)
        → Step c (record c {
          sender = put_socket c.sender fd s';
          to_client = rest;
          to_server = c.to_server ++ map segment_of out;
        })
    sender_goes_on :
        {at : SenderAt} {k : Kernel} {out : List Reply}
        → sender_resume c.sender fd file c.sender_at ≡ some (at, k, out)
        → Step c
            (record c { sender = k; sender_at = at; to_server = c.to_server ++ map segment_of out })
    recver_goes_on :
        {at : RecverAt} {k : Kernel}
        → recver_resume c.recver old connfd c.recver_at ≡ some (at, k)
        → Step c (record c { recver = k; recver_at = at })

  -- So many steps.
  pub data Steps (c : Talk) : ℕ → Talk → Type 0 where
    start : Steps c 0 c
    later : {n : ℕ} {c' c'' : Talk} → Steps c n c' → Step c' c'' → Steps c (suc n) c''

  module _ (data' : Buffer) (fits : whole data' file ≤ buf_size) (size : length file ≡ 1001) where
    -- The receiver is at its read and has read nothing.
    abbrev pub IsGoing : ℕ → Talk → Type 0
    IsGoing t c =
        (x y : MySocket) × (find fd c.sender.socket_set ≡ some x)
        × (find connfd c.recver.socket_set ≡ some y)
        × (c.recver_at ≡ reading)
        × (y.readp ≡ 0)
        × IsAt data' file fits c.sender_at t (ends c x y)

    pub Step-IsGoing :
        (t : ℕ) {c c' : Talk} → Step c c' → IsGoing t c → (t' : ℕ) × (t' < t) × IsGoing t' c'
    Step-IsGoing t {c} (Step.reaches_recver i tmp {g} {rest} {s} {s'} {out} picked at h)
          (x, y, there, here, read, fresh, v) =
        let same : s ≡ y = cc (at, here) in
        let taken = server_takes (ends c x y) i tmp g rest s' out picked (rw same at h) in
        let steady = deliver-BothSteady (ends c x y) (at_server i tmp) taken in
        let (t', below, u) =
          deliver-IsAt data' file fits c.sender_at t (ends c x y) (at_server i tmp) taken v in
        let now = assign_self connfd s' s c.recver.socket_set at in
        (t', below, (x, s', there, now, read, steady.server.readp ∙ fresh, u))
    Step-IsGoing t {c} (Step.reaches_sender i tmp {g} {rest} {s} {s'} {out} picked at h)
          (x, y, there, here, read, fresh, v) =
        let same : s ≡ x = cc (at, there) in
        let taken = client_takes (ends c x y) i tmp g rest s' out picked (rw same at h) in
        let (t', below, u) =
          deliver-IsAt data' file fits c.sender_at t (ends c x y) (at_client i tmp) taken v in
        let now = assign_self fd s' s c.sender.socket_set at in
        (t', below, (s', y, now, here, read, fresh, u))
    Step-IsGoing t {c} (Step.sender_goes_on {at} {k} {out} h) (x, y, there, here, read, fresh, v) =
        elim (sender_next data' file fits (omega arith) c.sender_at t c.sender fd (ends c x y) there
          v) [
            | inl (nothing, _) ↦ absurd (cc (h, nothing))
            | inr (a', k', out', x', t', goes, found, below, u) ↦
                subst
                  (λ (r : SenderAt × Kernel × List Reply).
                    (t' : ℕ) × (t' < t)
                    × IsGoing t' (record c {
                      sender = r.1;
                      sender_at = r.0;
                      to_server = c.to_server ++ map segment_of r.2;
                    }))
                  (some_injective (a', k', out') (at, k, out) (sym goes ∙ h))
                  (t', below, (x', y, found, here, read, fresh, u))
          ]
    Step-IsGoing t {c} (Step.recver_goes_on h) (x, y, there, here, read, fresh, v) =
        let stays = recver_waits c.recver old connfd in absurd (cc (rw read at h, stays))

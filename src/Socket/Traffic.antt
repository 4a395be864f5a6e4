-- ===== src/Socket/Traffic.antt =====
-- All that can happen to two sockets while one writes to the other (src/socket.cc, src/tcp.cc), on a
-- network that loses, doubles and reorders packets.
use i_tcp.Common.{ℕ, ◌≡◌, some, List, [], ◌∷◌, ◌++◌}
use i_tcp.Tcp.Types.{MySocket, Segment, Reply}
use i_tcp.Tcp.Data.{my_read, my_write}
use i_tcp.Tcp.Wire.{segment_of}
use i_tcp.Tcp.Peers.{Peers, Delivery, pick, deliver}
use i_tcp.Socket.{send_first}

-- `written` and `sent` are the two halves of __wrap_write, between which packets may be handled.
pub data Step (p : Peers) : Peers → Type 0 where
  handled : (d : Delivery) {p' : Peers} → deliver p d ≡ some p' → Step p p'
  lost_up :
      (i : ℕ) (g : Segment) (rest : List Segment)
      → pick p.to_server i ≡ some (g, rest)
      → Step p (record p { to_server = rest })
  lost_down :
      (i : ℕ) (g : Segment) (rest : List Segment)
      → pick p.to_client i ≡ some (g, rest)
      → Step p (record p { to_client = rest })
  doubled_up :
      (i : ℕ) (g : Segment) (rest : List Segment)
      → pick p.to_server i ≡ some (g, rest)
      → Step p (record p { to_server = g ∷ p.to_server })
  doubled_down :
      (i : ℕ) (g : Segment) (rest : List Segment)
      → pick p.to_client i ≡ some (g, rest)
      → Step p (record p { to_client = g ∷ p.to_client })
  written :
      (bytes : List ℕ) {s : MySocket}
      → my_write p.client bytes ≡ some s
      → Step p (record p { client = s })
  sent :
      {s : MySocket} {r : Reply}
      → send_first p.client ≡ some (s, r)
      → Step p (record p { client = s; to_server = p.to_server ++ (segment_of r ∷ []) })
  read :
      (len : ℕ) {bytes : List ℕ} {s : MySocket}
      → my_read p.server len ≡ some (bytes, s)
      → Step p (record p { server = s })

pub data Runs (p : Peers) : Peers → Type 0 where
  start : Runs p p
  later : {q r : Peers} → Runs p q → Step q r → Runs p r

-- ===== src/Tcp/Untouched.antt =====
-- Two sockets that open a connection (src/tcp.cc), and their data.
use i_tcp.Common.{◌≡◌, refl, ◌∙◌, arith}
use i_tcp.Tcp.Types.{MySocket, Segment}
use i_tcp.Tcp.Handler.{adopt}
use i_tcp.Tcp.Peers.{Peers}

pub record Unwritten (s t : MySocket) : Type 0 where
  pub databuf : t.databuf ≡ s.databuf
  pub sizep : t.sizep ≡ s.sizep
  pub writep : t.writep ≡ s.writep

pub same_data : (s : MySocket) → Unwritten s s
same_data s = record { databuf = refl; sizep = refl; writep = refl }

pub adopt-Unwritten : (s : MySocket) (g : Segment) → Unwritten s (adopt s g)
unfolding adopt
adopt-Unwritten s g = ground arith

pub record Untouched (p q : Peers) : Type 0 where
  pub client : Unwritten p.client q.client
  pub server : Unwritten p.server q.server

pub Untouched-refl : (p : Peers) → Untouched p p
Untouched-refl p = record { client = same_data p.client; server = same_data p.server }

Unwritten-trans : {s t u : MySocket} → Unwritten s t → Unwritten t u → Unwritten s u
Unwritten-trans a b = record {
  databuf = b.databuf ∙ a.databuf;
  sizep = b.sizep ∙ a.sizep;
  writep = b.writep ∙ a.writep;
}

pub Untouched-trans : {p q r : Peers} → Untouched p q → Untouched q r → Untouched p r
Untouched-trans a b = record {
  client = Unwritten-trans a.client b.client;
  server = Unwritten-trans a.server b.server;
}

-- ===== src/Tcp/Peers.antt =====
-- Two sockets and the packets between them. A packet is what a call of sendTCPPacket sent (Tcp/Wire
-- shows that it arrives as such); the network may deliver the packets in flight in any order.
use mathlib.Core.Path.{subst}
use i_tcp.Common.{ℕ, zero, suc, ◌≡◌, Option, none, some, List, [], ◌∷◌, ◌++◌, map, ◌>>=◌}
use i_tcp.Tcp.Types.{MySocket, Segment, Reply}
use i_tcp.Tcp.Handler.{handle}
use i_tcp.Tcp.Wire.{segment_of}

pub record Peers : Type 0 where
  pub client : MySocket
  pub server : MySocket
  pub to_server : List Segment
  pub to_client : List Segment

-- The packet at this place in the flight is delivered; the second number is the byte that the
-- handler sends uninitialised.
pub data Delivery : Type 0 where
  at_server at_client : ℕ → ℕ → Delivery

unfoldable pub pick : List Segment → ℕ → Option (Segment × List Segment)
pick [] i = none
pick (g ∷ gs) zero = some (g, gs)
pick (g ∷ gs) (suc i) = pick gs i >>= λ r. some (r.0, g ∷ r.1)

unfoldable pub deliver : Peers → Delivery → Option Peers
deliver p (at_server i tmp) = do
  (g, rest) ← pick p.to_server i
  (server, out) ← handle p.server g tmp
  some (record p {
    server = server;
    to_server = rest;
    to_client = p.to_client ++ map segment_of out;
  })
deliver p (at_client i tmp) = do
  (g, rest) ← pick p.to_client i
  (client, out) ← handle p.client g tmp
  some (record p {
    client = client;
    to_client = rest;
    to_server = p.to_server ++ map segment_of out;
  })

unfoldable pub deliver_all : Peers → List Delivery → Option Peers
deliver_all p [] = some p
deliver_all p (d ∷ ds) = deliver p d >>= λ p'. deliver_all p' ds

-- A delivery of a packet whose handling is known.
pub server_takes :
    (p : Peers) (i tmp : ℕ) (g : Segment) (rest : List Segment) (s : MySocket) (out : List Reply)
    → pick p.to_server i ≡ some (g, rest)
    → handle p.server g tmp ≡ some (s, out)
    → deliver p (at_server i tmp)
      ≡ some
          (record p { server = s; to_server = rest; to_client = p.to_client ++ map segment_of out })
unfolding deliver
server_takes p i tmp g rest s out ts h = rw (ts, h)

pub client_takes :
    (p : Peers) (i tmp : ℕ) (g : Segment) (rest : List Segment) (c : MySocket) (out : List Reply)
    → pick p.to_client i ≡ some (g, rest)
    → handle p.client g tmp ≡ some (c, out)
    → deliver p (at_client i tmp)
      ≡ some
          (record p { client = c; to_client = rest; to_server = p.to_server ++ map segment_of out })
unfolding deliver
client_takes p i tmp g rest c out tc h = rw (tc, h)

-- A place where no packet is.
pub server_waits :
    (p : Peers) (i tmp : ℕ) → pick p.to_server i ≡ none → deliver p (at_server i tmp) ≡ none
unfolding deliver
server_waits p i tmp ts = rw ts

pub client_waits :
    (p : Peers) (i tmp : ℕ) → pick p.to_client i ≡ none → deliver p (at_client i tmp) ≡ none
unfolding deliver
client_waits p i tmp tc = rw tc

pub pick-nil : (gs : List Segment) (i : ℕ) → gs ≡ [] → pick gs i ≡ none
unfolding pick
pick-nil gs i e = rw e

pub pick-one : (gs : List Segment) (g : Segment) → gs ≡ g ∷ [] → pick gs 0 ≡ some (g, [])
unfolding pick
pick-one gs g e = rw e

pub pick-beyond : (gs : List Segment) (g : Segment) (i : ℕ) → gs ≡ g ∷ [] → pick gs (suc i) ≡ none
unfolding pick
pick-beyond gs g i e = rw e

-- The state is what a delivery that succeeded says it is.
pub lands {ℓ} :
    (p' q : Peers) (P : Peers → Type ℓ) (o : Option Peers) → o ≡ some p' → o ≡ some q → P q → P p'
lands p' q P o a b h = let e : q ≡ p' = cc (a, b) in subst P e h

pub absurd_some {ℓ} : {p : Peers} {o : Option Peers} {P : Type ℓ} → o ≡ some p → o ≡ none → P
absurd_some a b = absurd (cc (a, b))

pub pick_first :
    (gs : List Segment) (g j : Segment) → gs ≡ g ∷ j ∷ [] → pick gs 0 ≡ some (g, j ∷ [])
unfolding pick
pick_first gs g j e = rw e

pub pick_second :
    (gs : List Segment) (g j : Segment) → gs ≡ g ∷ j ∷ [] → pick gs 1 ≡ some (j, g ∷ [])
unfolding pick
pick_second gs g j e = rw e

pub pick_third :
    (gs : List Segment) (g j : Segment) (i : ℕ) → gs ≡ g ∷ j ∷ [] → pick gs (suc (suc i)) ≡ none
unfolding pick
pick_third gs g j i e = rw e

-- One packet in flight, with these flags.
abbrev pub One : List Segment → ℕ → Type 0
One gs flag = (g : Segment) × (gs ≡ g ∷ []) × (g.flag ≡ flag)

-- Somewhere a packet can be delivered.
abbrev pub Proceeds : Peers → Type 0
Proceeds p = (d : Delivery) × (p' : Peers) × (deliver p d ≡ some p')

-- ===== src/Socket/Close.antt =====
-- __wrap_close on both sides (src/socket.cc), up to its returns.
use mathlib.Core.Path.{subst}
use i_tcp.Common.{
  sym, ◌++◌, All, map, >>=-eq-some, ℕ, ◌<◌, ◌≡◌, refl, ◌∙◌, ap, true, false, some, List, [], ◌∷◌,
  length, ◌⊎◌, inl, inr,
}
use i_tcp.Word.{set_fin}
use i_tcp.Dict.{find, nat_ordered}
use i_tcp.Tcp.Types.{Buffer, MySocket, fin_wait1}
use i_tcp.Tcp.Data.{is_server}
use i_tcp.Tcp.Wire.{segment_of}
use i_tcp.Tcp.Kernel.{Kernel}
use i_tcp.Tcp.Handler.{handle}
use i_tcp.Tcp.Peers.{
  Peers, Delivery, at_server, at_client, pick, deliver, deliver_all, server_takes, Proceeds,
}
use i_tcp.Tcp.Steady.{deliver_all-BothSteady}
use i_tcp.Tcp.Teardown.{teardown}
use i_tcp.Tcp.Transfer.{Delivered}
use i_tcp.Socket.{put_socket, signal, close_start, close_set, close_mark, close_returns}

-- The two sockets when __wrap_close has sent its FIN, where nothing was in flight before; and when the
-- client has its new state.
abbrev pub fin_sent : Peers → ℕ → Peers
fin_sent p tmp = record p { to_server = segment_of (signal p.client tmp (set_fin 0)) ∷ [] }

abbrev pub marked : Peers → Peers
marked p = record p { client = close_mark p.client }

-- Only the server handles packets.
abbrev pub IsServers : Delivery → Type 0
IsServers (at_server i tmp) = Unit
IsServers (at_client i tmp) = ⊥

-- What the server handles meanwhile is the same after the client has changed its state.
deliver-marked :
    (p : Peers) (d : Delivery) {p' : Peers}
    → IsServers d
    → deliver p d ≡ some p'
    → (deliver (marked p) d ≡ some (marked p')) × (p'.client ≡ p.client)
unfolding deliver
deliver-marked p (at_client i tmp) own h = absurd own
deliver-marked p (at_server i tmp) {p'} own h =
    let ((g, rest), picked, b) = >>=-eq-some (pick p.to_server i) _ h in
    let ((s, out), handled, e) = >>=-eq-some (handle p.server g tmp) _ b in
    let same : record p {
      server = s;
      to_server = rest;
      to_client = p.to_client ++ map segment_of out;
    }
        ≡ p' =
      cc e in
    (
      server_takes (marked p) i tmp g rest s out picked handled ∙ ap (λ p. some (marked p)) same,
      ap (λ (p : Peers). p.client) (sym same),
    )

deliver_all-marked :
    (p : Peers) (es ds : List Delivery) {q p' : Peers}
    → All IsServers es
    → deliver_all p es ≡ some q
    → deliver_all (marked q) ds ≡ some p'
    → (deliver_all (marked p) (es ++ ds) ≡ some p') × (q.client ≡ p.client)
unfolding deliver_all
deliver_all-marked p [] ds {q} {p'} own h h' =
    let same : p ≡ q = cc h in
    (
      subst (λ q. deliver_all (marked q) ds ≡ some p') (sym same) h',
      ap (λ (p : Peers). p.client) (sym same),
    )
deliver_all-marked p (d ∷ es) ds (own, owns) h h' =
    let (r, a, b) = >>=-eq-some (deliver p d) (λ r. deliver_all r es) h in
    let (first, kept) = deliver-marked p d own a in
    let (rest, same) = deliver_all-marked r es ds owns b h' in (rw first rest, same ∙ kept)

-- On a connection that has delivered its stream, __wrap_close of the client sends one FIN and then sets
-- FINWAIT1, and the client handles no packet between the two; the server may handle any (`es`). After
-- any deliveries `ds` from then on, of whatever packets in whatever order, either fewer than four were
-- made in all and a further one is possible without fault, or exactly four were made; then the waits of
-- __wrap_close are over on both sides and nothing is in flight.
pub close_lem :
    (k k' : Kernel) (fd : ℕ) (data' : Buffer) (n : ℕ) (p : Peers) (tmp : ℕ) (es ds : List Delivery)
    {q p' : Peers}
    → find fd k.socket_set ≡ some p.client
    → Delivered data' n p
    → is_server p.client.tcb.role ≡ false
    → is_server p.server.tcb.role ≡ true
    → All IsServers es
    → deliver_all (fin_sent p tmp) es ≡ some q
    → find fd k'.socket_set ≡ some q.client
    → deliver_all (marked q) ds ≡ some p'
    → (close_start k fd tmp ≡ some (some (signal p.client tmp (set_fin 0))))
      × (close_set k' fd ≡ some (put_socket k' fd (marked q).client))
      × ((marked q).client.tcb.status ≡ fin_wait1)
      × (((length (es ++ ds) < 4) × Proceeds p')
          ⊎ ((length (es ++ ds) ≡ 4)
              × (close_returns p'.client ≡ true)
              × (close_returns p'.server ≡ true)
              × (p'.to_server ≡ [])
              × (p'.to_client ≡ [])))
unfolding close_start close_set close_mark
close_lem k k' fd data' n p tmp es ds {q} {p'} at v c s own before at' after =
    let (h, kept) = deliver_all-marked (fin_sent p tmp) es ds own before after in
    let start : Peers = marked (fin_sent p tmp) in
    let fin : start.client.tcb.status ≡ fin_wait1 = rw c refl in
    let role : is_server start.client.tcb.role ≡ false = rw c c in
    let steady = deliver_all-BothSteady start (es ++ ds) h in
    let c' : is_server p'.client.tcb.role ≡ false = ap is_server steady.client.tcb_role ∙ role in
    let s' : is_server p'.server.tcb.role ≡ true = ap is_server steady.server.tcb_role ∙ s in
    (
      rw (at, c),
      rw at',
      subst (λ (x : MySocket). (close_mark x).tcb.status ≡ fin_wait1) (sym kept) fin,
      elim (teardown start _ (es ++ ds) fin v.sync.server_status refl refl v.idle.1 h) [
        | inl (few, more) ↦ inl (few, more)
        | inr (four, (waiting, closed, up, down)) ↦
            inr (four, rw (c', waiting), rw (s', closed), up, down)
      ],
    )

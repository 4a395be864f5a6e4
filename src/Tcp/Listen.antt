-- ===== src/Tcp/Listen.antt =====
-- The search of recvIPPacket (src/tcp.cc) for the socket that listens for a SYN.
use i_tcp.Common.{
  ℕ, ◌≡◌, refl, ap, Bool, true, ◌&&◌, none, some, List, [], ◌∷◌, ◌++◌, ◌==◌, arith, All, Bool-cases,
  ◌⊎◌, inl, inr,
}
use i_tcp.Tcp.Types.{MySocket, Tuple4, back}
use i_tcp.Tcp.Kernel.{is_listen, find_listener}

-- The socket listens at the packet's destination.
pub record IsListener (info : Tuple4) (s : MySocket) : Type 0 where
  pub listens : is_listen s.tcb.status ≡ true
  pub ip : s.address.src_ip ≡ info.dst_ip
  pub port : s.address.src_port ≡ info.dst_port

abbrev matches : Tuple4 → MySocket → Bool
matches info s =
    is_listen s.tcb.status
    && (s.address.src_ip == info.dst_ip && s.address.src_port == info.dst_port)

matches-IsListener : (info : Tuple4) (s : MySocket) → matches info s ≡ true → IsListener info s
matches-IsListener info s h = ground (arith, h)

IsListener-matches : (info : Tuple4) (s : MySocket) → IsListener info s → matches info s ≡ true
IsListener-matches info s v = ground (arith, v.listens, v.ip, v.port)

-- The search for a SYN's socket takes the first one in the order of the descriptors that listens at
-- the packet's destination: its address becomes the packet's, turned round, and every other socket stays
-- as it is. If none listens there, the search runs to the end, where the code reads past it.
pub find_listener_cases :
    (sockets : List (ℕ × MySocket)) (info : Tuple4)
    → ((find_listener sockets info ≡ none)
        × All (λ (e : ℕ × MySocket). ¬ IsListener info e.1) sockets)
      ⊎ ((pre post : List (ℕ × MySocket)) × (fd : ℕ) × (s : MySocket) × (sockets
            ≡ pre ++ ((fd, s) ∷ post))
          × All (λ (e : ℕ × MySocket). ¬ IsListener info e.1) pre
          × IsListener info s
          × (find_listener sockets info
              ≡ some (fd, pre ++ ((fd, record s { address = back info }) ∷ post))))
unfolding find_listener
find_listener_cases [] info = inl (refl, tt)
find_listener_cases ((fd, s) ∷ it) info = elim (Bool-cases (matches info s)) [
  | inl e ↦ inr ([], it, fd, s, refl, tt, matches-IsListener info s e, rw (e, find_listener))
  | inr e ↦
      let skip : ¬ IsListener info s = λ v. cc (e, IsListener-matches info s v) in
      elim (find_listener_cases it info) [
        | inl (p, all) ↦ inl (rw (e, find_listener, p), (skip, all))
        | inr (pre, post, j, t, split, all, here, found) ↦ inr (
          (fd, s) ∷ pre,
          post,
          j,
          t,
          ap (λ l. (fd, s) ∷ l) split,
          (skip, all),
          here,
          rw (e, find_listener, found),
        )
      ]
]

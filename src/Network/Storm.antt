-- ===== src/Network/Storm.antt =====
-- Two neighbours that pass an announcement on to one another (recvArp of src/myArp.cc): whether that
-- ends, and what becomes of their routes.
use mathlib.Core.Path.{subst}
use i_tcp.Common.{
  ℕ, zero, suc, ◌≡◌, ◌<◌, refl, ◌∙◌, ap, true, Option, none, some, List, arith, inl, inr, ◌⊎◌,
}
use i_tcp.Word.{u8}
use i_tcp.Dict.{pair_ordered}
use i_tcp.Device.{Device}
use i_tcp.Route.{RtValue}
use i_tcp.Route.Table.{entry}
use i_tcp.Ip.Arp.{less_one}
use i_tcp.Ip.Learning.{better}
use i_tcp.Network.{Links, Network, Step, Runs, start, later}
use i_tcp.Network.Sites.{IsSite}
use i_tcp.Network.Facing.{route, OnItsWay, is_hearing, Facing, turned, answer}
use i_tcp.Network.Routes.{IsMapped}
use i_tcp.Network.Walks.{Step-IsMapped, Runs-IsMapped, quiet, quiet-IsMapped}

-- Host `n` routes `ip` to device `d`, and host `m` to device `r`, with these TTLs.
abbrev pub Loops : ℕ → ℕ → ℕ → Device → Device → ℕ → ℕ → Network → Type 0
Loops ip m n d r t u net =
    (route net n ip ≡ some (entry r.id d.mac t)) × (route net m ip ≡ some (entry d.id r.mac u))

-- Routes with a TTL below 254.
abbrev pub Modest : ℕ → ℕ → Network → Type 0
Modest ip n net = (v : RtValue) → route net n ip ≡ some v → v.ttl < 254

better-Modest :
    (old : Option RtValue) (new : RtValue)
    → ((v : RtValue) → old ≡ some v → v.ttl < 254)
    → new.ttl < 254
    → (better old new).ttl < 254
better-Modest none new h l = l
better-Modest (some v) new h l = ground (arith, h v refl)

better-new :
    (old : Option RtValue) (new : RtValue)
    → ((v : RtValue) → old ≡ some v → v.ttl < new.ttl)
    → better old new ≡ new
better-new none new h = refl
better-new (some v) new h = ground (arith, h v refl)

Modest-after :
    (net net' : Network) (ip n : ℕ) (d r : Device) (t : ℕ)
    → route net' n ip ≡ some (better (route net n ip) (entry r.id d.mac t))
    → Modest ip n net
    → t < 254
    → Modest ip n net'
Modest-after net net' ip n d r t e low small w h =
    let new : RtValue = better (route net n ip) (entry r.id d.mac t) in
    let same : new ≡ w = cc (e, h) in
    subst (λ (w : RtValue). w.ttl < 254) same
      (better-Modest (route net n ip) (entry r.id d.mac t) low small)

module _ {link : Links} where
  first : {a b c : Network} → Step link a b → Runs link b c → Runs link a c
  first s start = later start s
  first s (later r t) = later (first s r) t

  abbrev pub OnlyHears : {a b : Network} → Runs link a b → Type 0
  OnlyHears start = Unit
  OnlyHears (later r s) = OnlyHears r × (is_hearing s ≡ true)

  first-OnlyHears :
      {a b c : Network} (s : Step link a b) (r : Runs link b c)
      → is_hearing s ≡ true
      → OnlyHears r
      → OnlyHears (first s r)
  unfolding first
  first-OnlyHears s start h v = (tt, h)
  first-OnlyHears s (later r t) h (v, e) = (first-OnlyHears s r h v, e)

  unfoldable pub steps : {a b : Network} → Runs link a b → ℕ
  steps start = 0
  steps (later r t) = suc (steps r)

  steps-first :
      {a b c : Network} (s : Step link a b) (r : Runs link b c) → steps (first s r) ≡ suc (steps r)
  unfolding steps first
  steps-first s start = refl
  steps-first s (later r t) = ap suc (steps-first s r)

module _ (link : Links) (devices : ℕ → List Device) (sites : (n : ℕ) → IsSite (devices n)) where
  -- With a TTL of 255 both routes are taken over.
  taken_over :
      (net : Network) (ip m n : ℕ) (d r : Device) (ttl : ℕ)
      → Facing link devices ip m n d r
      → IsMapped link devices net
      → OnItsWay ip ttl n r d net
      → u8 ttl ≡ 255
      → Modest ip n net
      → Modest ip m net
      → (net' : Network) × Runs link net net' × Loops ip m n d r 255 254 net'
  taken_over net ip m n d r ttl f v w max low low' =
      let (net₁, s, _, w₁, here, there) = answer link devices sites net ip m n d r ttl f v w in
      let v₁ = Step-IsMapped link devices sites s v in
      let g = turned link devices ip m n d r f in
      let (net₂, s₂, _, w₂, here₂, there₂) =
        answer link devices sites net₁ ip n m r d (less_one (u8 ttl)) g v₁ w₁ in
      let t : u8 (less_one (u8 ttl)) ≡ 254 = rw max refl in
      let one : better (route net n ip) (entry r.id d.mac (u8 ttl)) ≡ entry r.id d.mac 255 =
        rw max (
          better-new (route net n ip) (entry r.id d.mac 255)
            (λ w h. let l : w.ttl < 254 = low w h in omega arith)) in
      let two : better (route net₁ m ip) (entry d.id r.mac (u8 (less_one (u8 ttl))))
          ≡ entry d.id r.mac 254 =
        rw (there, t) (better-new (route net m ip) (entry d.id r.mac 254) low') in
      (net₂, later (later start s) s₂, (there₂ ∙ (here ∙ ap some one), here₂ ∙ ap some two))

  -- With a smaller one they are, when it has been counted down.
  counted_down :
      (t : ℕ) (net : Network) (ip m n : ℕ) (d r : Device) (ttl : ℕ)
      → Facing link devices ip m n d r
      → IsMapped link devices net
      → OnItsWay ip ttl n r d net
      → u8 ttl ≡ t
      → t < 254
      → Modest ip n net
      → Modest ip m net
      → (net' : Network) × Runs link net net'
        × (Loops ip m n d r 255 254 net' ⊎ Loops ip n m r d 255 254 net')
  counted_down zero net ip m n d r ttl f v w e small low low' =
      let (net₁, s, _, w₁, here, there) = answer link devices sites net ip m n d r ttl f v w in
      let (net₂, rs, loop) =
        taken_over net₁ ip n m r d (less_one (u8 ttl)) (turned link devices ip m n d r f)
          (Step-IsMapped link devices sites s v) w₁ (rw e refl) (rw there low')
          (Modest-after net net₁ ip n d r (u8 ttl) here low (omega arith)) in
      (net₂, first s rs, inr loop)
  counted_down (suc t) net ip m n d r ttl f v w e small low low' =
      let (net₁, s, _, w₁, here, there) = answer link devices sites net ip m n d r ttl f v w in
      let (net₂, rs, loop) =
        counted_down t net₁ ip n m r d (less_one (u8 ttl)) (turned link devices ip m n d r f)
          (Step-IsMapped link devices sites s v) w₁ (omega (arith, e)) (omega arith) (rw there low')
          (Modest-after net net₁ ip n d r (u8 ttl) here low (omega arith)) in
      (net₂, first s rs, elim loop [ inl l ↦ inr l | inr l ↦ inl l ])

  -- So many times the announcement is passed on.
  passed_on :
      (k : ℕ) (net : Network) (ip m n : ℕ) (d r : Device) (ttl : ℕ)
      → Facing link devices ip m n d r
      → IsMapped link devices net
      → OnItsWay ip ttl n r d net
      → (net' : Network) × (rs : Runs link net net') × (steps rs ≡ k)
        × OnlyHears rs
        × (ttl' : ℕ) × (OnItsWay ip ttl' n r d net' ⊎ OnItsWay ip ttl' m d r net')
  unfolding steps
  passed_on zero net ip m n d r ttl f v w = (net, start, refl, tt, ttl, inl w)
  passed_on (suc k) net ip m n d r ttl f v w =
      let (net₁, s, is, w₁, _, _) = answer link devices sites net ip m n d r ttl f v w in
      let (net₂, rs, count, only, ttl', way) =
        passed_on k net₁ ip n m r d (less_one (u8 ttl)) (turned link devices ip m n d r f)
          (Step-IsMapped link devices sites s v) w₁ in
      (
        net₂,
        first s rs,
        steps-first s rs ∙ ap suc count,
        first-OnlyHears s rs is only,
        ttl',
        elim way [ inl l ↦ inr l | inr l ↦ inl l ],
      )

-- Two hosts of a network that own not `ip` and have a link between them, with an announcement of `ip` on
-- its way over that link: for every number there are as many calls of recvFrame, and nothing else in
-- between, after which an announcement of `ip` is still on its way over the link.
pub endless :
    (link : Links) (devices : ℕ → List Device) (ip m n : ℕ) (d r : Device) (ttl k : ℕ)
    {net : Network}
    → ((i : ℕ) → IsSite (devices i))
    → Facing link devices ip m n d r
    → Runs link (quiet devices) net
    → OnItsWay ip ttl n r d net
    → (net' : Network) × (rs : Runs link net net') × (steps rs ≡ k)
      × OnlyHears rs
      × (ttl' : ℕ) × (OnItsWay ip ttl' n r d net' ⊎ OnItsWay ip ttl' m d r net')
endless link devices ip m n d r ttl k {net} sites f runs w =
    passed_on link devices sites k net ip m n d r ttl f
      (Runs-IsMapped link devices sites runs (quiet-IsMapped link devices)) w

-- On the same link, when the TTL of the announcement and of both hosts' routes for `ip` is below 254:
-- there are steps after which each of the two hosts has the other one as its next hop for `ip`, whatever
-- routes they had before, with the TTL 255 at one and 254 at the other.
pub routing_loop :
    (link : Links) (devices : ℕ → List Device) (ip m n : ℕ) (d r : Device) (ttl : ℕ) {net : Network}
    → ((i : ℕ) → IsSite (devices i))
    → Facing link devices ip m n d r
    → Runs link (quiet devices) net
    → OnItsWay ip ttl n r d net
    → u8 ttl < 254
    → Modest ip n net
    → Modest ip m net
    → (net' : Network) × Runs link net net'
      × (Loops ip m n d r 255 254 net' ⊎ Loops ip n m r d 255 254 net')
routing_loop link devices ip m n d r ttl {net} sites f runs w small low low' =
    counted_down link devices sites (u8 ttl) net ip m n d r ttl f
      (Runs-IsMapped link devices sites runs (quiet-IsMapped link devices)) w refl small low low'

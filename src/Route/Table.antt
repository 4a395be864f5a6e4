-- ===== src/Route/Table.antt =====
-- The invariant of the routing table, and what setRoutingTable does to it.
use Prim.Native.String.{String}
use i_tcp.Common.{
  ℕ, zero, suc, ◌<◌, ◌≡◌, true, false, none, some, List, [], ◌∷◌, arith, All, length, if◌then◌else◌,
  ◌⊎◌, inl, inr, take, Option-cases,
}
use i_tcp.Dict.{
  find, pair_same, insert, assign, pair_ordered, Ascends, find-insert, find-assign, insert-Ascends,
  assign-Ascends, find-cases,
}
use i_tcp.Device.{Device, get_device_id}
use i_tcp.Device.Table.{IsTable, NamedAt, get_device_id_iff}
use i_tcp.Route.{RtKey, RtValue, RtTable, set_routing_table}

-- Keys ascend, and every entry's device is in the device table.
pub record IsRouted (ds : List Device) (t : RtTable) : Type 0 where
  pub ascends : Ascends t
  pub devices : All (λ (e : RtKey × RtValue). e.1.device_id < length ds) t

-- The entry that setRoutingTable writes.
abbrev pub entry : ℕ → List ℕ → ℕ → RtValue
entry i mac ttl = record { device_id = i; dst_mac = take 6 mac; ttl = ttl }

get-lt : (ds : List Device) (i : ℕ) (name : String) → NamedAt ds i name → i < length ds
get-lt [] i name (d, p, q) = cc
get-lt (c ∷ ds) zero name u = omega arith
get-lt (c ∷ ds) (suc i) name u = omega (arith, get-lt ds i name u)

insert-devices :
    (n : ℕ) (k : RtKey) (v : RtValue) (t : RtTable)
    → v.device_id < n
    → All (λ (e : RtKey × RtValue). e.1.device_id < n) t
    → All (λ (e : RtKey × RtValue). e.1.device_id < n) (insert k v t)
unfolding insert
insert-devices n k v [] p h = (p, tt)
insert-devices n k v ((j, w) ∷ t) p h = ground (arith, insert-devices n k v t p)

assign-devices :
    (n : ℕ) (k : RtKey) (v : RtValue) (t : RtTable)
    → v.device_id < n
    → All (λ (e : RtKey × RtValue). e.1.device_id < n) t
    → All (λ (e : RtKey × RtValue). e.1.device_id < n) (assign k v t)
unfolding assign
assign-devices n k v [] p h = tt
assign-devices n k v ((j, w) ∷ t) p h = ground (arith, assign-devices n k v t p)

-- Whether the key is there already or not, afterwards it has the new entry and every other key what
-- it had, and the table is well formed.
abbrev Written : List Device → RtTable → RtKey → RtValue → RtTable → Type 0
Written ds t k v t' =
    IsRouted ds t' × ((j : RtKey) → find j t' ≡ (if pair_same k j then some v else find j t))

insert-Written :
    (ds : List Device) (t : RtTable) (k : RtKey) (v : RtValue)
    → IsRouted ds t
    → v.device_id < length ds
    → find k t ≡ none
    → Written ds t k v (insert k v t)
insert-Written ds t k v r p h = (
  record {
    ascends = insert-Ascends k v t r.ascends;
    devices = insert-devices (length ds) k v t p r.devices;
  },
  λ j. find-insert j k v t h,
)

assign-Written :
    (ds : List Device) (t : RtTable) (k : RtKey) (v w : RtValue)
    → IsRouted ds t
    → v.device_id < length ds
    → find k t ≡ some w
    → Written ds t k v (assign k v t)
assign-Written ds t k v w r p h = (
  record {
    ascends = assign-Ascends k v t r.ascends;
    devices = assign-devices (length ds) k v t p r.devices;
  },
  λ j. find-assign j k v w t h,
)

-- On well-formed tables setRoutingTable returns -1 and changes nothing if no device has the name;
-- otherwise it returns 0, the table stays well formed, the key has the entry made of that device's
-- index, the six bytes of the MAC and the TTL, and every other key has what it had.
pub set_routing_table_cases :
    (ds : List Device) (t : RtTable) (dest mask : ℕ) (mac : List ℕ) (device : String) (ttl : ℕ)
    → IsTable ds
    → IsRouted ds t
    → ((set_routing_table ds t dest mask mac device ttl ≡ (false, t))
        × ((i : ℕ) → ¬ NamedAt ds i device))
      ⊎ ((i : ℕ) × (t' : RtTable) × NamedAt ds i device
          × (set_routing_table ds t dest mask mac device ttl ≡ (true, t'))
          × IsRouted ds t'
          × ((j : RtKey)
              → find j t'
                ≡ (if pair_same (dest, mask) j then some (entry i mac ttl) else find j t)))
unfolding set_routing_table
set_routing_table_cases ds t dest mask mac device ttl v r =
    elim (Option-cases (get_device_id ds device)) [
      | inl e ↦
          inl (rw (e, set_routing_table), λ i u. cc (e, (get_device_id_iff ds device i v).0.1 u))
      | inr (i, e) ↦
          let named = (get_device_id_iff ds device i v).0.0 e in
          let p = get-lt ds i device named in
          elim (find-cases (dest, mask) t) [
            | inl h ↦
                let (routed, found) = insert-Written ds t (dest, mask) (entry i mac ttl) r p h in
                inr (
                  i,
                  insert (dest, mask) (entry i mac ttl) t,
                  named,
                  rw (e, set_routing_table) (rw (h, set_routing_table)),
                  routed,
                  found,
                )
            | inr (w, h) ↦
                let (routed, found) = assign-Written ds t (dest, mask) (entry i mac ttl) w r p h in
                inr (
                  i,
                  assign (dest, mask) (entry i mac ttl) t,
                  named,
                  rw (e, set_routing_table) (rw (h, set_routing_table)),
                  routed,
                  found,
                )
          ]
    ]

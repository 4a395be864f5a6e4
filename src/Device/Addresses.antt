-- ===== src/Device/Addresses.antt =====
-- addAll of src/device.cc: the addresses of the devices that it leaves in the table.
use Prim.Native.String.{String}
use mathlib.Core.Path.{subst}
use i_tcp.Common.{
  ℕ, ◌+◌, ◌^◌, ◌≤◌, ◌<◌, ◌≡◌, refl, true, ◌&&◌, some, none, List, [], ◌∷◌, map, ◌==◌, arith, All,
  All-append, All-imp, length, length-take, if◌then◌else◌, inl, inr, Bool-cases, Option-cases,
  >>=-eq-some,
}
use i_tcp.Word.{ptr2ip_t, ip_t2ptr}
use i_tcp.Device.{
  Device, Ifaddr, new_device, select, add_device_kernel, add_ip, add_all_devices, add_all_ips,
  add_all, all_readable, take_ip, af_inet, af_packet, first_char,
}
use mathlib.Core.List.{Memᴰ}
use i_tcp.Device.Table.{IsTable, NamedAt}
use i_tcp.Device.Discover.{
  is_wanted, readdressed, add_all_devices-IsTable, add_all_devices-found, add_all_ips-IsTable,
  add_all_ips-returns,
}

-- The widths of Mac and IP.
abbrev pub HasAddress : Device → Type 0
HasAddress d = (length d.mac ≡ 6) × (d.ip < 2 ^ 32)

-- An interface with an address, of as many bytes as addAll reads of it.
abbrev pub IsLong : Ifaddr → Type 0
IsLong ifa =
    (ifa.has_addr ≡ true) × ((if ifa.sa_family == af_packet then 6 else 4) ≤ length ifa.addr)

IsLong-readable : (ifas : List Ifaddr) → All IsLong ifas → all_readable ifas ≡ true
unfolding all_readable
IsLong-readable [] h = refl
IsLong-readable (ifa ∷ ifas) ((has, long), hs) = ground (arith, has, long, IsLong-readable ifas hs)

add_device_kernel-HasAddress :
    (ds : List Device) (name : String) (mac : List ℕ)
    → 6 ≤ length mac
    → All HasAddress ds
    → All HasAddress (add_device_kernel ds name mac).1
unfolding add_device_kernel new_device
add_device_kernel-HasAddress ds name mac h v = elim (Option-cases (select name ds 0 none)) [
  | inl e ↦
      rw (e, add_device_kernel)
        (All-append HasAddress ds _ v ((omega (arith, length-take 6 mac), omega arith), tt))
  | inr (i, e) ↦ rw (e, add_device_kernel) v
]

add_all_devices-HasAddress :
    (ifas : List Ifaddr) (ret : ℕ) (ds : List Device)
    → All IsLong ifas
    → All HasAddress ds
    → All HasAddress (add_all_devices ifas ret ds).1
unfolding add_all_devices
add_all_devices-HasAddress [] ret ds h v = v
add_all_devices-HasAddress (ifa ∷ ifas) ret ds (h, hs) v = elim (Bool-cases (is_wanted ifa)) [
  | inl e ↦
      let long : 6 ≤ length ifa.addr = ground (arith, e, h.1) in
      rw (e, add_all_devices)
        (add_all_devices-HasAddress ifas (ret + 1) _ hs
          (add_device_kernel-HasAddress ds ifa.ifa_name ifa.addr long v))
  | inr e ↦ rw (e, add_all_devices) (add_all_devices-HasAddress ifas ret ds hs v)
]

readdressed-HasAddress :
    (name : String) (ip : ℕ) (ds : List Device)
    → ip < 2 ^ 32
    → All HasAddress ds
    → All HasAddress (map (readdressed name ip) ds)
readdressed-HasAddress name ip [] h v = tt
readdressed-HasAddress name ip (d ∷ ds) h ((m, i), vs) =
    ((ground (arith, m), ground (arith, i, h)), readdressed-HasAddress name ip ds h vs)

ip_t2ptr-lt : (tmp : ℕ) {ip : ℕ} → ptr2ip_t (ip_t2ptr tmp) ≡ some ip → ip < 2 ^ 32
unfolding ptr2ip_t ip_t2ptr
ip_t2ptr-lt tmp h = ground arith

take_ip-HasAddress :
    (ifa : Ifaddr) (ds : List Device) {ds' : List Device}
    → take_ip ifa ds ≡ some ds'
    → All HasAddress ds
    → All HasAddress ds'
unfolding take_ip add_ip
take_ip-HasAddress ifa ds {ds'} h v =
    elim (Bool-cases (ifa.sa_family == af_inet && first_char ifa.ifa_name == b'v')) [
      | inl e ↦
          let (tmp, p, q) = >>=-eq-some (ptr2ip_t ifa.addr) _ (rw e at h) in
          let (ip, r, t) = >>=-eq-some (ptr2ip_t (ip_t2ptr tmp)) _ q in
          let same : map (readdressed ifa.ifa_name ip) ds ≡ ds' = cc t in
          subst (All HasAddress) same
            (readdressed-HasAddress ifa.ifa_name ip ds (ip_t2ptr-lt tmp r) v)
      | inr e ↦ let same : ds ≡ ds' = ground (arith, h, e) in subst (All HasAddress) same v
    ]

add_all_ips-HasAddress :
    (ifas : List Ifaddr) (ds : List Device) {ds' : List Device}
    → add_all_ips ifas ds ≡ some ds'
    → All HasAddress ds
    → All HasAddress ds'
unfolding add_all_ips
add_all_ips-HasAddress [] ds {ds'} h v =
    let same : ds ≡ ds' = ground (arith, h) in subst (All HasAddress) same v
add_all_ips-HasAddress (ifa ∷ ifas) ds h v =
    let (ds₁, p, q) = >>=-eq-some (take_ip ifa ds) _ h in
    add_all_ips-HasAddress ifas ds₁ q (take_ip-HasAddress ifa ds p v)

IsLong-four : (ifas : List Ifaddr) → All IsLong ifas → All (λ (a : Ifaddr). 4 ≤ length a.addr) ifas
IsLong-four ifas h = All-imp IsLong _ (λ a v. ground (arith, v.1)) ifas h

-- addAll at the start of a program.
pub add_all_first :
    (ifas : List Ifaddr)
    → All IsLong ifas
    → (ret : ℕ) × (ds : List Device) × (add_all (some ifas) [] ≡ some (ret, ds))
      × IsTable ds
      × All HasAddress ds
      × ((ifa : Ifaddr)
          → Memᴰ ifa ifas
          → is_wanted ifa ≡ true
          → (k : ℕ) × NamedAt ds k ifa.ifa_name)
unfolding add_all
add_all_first ifas long =
    let empty : IsTable [] = record { ids = tt; names = tt } in
    let added : List Device = (add_all_devices ifas 0 []).1 in
    let (ds, p) = add_all_ips-returns ifas added (IsLong-four ifas long) in
    let (v₁, _) = add_all_devices-IsTable ifas 0 [] empty in
    let (v₂, k₂) = add_all_ips-IsTable ifas added p v₁ in
    (
      (add_all_devices ifas 0 []).0,
      ds,
      rw (IsLong-readable ifas long, p),
      v₂,
      add_all_ips-HasAddress ifas added p (add_all_devices-HasAddress ifas 0 [] long tt),
      λ ifa m w.
          let (k, found) = add_all_devices-found ifas 0 [] ifa empty m w in
          (k, k₂ k ifa.ifa_name found),
    )

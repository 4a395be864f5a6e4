-- ===== src/Device/Discover.antt =====
-- addAll of src/device.cc: which devices are in the table after it, and what the table keeps.
use Prim.Native.String.{String}
use text.Mathlib.Text.{◌==◌ as str_eq}
use i_tcp.Common.{
  ℕ, zero, suc, ◌+◌, ◌≡◌, refl, ◌∙◌, Bool, true, false, ◌&&◌, some, List, [], ◌∷◌, ◌++◌, arith, All,
  map, ◌==◌, length, ◌≤◌, if◌then◌else◌, inl, inr, Bool-cases, >>=-eq-some,
}
use mathlib.Core.Path.{subst}
use mathlib.Core.List.{Memᴰ}
use i_tcp.Word.{ptr2ip_t, ip_t2ptr}
use i_tcp.Device.{
  Device, Ifaddr, add_device_kernel, add_ip, add_all_devices, add_all_ips, take_ip, af_inet,
  af_packet, first_char, new_device,
}
use i_tcp.Device.Table.{IsTable, IdsFrom, Distinct, NamedAt, add_device_kernel_lem}

module _ (name : String) (ip : ℕ) where
  -- What addIP does to one device.
  abbrev pub readdressed : Device → Device
  readdressed d = if str_eq name d.name then record d { ip = ip } else d

  name-readdressed : (d : Device) → (readdressed d).name ≡ d.name
  name-readdressed d = ground arith

  id-readdressed : (d : Device) → (readdressed d).id ≡ d.id
  id-readdressed d = ground arith

  IdsFrom-readdressed : (n : ℕ) (ds : List Device) → IdsFrom n ds → IdsFrom n (map readdressed ds)
  IdsFrom-readdressed n [] h = tt
  IdsFrom-readdressed n (d ∷ ds) h = (id-readdressed d ∙ h.0, IdsFrom-readdressed (n + 1) ds h.1)

  Apart-readdressed :
      (c : Device) (ds : List Device)
      → All (λ (e : Device). str_eq c.name e.name ≡ false) ds
      → All (λ (e : Device). str_eq (readdressed c).name e.name ≡ false) (map readdressed ds)
  Apart-readdressed c [] h = tt
  Apart-readdressed c (d ∷ ds) h =
      (rw (name-readdressed c, name-readdressed d) h.0, Apart-readdressed c ds h.1)

  Distinct-readdressed : (ds : List Device) → Distinct ds → Distinct (map readdressed ds)
  Distinct-readdressed [] h = tt
  Distinct-readdressed (d ∷ ds) h = (Apart-readdressed d ds h.0, Distinct-readdressed ds h.1)

  NamedAt-readdressed :
      (ds : List Device) (i : ℕ) (other : String)
      → NamedAt ds i other
      → NamedAt (map readdressed ds) i other
  NamedAt-readdressed [] i other (d, p, q) = cc
  NamedAt-readdressed (c ∷ ds) zero other (d, p, q) =
      (readdressed c, refl, name-readdressed c ∙ ground (arith, p, q))
  NamedAt-readdressed (c ∷ ds) (suc i) other v = NamedAt-readdressed ds i other v

abbrev Keeps : List Device → List Device → Type 0
Keeps ds ds' = (i : ℕ) (name : String) → NamedAt ds i name → NamedAt ds' i name

add_ip-IsTable :
    (ds : List Device) (name : String) (bytes : List ℕ) {ds' : List Device}
    → add_ip ds name bytes ≡ some ds'
    → IsTable ds
    → IsTable ds' × Keeps ds ds'
unfolding add_ip
add_ip-IsTable ds name bytes {ds'} h v =
    let (ip, p, q) = >>=-eq-some (ptr2ip_t bytes) _ h in
    let e : map (readdressed name ip) ds ≡ ds' = ground (arith, q) in
    subst (λ t. IsTable t × Keeps ds t) e
      (
        record {
          ids = IdsFrom-readdressed name ip 0 ds v.ids;
          names = Distinct-readdressed name ip ds v.names;
        },
        λ i other u. NamedAt-readdressed name ip ds i other u,
      )

NamedAt-append :
    (ds : List Device) (d : Device) (i : ℕ) (name : String)
    → NamedAt ds i name
    → NamedAt (ds ++ (d ∷ [])) i name
NamedAt-append [] d i name (c, p, q) = cc
NamedAt-append (b ∷ ds) d zero name u = u
NamedAt-append (b ∷ ds) d (suc i) name u = NamedAt-append ds d i name u

add_device_kernel-Keeps :
    (ds : List Device) (name : String) (mac : List ℕ)
    → IsTable ds
    → Keeps ds (add_device_kernel ds name mac).1
add_device_kernel-Keeps ds name mac v i other u = elim ((add_device_kernel_lem ds name mac v).2) [
  | inl e ↦ rw e u
  | inr e ↦ rw e (NamedAt-append ds (new_device (length ds) mac name) i other u)
]

-- The two tests by which addAll takes an entry.
abbrev pub is_wanted : Ifaddr → Bool
is_wanted ifa = ifa.sa_family == af_packet && first_char ifa.ifa_name == b'v'

pub add_all_devices-IsTable :
    (ifas : List Ifaddr) (ret : ℕ) (ds : List Device)
    → IsTable ds
    → IsTable (add_all_devices ifas ret ds).1 × Keeps ds (add_all_devices ifas ret ds).1
unfolding add_all_devices
add_all_devices-IsTable [] ret ds v = (v, λ i name u. u)
add_all_devices-IsTable (ifa ∷ ifas) ret ds v = elim (Bool-cases (is_wanted ifa)) [
  | inl e ↦
      let (v', rest) =
        add_all_devices-IsTable ifas (ret + 1) (add_device_kernel ds ifa.ifa_name ifa.addr).1
          (add_device_kernel_lem ds ifa.ifa_name ifa.addr v).0 in
      rw (e, add_all_devices)
        (v', λ i name u. rest i name (add_device_kernel-Keeps ds ifa.ifa_name ifa.addr v i name u))
  | inr e ↦ rw (e, add_all_devices) (add_all_devices-IsTable ifas ret ds v)
]

pub add_all_devices-found :
    (ifas : List Ifaddr) (ret : ℕ) (ds : List Device) (ifa : Ifaddr)
    → IsTable ds
    → Memᴰ ifa ifas
    → is_wanted ifa ≡ true
    → (i : ℕ) × NamedAt (add_all_devices ifas ret ds).1 i ifa.ifa_name
unfolding add_all_devices
add_all_devices-found [] ret ds ifa v m w = elim m [ ]
add_all_devices-found (a ∷ ifas) ret ds ifa v (Memᴰ.head p) w =
    let t = add_device_kernel_lem ds a.ifa_name a.addr v in
    let e : is_wanted a ≡ true = rw (← p) w in
    rw (e, add_all_devices, p)
      (
        (add_device_kernel ds a.ifa_name a.addr).0,
        (add_all_devices-IsTable ifas (ret + 1) (add_device_kernel ds a.ifa_name a.addr).1 t.0).1
            (add_device_kernel ds a.ifa_name a.addr).0 a.ifa_name t.1,
      )
add_all_devices-found (a ∷ ifas) ret ds ifa v (Memᴰ.tail m) w = elim (Bool-cases (is_wanted a)) [
  | inl e ↦
      rw (e, add_all_devices)
        (add_all_devices-found ifas (ret + 1) _ ifa (add_device_kernel_lem ds a.ifa_name a.addr v).0
          m w)
  | inr e ↦ rw (e, add_all_devices) (add_all_devices-found ifas ret ds ifa v m w)
]

take_ip-IsTable :
    (ifa : Ifaddr) (ds : List Device) {ds' : List Device}
    → take_ip ifa ds ≡ some ds'
    → IsTable ds
    → IsTable ds' × Keeps ds ds'
unfolding take_ip
take_ip-IsTable ifa ds {ds'} h v =
    elim (Bool-cases (ifa.sa_family == af_inet && first_char ifa.ifa_name == b'v')) [
      | inl e ↦
          let (tmp, p, q) = >>=-eq-some (ptr2ip_t ifa.addr) _ (rw e at h) in
          add_ip-IsTable ds ifa.ifa_name (ip_t2ptr tmp) q v
      | inr e ↦
          let same : ds ≡ ds' = ground (arith, h, e) in
          subst (λ t. IsTable t × Keeps ds t) same (v, λ i name u. u)
    ]

pub add_all_ips-IsTable :
    (ifas : List Ifaddr) (ds : List Device) {ds' : List Device}
    → add_all_ips ifas ds ≡ some ds'
    → IsTable ds
    → IsTable ds' × Keeps ds ds'
unfolding add_all_ips
add_all_ips-IsTable [] ds {ds'} h v =
    let same : ds ≡ ds' = ground (arith, h) in
    subst (λ t. IsTable t × Keeps ds t) same (v, λ i name u. u)
add_all_ips-IsTable (ifa ∷ ifas) ds {ds'} h v =
    let (ds₁, p, q) = >>=-eq-some (take_ip ifa ds) _ h in
    let (v₁, k₁) = take_ip-IsTable ifa ds p v in
    let (v₂, k₂) = add_all_ips-IsTable ifas ds₁ q v₁ in (v₂, λ i name u. k₂ i name (k₁ i name u))

ptr2ip_t-returns : (bytes : List ℕ) → 4 ≤ length bytes → (ip : ℕ) × (ptr2ip_t bytes ≡ some ip)
unfolding ptr2ip_t
ptr2ip_t-returns [] h = let no : ⊥ = omega (arith, h) in absurd no
ptr2ip_t-returns (a ∷ []) h = let no : ⊥ = omega (arith, h) in absurd no
ptr2ip_t-returns (a ∷ b ∷ []) h = let no : ⊥ = omega (arith, h) in absurd no
ptr2ip_t-returns (a ∷ b ∷ c ∷ []) h = let no : ⊥ = omega (arith, h) in absurd no
ptr2ip_t-returns (a ∷ b ∷ c ∷ d ∷ rest) h = (_, refl)

add_ip-returns :
    (ds : List Device) (name : String) (bytes : List ℕ)
    → 4 ≤ length bytes
    → (ds' : List Device) × (add_ip ds name bytes ≡ some ds')
unfolding add_ip
add_ip-returns ds name bytes h =
    let (ip, p) = ptr2ip_t-returns bytes h in (map (readdressed name ip) ds, rw p)

take_ip-returns :
    (ifa : Ifaddr) (ds : List Device)
    → 4 ≤ length ifa.addr
    → (ds' : List Device) × (take_ip ifa ds ≡ some ds')
unfolding take_ip ip_t2ptr
take_ip-returns ifa ds h =
    elim (Bool-cases (ifa.sa_family == af_inet && first_char ifa.ifa_name == b'v')) [
      | inl e ↦
          let (tmp, p) = ptr2ip_t-returns ifa.addr h in
          let (ds', q) = add_ip-returns ds ifa.ifa_name (ip_t2ptr tmp) (omega arith) in
          (ds', rw (e, p) q)
      | inr e ↦ (ds, rw e)
    ]

pub add_all_ips-returns :
    (ifas : List Ifaddr) (ds : List Device)
    → All (λ (a : Ifaddr). 4 ≤ length a.addr) ifas
    → (ds' : List Device) × (add_all_ips ifas ds ≡ some ds')
unfolding add_all_ips
add_all_ips-returns [] ds h = (ds, refl)
add_all_ips-returns (ifa ∷ ifas) ds h =
    let (ds₁, p) = take_ip-returns ifa ds h.0 in
    let (ds₂, q) = add_all_ips-returns ifas ds₁ h.1 in (ds₂, rw (p, q))

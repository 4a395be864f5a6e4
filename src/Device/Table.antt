-- ===== src/Device/Table.antt =====
-- The table of addDeviceKernel and its lookups (include/core.h): names are distinct, and a device's
-- ID is its index.
use Prim.Native.String.{String}
use text.Mathlib.Text.{◌==◌ as str_eq}
use text.Mathlib.TextEquality.{eq_iff}
use mathlib.Core.Path.{subst}
use i_tcp.Common.{
  ℕ, zero, suc, ◌+◌, ◌≡◌, refl, ◌∙◌, sym, ap, true, false, Option, none, some, List, [], ◌∷◌, ◌++◌,
  arith, All, get_elem?, length, if◌then◌else◌, ◌⊎◌, ◌↔◌, inl, inr, Bool-cases, Option-cases,
}
use i_tcp.Device.{
  Device, new_device, select, add_device_kernel, last_id, find_device_kernel, get_device_id,
}

abbrev pub IdsFrom : ℕ → List Device → Type 0
IdsFrom n [] = Unit
IdsFrom n (d ∷ ds) = (d.id ≡ n) × IdsFrom (n + 1) ds

abbrev pub Distinct : List Device → Type 0
Distinct [] = Unit
Distinct (d ∷ ds) = All (λ (e : Device). str_eq d.name e.name ≡ false) ds × Distinct ds

-- The invariant of currDevice.
pub record IsTable (ds : List Device) : Type 0 where
  pub ids : IdsFrom 0 ds
  pub names : Distinct ds

abbrev Absent : String → List Device → Type 0
Absent name = All (λ (d : Device). str_eq name d.name ≡ false)

str_eq_sym : (a b : String) → str_eq a b ≡ false → str_eq b a ≡ false
str_eq_sym a b h = ground (arith, eq_iff a b, eq_iff b a)

-- A selected index stays unless a later device has the name; nothing is selected exactly where no
-- device has it.
select_kept :
    (name : String) (ds : List Device) (n i : ℕ) → (j : ℕ) × (select name ds n (some i) ≡ some j)
unfolding select
select_kept name [] n i = (i, refl)
select_kept name (d ∷ ds) n i = elim (Bool-cases (str_eq name d.name)) [
  | inl e ↦ rw e (select_kept name ds (n + 1) n)
  | inr e ↦ rw e (select_kept name ds (n + 1) i)
]

select-none :
    (name : String) (ds : List Device) (n : ℕ) → select name ds n none ≡ none → Absent name ds
unfolding select
select-none name [] n h = tt
select-none name (d ∷ ds) n h =
    ground (arith, select-none name ds (n + 1), (select_kept name ds (n + 1) n).1)

abbrev Hit : String → List Device → ℕ → ℕ → Type 0
Hit name ds n i =
    (k : ℕ) × (i ≡ n + k) × (d : Device) × (get_elem? ds k ≡ some d) × (str_eq name d.name ≡ true)

Hit-next :
    (name : String) (c : Device) (ds : List Device) (n i : ℕ)
    → Hit name ds (n + 1) i
    → Hit name (c ∷ ds) n i
Hit-next name c ds n i (k, p, d, q, r) = (suc k, omega arith, d, q, r)

Hit-first :
    (name : String) (d : Device) (ds : List Device) (n i : ℕ)
    → str_eq name d.name ≡ true
    → some n ≡ some i
    → Hit name (d ∷ ds) n i
Hit-first name d ds n i e p = (0, ground arith, d, refl, e)

-- What is selected is what came in, or a device with this name.
select-Hit :
    (name : String) (ds : List Device) (n i : ℕ) (r : Option ℕ)
    → select name ds n r ≡ some i
    → (r ≡ some i) ⊎ Hit name ds n i
unfolding select
select-Hit name [] n i r h = inl h
select-Hit name (d ∷ ds) n i r h = elim (Bool-cases (str_eq name d.name)) [
  | inl e ↦ elim (select-Hit name ds (n + 1) i (some n) (rw e at h)) [
    | inl p ↦ inr (Hit-first name d ds n i e p)
    | inr p ↦ inr (Hit-next name d ds n i p)
  ]
  | inr e ↦ elim (select-Hit name ds (n + 1) i r (rw e at h)) [
    | inl p ↦ inl p
    | inr p ↦ inr (Hit-next name d ds n i p)
  ]
]

IdsFrom-append :
    (n m : ℕ) (ds : List Device) (d : Device)
    → IdsFrom n ds
    → m ≡ n + length ds
    → d.id ≡ m
    → IdsFrom n (ds ++ (d ∷ []))
IdsFrom-append n m [] d h e p = (omega arith, tt)
IdsFrom-append n m (c ∷ ds) d h e p = (h.0, IdsFrom-append (n + 1) m ds d h.1 (omega arith) p)

All-append :
    (P : Device → Type 0) (ds : List Device) (d : Device) → All P ds → P d → All P (ds ++ (d ∷ []))
All-append P [] d h p = (p, tt)
All-append P (c ∷ ds) d h p = (h.0, All-append P ds d h.1 p)

Distinct-append :
    (ds : List Device) (d : Device) → Distinct ds → Absent d.name ds → Distinct (ds ++ (d ∷ []))
Distinct-append [] d h k = (tt, tt)
Distinct-append (c ∷ ds) d h k = (
  All-append (λ (e : Device). str_eq c.name e.name ≡ false) ds d h.0 (str_eq_sym d.name c.name k.0),
  Distinct-append ds d h.1 k.1,
)

last_id-select :
    (name : String) (ds : List Device) (n : ℕ) (r : Option ℕ)
    → IdsFrom n ds
    → last_id name ds r ≡ select name ds n r
unfolding last_id select
last_id-select name [] n r h = refl
last_id-select name (d ∷ ds) n r h =
    rw h.0 (last_id-select name ds (n + 1) (if str_eq name d.name then some n else r) h.1)

get_elem?-append :
    (ds : List Device) (d : Device) (n : ℕ) → n ≡ length ds → get_elem? (ds ++ (d ∷ [])) n ≡ some d
get_elem?-append [] d n h = rw h
get_elem?-append (c ∷ ds) d n h = rw h (get_elem?-append ds d (length ds) refl)

select-Absent :
    (name : String) (ds : List Device) (n : ℕ) (r : Option ℕ)
    → Absent name ds
    → select name ds n r ≡ r
unfolding select
select-Absent name [] n r h = refl
select-Absent name (d ∷ ds) n r h = rw h.0 (select-Absent name ds (n + 1) r h.1)

-- A device at index `i` has this name.
abbrev pub NamedAt : List Device → ℕ → String → Type 0
NamedAt ds i name = (d : Device) × (get_elem? ds i ≡ some d) × (d.name ≡ name)

selected :
    (name : String) (ds : List Device) (i : ℕ) → select name ds 0 none ≡ some i → NamedAt ds i name
selected name ds i e = elim (select-Hit name ds 0 i none e) [
  | inl p ↦ cc
  | inr (k, p, d, q, r) ↦
      let same : k ≡ i = omega arith in
      (d, subst (λ j. get_elem? ds j ≡ some d) same q, sym ((eq_iff name d.name).0 r))
]

-- addDeviceKernel keeps the table's names distinct and its IDs equal to the indices. It returns the
-- index of a device with the asked name, and leaves the table as it was if there was one; otherwise
-- it appends the device_t made from that index, address and name.
pub add_device_kernel_lem :
    (ds : List Device) (name : String) (mac : List ℕ)
    → IsTable ds
    → let (i, ds') = add_device_kernel ds name mac in
      IsTable ds'
      × NamedAt ds' i name
      × ((ds' ≡ ds) ⊎ (ds' ≡ ds ++ (new_device (length ds) mac name ∷ [])))
unfolding add_device_kernel
add_device_kernel_lem ds name mac v = elim (Option-cases (select name ds 0 none)) [
  | inl e ↦
      rw (e, add_device_kernel)
        (
          record {
            ids =
                IdsFrom-append 0 (length ds) ds (new_device (length ds) mac name) v.ids
                  (omega arith) refl;
            names =
                Distinct-append ds (new_device (length ds) mac name) v.names
                  (select-none name ds 0 e);
          },
          (
            new_device (length ds) mac name,
            get_elem?-append ds (new_device (length ds) mac name) (length ds) refl,
            refl,
          ),
          inr refl,
        )
  | inr (i, e) ↦ rw (e, add_device_kernel) (v, selected name ds i e, inl refl)
]

Absent-get : (name : String) (ds : List Device) (i : ℕ) → Absent name ds → NamedAt ds i name → ⊥
Absent-get name [] i h (d, p, q) = cc
Absent-get name (c ∷ ds) zero h (d, p, q) = ground (arith, eq_iff name c.name)
Absent-get name (c ∷ ds) (suc i) h v = Absent-get name ds i h.1 v

clash :
    (name : String) (c : Device) (ds : List Device) (j : ℕ)
    → Absent c.name ds
    → NamedAt (c ∷ ds) 0 name
    → NamedAt ds j name
    → ⊥
clash name c ds j h (d, p, q) v =
    let e : c.name ≡ name = ground (arith, p, q) in
    Absent-get name ds j (subst (λ n. Absent n ds) e h) v

Distinct-index :
    (name : String) (ds : List Device) (i j : ℕ)
    → Distinct ds
    → NamedAt ds i name
    → NamedAt ds j name
    → i ≡ j
Distinct-index name [] i j h (d, p, q) v = cc
Distinct-index name (c ∷ ds) zero zero h u v = refl
Distinct-index name (c ∷ ds) zero (suc j) h u v = absurd (clash name c ds j h.0 u v)
Distinct-index name (c ∷ ds) (suc i) zero h u v = absurd (clash name c ds i h.0 v u)
Distinct-index name (c ∷ ds) (suc i) (suc j) h u v = ap suc (Distinct-index name ds i j h.1 u v)

-- In a table with distinct names, getDeviceID (of the kernel and of ip.cc) and findDeviceKernel
-- return `i` exactly if the device at index `i` has the name, so at most one index is ever returned.
pub get_device_id_iff :
    (ds : List Device) (name : String) (i : ℕ)
    → IsTable ds
    → ((get_device_id ds name ≡ some i) ↔ NamedAt ds i name)
      × ((find_device_kernel ds name ≡ some i) ↔ NamedAt ds i name)
unfolding get_device_id find_device_kernel
get_device_id_iff ds name i v = (both, both)
  where
    both : (last_id name ds none ≡ some i) ↔ NamedAt ds i name
    both = (
      λ h. selected name ds i (sym (last_id-select name ds 0 none v.ids) ∙ h),
      λ u. elim (Option-cases (select name ds 0 none)) [
        | inl e ↦ absurd (Absent-get name ds i (select-none name ds 0 e) u)
        | inr (j, e) ↦
            last_id-select name ds 0 none v.ids
            ∙ e
            ∙ ap some (Distinct-index name ds j i v.names (selected name ds j e) u)
      ],
    )

-- ===== src/Device.antt =====
-- The device table: device_t and the device operations of iTCP_kernel_t (include/core.h), addDevice,
-- addAll and findDevice (src/device.cc), getDeviceID (src/ip.cc). A function that changes the vector
-- currDevice returns the new one. The interfaces come from getifaddrs, so they are an argument: the
-- list that it returns, or `none` where it fails. An `int` that is -1 or an index is an Option. The
-- pcap handle of a device is not part of the model.
pub mod Table
pub mod Discover
pub mod Addresses
mod Tests
use Prim.Native.Char.{code}
use Prim.Native.String.{String}
use text.Mathlib.Text.{◌==◌ as str_eq}
use i_tcp.Common.{
  ℕ, suc, ◌+◌, Bool, ◌&&◌, Option, none, some, List, [], ◌∷◌, ◌++◌, map, ◌==◌, if◌then◌else◌, ◌>>=◌,
  get_elem?, length, take, not, ◌||◌, true, ◌>>◌, guard, leb, ltb,
}
use i_tcp.Word.{ptr2ip_t, ip_t2ptr}

pub record Device : Type 0 where
  pub mac : List ℕ  -- Mac, six bytes
  pub ip : ℕ  -- IP
  pub name : String  -- Name
  pub id : ℕ  -- ID

-- device_t(deviceID, deviceMac, deviceName), where deviceMac points to at least the six bytes that are
-- copied; its callers test for that.
unfoldable pub new_device : ℕ → List ℕ → String → Device
new_device device_id device_mac device_name = record {
  mac = take 6 device_mac;
  ip = 0;
  name = device_name;
  id = device_id;
}

-- The loop of addDeviceKernel from `index` on: the last index with this name.
unfoldable pub select : String → List Device → ℕ → Option ℕ → Option ℕ
select device_name [] index selected_index = selected_index
select device_name (d ∷ ds) index selected_index =
    select device_name ds (index + 1)
      (if str_eq device_name d.name then some index else selected_index)

unfoldable pub add_device_kernel : List Device → String → List ℕ → ℕ × List Device
unfolding new_device
add_device_kernel devices device_name curr_mac = elim (select device_name devices 0 none) [
  | some selected_index ↦ (selected_index, devices)
  | none ↦ (length devices, devices ++ (new_device (length devices) curr_mac device_name ∷ []))
]

-- addIP; `none` where the buffer is shorter than the address that is read from it.
unfoldable pub add_ip : List Device → String → List ℕ → Option (List Device)
add_ip devices device_name curr_ip = do
  ip ← ptr2ip_t curr_ip
  some (map (λ (d : Device). if str_eq device_name d.name then record d { ip = ip } else d) devices)

-- The loop of findDeviceKernel, of iTCP_kernel_t::getDeviceID and of getDeviceID in ip.cc: the ID of
-- the last device with this name.
unfoldable pub last_id : String → List Device → Option ℕ → Option ℕ
last_id device_name [] result = result
last_id device_name (d ∷ ds) result =
    last_id device_name ds (if str_eq device_name d.name then some d.id else result)

unfoldable pub find_device_kernel : List Device → String → Option ℕ
unfolding last_id
find_device_kernel devices device_name = last_id device_name devices none

unfoldable pub get_device_id : List Device → String → Option ℕ
unfolding last_id
get_device_id devices str = last_id str devices none

-- getMac returns its `static` variable: the argument is what an earlier call left there.
unfoldable pub get_mac : List Device → Option (List ℕ) → String → Option (List ℕ)
get_mac [] result device_name = result
get_mac (d ∷ ds) result device_name =
    get_mac ds (if str_eq device_name d.name then some d.mac else result) device_name

unfoldable pub get_ip : List Device → String → ℕ
get_ip [] device_name = 0
get_ip (d ∷ ds) device_name = if str_eq device_name d.name then d.ip else get_ip ds device_name

-- findDevice writes its parameter Mac, which the caller does not see; what getMac leaves in its
-- static variable is the second result.
unfoldable pub find_device : List Device → Option (List ℕ) → String → Option ℕ × Option (List ℕ)
unfolding find_device_kernel get_mac
find_device devices result device = elim (find_device_kernel devices device) [
  | none ↦ (none, result)
  | some device_id ↦ (some device_id, get_mac devices result device)
]

-- One entry of the list of getifaddrs. `addr` holds sll_addr for AF_PACKET and sin_addr for AF_INET;
-- with a null ifa_addr, `has_addr` is false and the fields below it mean nothing.
pub record Ifaddr : Type 0 where
  pub ifa_name : String
  pub has_addr : Bool
  pub sa_family : ℕ
  pub addr : List ℕ

-- Linux's numbers of the address families.
abbrev pub af_packet : ℕ
af_packet = 17

abbrev pub af_inet : ℕ
af_inet = 2

-- The loop of addDevice, which looks at ifa_addr only where the name fits. With no device name,
-- `string(device)` at the entry "lo" is undefined.
unfoldable pub add_device_loop :
    Option String → List Ifaddr → Option ℕ → List Device → Option (Option ℕ × List Device)
unfolding add_device_kernel
add_device_loop device [] ret devices = some (ret, devices)
add_device_loop none (ifa ∷ ifas) ret devices =
    let rest = add_device_loop none ifas ret devices in
    if str_eq ifa.ifa_name "lo" && (not ifa.has_addr || ifa.sa_family == af_packet)
    then none
    else rest
add_device_loop (some device) (ifa ∷ ifas) ret devices =
    let (i, devices') = add_device_kernel devices device ifa.addr in
    let named = str_eq ifa.ifa_name device in
    let hit = named && ifa.sa_family == af_packet in
    let rest =
      add_device_loop (some device) ifas (if hit then some i else ret)
        (if hit then devices' else devices) in
    if (named && not ifa.has_addr) || (hit && ltb (length ifa.addr) 6) then none else rest

unfoldable pub add_device :
    Option (List Ifaddr) → Option String → List Device → Option (Option ℕ × List Device)
unfolding add_device_loop
add_device none device devices = some (none, devices)
add_device (some ifaddr) device devices = add_device_loop device ifaddr none devices

-- ifa_name[0]; the empty name has its end there.
abbrev pub first_char : String → ℕ
first_char String.[] = 0
first_char (String.◌∷◌ c s) = code c

-- What the first loop of addAll reads of an entry is there: ifa_addr, and the six bytes of the MAC
-- where it takes the entry.
abbrev pub is_readable : Ifaddr → Bool
is_readable ifa =
    let hit = ifa.sa_family == af_packet && first_char ifa.ifa_name == b'v' in
    ifa.has_addr && (not hit || leb 6 (length ifa.addr))

unfoldable pub all_readable : List Ifaddr → Bool
all_readable [] = true
all_readable (ifa ∷ ifas) = is_readable ifa && all_readable ifas

-- The two loops of addAll; take_ip is the body of the second one.
unfoldable pub add_all_devices : List Ifaddr → ℕ → List Device → ℕ × List Device
unfolding add_device_kernel
add_all_devices [] ret devices = (ret, devices)
add_all_devices (ifa ∷ ifas) ret devices =
    let hit = ifa.sa_family == af_packet && first_char ifa.ifa_name == b'v' in
    add_all_devices ifas (if hit then ret + 1 else ret)
      (if hit then (add_device_kernel devices ifa.ifa_name ifa.addr).1 else devices)

unfoldable pub take_ip : Ifaddr → List Device → Option (List Device)
unfolding add_ip
take_ip ifa devices =
    if ifa.sa_family == af_inet && first_char ifa.ifa_name == b'v'
    then (ptr2ip_t ifa.addr >>= λ tmp. add_ip devices ifa.ifa_name (ip_t2ptr tmp))
    else some devices

unfoldable pub add_all_ips : List Ifaddr → List Device → Option (List Device)
unfolding take_ip
add_all_ips [] devices = some devices
add_all_ips (ifa ∷ ifas) devices = do devices' ← take_ip ifa devices; add_all_ips ifas devices'

unfoldable pub add_all : Option (List Ifaddr) → List Device → Option (ℕ × List Device)
unfolding all_readable add_all_devices add_all_ips
add_all none devices = some (0, devices)
add_all (some ifaddr) devices = do
  guard (all_readable ifaddr)
  let (ret, devices') = add_all_devices ifaddr 0 devices
  devices'' ← add_all_ips ifaddr devices'
  some (ret, devices'')

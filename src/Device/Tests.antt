-- ===== src/Device/Tests.antt =====
-- The device table at concrete interfaces.

use i_tcp.Common.{◌↔◌, ◌≡◌, refl, some, List, [], ◌∷◌, ◌++◌, length, ◌⊎◌}
use i_tcp.Device.{Device, new_device, add_device_kernel, get_device_id, find_device_kernel}
use i_tcp.Device.Table.{IsTable, NamedAt, add_device_kernel_lem, get_device_id_iff}
use i_tcp.Sample.{mac_b, veth_a}

abbrev one_device : List Device
one_device = veth_a ∷ []

one_device-IsTable : IsTable one_device
one_device-IsTable = record { ids = (refl, tt); names = (tt, tt) }

add_device_kernel_example :
    IsTable (add_device_kernel one_device "veth1" mac_b).1
    × NamedAt
        (add_device_kernel one_device "veth1" mac_b).1
        (add_device_kernel one_device "veth1" mac_b).0
        "veth1"
    × (((add_device_kernel one_device "veth1" mac_b).1 ≡ one_device)
        ⊎ ((add_device_kernel one_device "veth1" mac_b).1
            ≡ one_device ++ (new_device (length one_device) mac_b "veth1" ∷ [])))
add_device_kernel_example = add_device_kernel_lem one_device "veth1" mac_b one_device-IsTable

get_device_id_iff_example :
    ((get_device_id one_device "veth0" ≡ some 0) ↔ NamedAt one_device 0 "veth0")
    × ((find_device_kernel one_device "veth0" ≡ some 0) ↔ NamedAt one_device 0 "veth0")
get_device_id_iff_example = get_device_id_iff one_device "veth0" 0 one_device-IsTable

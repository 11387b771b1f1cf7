-- ===== src/Capture/Tests.antt =====
-- Instances of the theorems on the packed entries and on a device's endpoints.
use packetry.Base.{◌<◌, ◌-◌, ◌%◌, ◌^◌, ◌≡◌, arith}
use packetry.Usb.Fields.{dir_in}
use packetry.Capture.Bitfield.{Endpoint, device_id, device_address, number, direction}
use packetry.Capture.Bitfield.Fields.{overwrite, endpoint_set_get}

abbrev all_ones : Endpoint
all_ones = record { bits = 2 ^ 64 - 1 }

endpoint_set_get_example :
    (device_id (overwrite all_ones 3 5 2 dir_in) ≡ 3 % 2 ^ 51)
    × (device_address (overwrite all_ones 3 5 2 dir_in) ≡ 5 % 2 ^ 7)
    × (number (overwrite all_ones 3 5 2 dir_in) ≡ 2 % 2 ^ 5)
    × (direction (overwrite all_ones 3 5 2 dir_in) ≡ dir_in)
    × ((overwrite all_ones 3 5 2 dir_in).bits < 2 ^ 64)
endpoint_set_get_example = endpoint_set_get all_ones 3 5 2 dir_in (omega arith)

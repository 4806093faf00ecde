-- ===== src/Shm/Tests.antt =====
-- The properties of the shared memory at concrete states.
use c_runtime.Prelude.{ℕ, ◌<◌, ◌≡◌, ◌≢◌, ◌⊎◌, arith}
use c_runtime.Prelude.{Option, true, false, ◌==◌, if◌then◌else◌, none, some, [], ◌∷◌}
use c_runtime.Prelude.Bits.{has_bit, has_bit-set}
use c_runtime.RuntimeUtil.Types.{DevId, ParamVal, ParamType, dev_handler, executor}
use c_runtime.Shm.Types.{Shm, command_stream, wait, post, log_data_sem}
use c_runtime.Shm.Devices.{device_connect, connect_at}
use c_runtime.Shm.Devices.Places.{IsConnected, device_connect_cases}
use c_runtime.Shm.Params.{device_read, device_write, get_cmd_map}
use c_runtime.Shm.Params.Commands.{write_then_read, interleaved_write_lost}
use c_runtime.Shm.LogData.{log_data_write, stored, LogResult}
use c_runtime.Shm.LogData.Entries.{log_data_write_events}
use c_runtime.Shm.Start.{start_shm, start_devices}

abbrev servo : DevId
servo = record { type = 4; year = 2; uid = 77 }

-- One device, at place 3, with parameter 0 pending.
abbrev one_device : Shm
one_device = record start_shm {
  dev = record start_devices {
    catalog = 8;
    dev_ids = λ i. servo;
    cmd_map = λ i. if i == 4 then 1 else 0;
  };
}

in_catalog : has_bit one_device.dev.catalog 3 ≡ true
in_catalog = ground (arith, has_bit-set 3 3 0)

-- The state after executor wrote parameter 1, and the one after dev_handler read it.
abbrev written : Shm
written = (device_write 3 executor command_stream 2 (λ j. 9) one_device).0

abbrev read_back : Shm × Option (ℕ → ParamVal)
read_back = device_read 3 dev_handler command_stream ((get_cmd_map written).1 4) (λ j. 0) written

write_then_read_example :
    (has_bit ((get_cmd_map written).1 0) 3 ≡ true)
    × ((result : ℕ → ParamVal) × (read_back.1 ≡ some result)
        × ((j : ℕ)
            → j < 32
            → result j ≡ (
                if has_bit 2 j
                then 9
                else if has_bit 1 j
                then one_device.dev.params command_stream 3 j
                else 0)))
    × (has_bit (read_back.0.dev.cmd_map 0) 3 ≡ false)
    × ((j : ℕ) → j < 32 → has_bit (read_back.0.dev.cmd_map 4) j ≡ false)
write_then_read_example =
    write_then_read 3 2 (λ j. 9) (λ j. 0) one_device (omega arith) in_catalog (omega arith)
      (omega arith)

-- The same with the command map taken before the write.
abbrev read_late : Shm
read_late =
    (device_read 3 dev_handler command_stream ((get_cmd_map one_device).1 4) (λ j. 0) written).0

interleaved_write_lost_example :
    (has_bit (read_late.dev.cmd_map 0) 3 ≡ false)
    × ((j : ℕ)
        → j < 32
        → has_bit 2 j ≡ true
        → has_bit 1 j ≡ false
        → has_bit (read_late.dev.cmd_map 4) j ≡ true)
interleaved_write_lost_example =
    interleaved_write_lost 3 2 (λ j. 9) (λ j. 0) one_device (omega arith) in_catalog (omega arith)

abbrev connected : Shm × Option ℕ
connected = device_connect servo one_device

device_connect_cases_example :
    ((connected.1 ≡ none)
      × (connected.0.dev ≡ one_device.dev)
      × ((j : ℕ) → j < 32 → has_bit one_device.dev.catalog j ≡ true))
    ⊎ ((ix : ℕ) × (ix < 32)
        × (connected.1 ≡ some ix)
        × (has_bit one_device.dev.catalog ix ≡ false)
        × ((j : ℕ) → j < ix → has_bit one_device.dev.catalog j ≡ true)
        × (connected.0.dev ≡ connect_at servo ix one_device.dev)
        × IsConnected servo ix one_device.dev connected.0.dev)
device_connect_cases_example = device_connect_cases servo one_device

abbrev logged : Shm × LogResult
logged = log_data_write (65 ∷ []) ParamType.int 3 one_device

log_data_write_events_example :
    ((logged.1 ≡ stored)
      × (logged.0.events ≡ post log_data_sem ∷ wait log_data_sem ∷ one_device.events))
    ⊎ ((logged.1 ≢ stored)
        × (logged.0.events ≡ wait log_data_sem ∷ one_device.events)
        × (logged.0.log_data ≡ one_device.log_data))
log_data_write_events_example = log_data_write_events (65 ∷ []) ParamType.int 3 one_device

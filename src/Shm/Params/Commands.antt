-- ===== src/Shm/Params/Commands.antt =====
-- Commands from executor to dev_handler: what is written is what is read, and when it is flagged.
use c_runtime.Prelude.{ℕ, zero, suc, ◌+◌, ◌<◌, ◌^◌, ◌≡◌, arith}
use c_runtime.Prelude.{true, false, ◌&&◌, Option, some, if◌then◌else◌, ltb, leb, update}
use c_runtime.Prelude.{bit_and, bit_or, not32}
use c_runtime.Prelude.Bits.{
  has_bit, has_bit-set, has_bit-clear, has_bit-or, has_bit-mask, bit_or-lt,
}
use c_runtime.RuntimeUtil.Types.{dev_handler, executor, ParamVal}
use c_runtime.Shm.Types.{Shm, command_stream}
use c_runtime.Shm.Params.{
  copy_on, device_read, device_write, device_read_helper, device_write_helper, write_row,
  flag_command, clear_command, get_cmd_map,
}

copy_on_loop :
    (left i bitmap : ℕ) (source target : ℕ → ParamVal) (j : ℕ)
    → copy_on left i bitmap source target j
      ≡ (if leb i j && (ltb j (i + left) && has_bit bitmap j) then source j else target j)
unfolding copy_on
copy_on_loop zero i bitmap source target j = ground arith
copy_on_loop (suc left) i bitmap source target j = ground (
  arith,
  copy_on_loop left (i + 1) bitmap source (update target i (source i)) j,
  copy_on_loop left (i + 1) bitmap source target j,
)

pub copy_on_lem :
    (bitmap : ℕ) (source target : ℕ → ParamVal) (j : ℕ)
    → j < 32
    → copy_on 32 0 bitmap source target j ≡ (if has_bit bitmap j then source j else target j)
copy_on_lem bitmap source target j h = ground (arith, copy_on_loop 32 0 bitmap source target j)

-- A write of executor into the commands of a device, and a read of dev_handler.
module _ (ix p : ℕ) (array : ℕ → ParamVal) (m : Shm) (c : has_bit m.dev.catalog ix ≡ true) where
  abbrev written : Shm
  written = (device_write ix executor command_stream p array m).0

  pub executor_write :
      (written.dev.catalog ≡ m.dev.catalog)
      × (has_bit (written.dev.cmd_map 0) ix ≡ true)
      × (written.dev.cmd_map (ix + 1) ≡ bit_or (m.dev.cmd_map (ix + 1)) p)
      × (written.dev.params command_stream ix
          ≡ copy_on 32 0 p array (m.dev.params command_stream ix))
  unfolding device_write device_write_helper flag_command write_row
  executor_write = (
    ground (arith, c),
    ground (arith, c, has_bit-set ix ix (m.dev.cmd_map 0)),
    ground (arith, c),
    ground (arith, c),
  )

  abbrev answer : Shm × Option (ℕ → ParamVal)
  answer = device_read ix dev_handler command_stream p array m

  pub dev_handler_read :
      ix < 32
      → (answer.1 ≡ some (copy_on 32 0 p (m.dev.params command_stream ix) array))
        × (has_bit (answer.0.dev.cmd_map 0) ix ≡ false)
        × (answer.0.dev.cmd_map (ix + 1) ≡ bit_and (m.dev.cmd_map (ix + 1)) (not32 p))
  unfolding device_read device_read_helper clear_command
  dev_handler_read h =
      (rw c, rw c (ground (arith, has_bit-clear ix ix (m.dev.cmd_map 0) h h)), rw c (ground arith))

-- A command that executor writes to a connected device and dev_handler then reads, by the flags
-- in the command map; the bitmap and the flags of the device are 32-bit words. The values arrive,
-- whatever dev_handler had in its array and whatever was pending: parameter `j` is read if it was
-- pending before or is written now, with the new value if it is written now; and afterwards
-- nothing is pending for the device.
pub write_then_read :
    (ix p : ℕ) (values array : ℕ → ParamVal) (m : Shm)
    → ix < 32
    → has_bit m.dev.catalog ix ≡ true
    → m.dev.cmd_map (ix + 1) < 2 ^ 32
    → p < 2 ^ 32
    → let w = (device_write ix executor command_stream p values m).0 in
      let pending = (get_cmd_map w).1 in
      let r = device_read ix dev_handler command_stream (pending (ix + 1)) array w in
      (has_bit (pending 0) ix ≡ true)
      × ((result : ℕ → ParamVal) × (r.1 ≡ some result)
          × ((j : ℕ)
              → j < 32
              → result j ≡ (
                  if has_bit p j
                  then values j
                  else if has_bit (m.dev.cmd_map (ix + 1)) j
                  then m.dev.params command_stream ix j
                  else array j)))
      × (has_bit (r.0.dev.cmd_map 0) ix ≡ false)
      × ((j : ℕ) → j < 32 → has_bit (r.0.dev.cmd_map (ix + 1)) j ≡ false)
unfolding get_cmd_map
write_then_read ix p values array m h c small psmall =
    let w = (device_write ix executor command_stream p values m).0 in
    let old : ℕ = m.dev.cmd_map (ix + 1) in
    let e = executor_write ix p values m c in
    let r = dev_handler_read ix (w.dev.cmd_map (ix + 1)) array w (rw e.0 c) h in
    let word : w.dev.cmd_map (ix + 1) < 2 ^ 32 = rw e.2 (bit_or-lt 32 old p small psmall) in
    let all : ℕ → ParamVal =
      copy_on 32 0 (w.dev.cmd_map (ix + 1)) (w.dev.params command_stream ix) array in
    (
      e.1,
      (
        all,
        r.0,
        λ j k. ground (
          arith,
          e,
          copy_on_lem (w.dev.cmd_map (ix + 1)) (w.dev.params command_stream ix) array j k,
          copy_on_lem p values (m.dev.params command_stream ix) j k,
          has_bit-or j old p,
        ),
      ),
      r.1,
      λ j k.
          rw r.2 (
            ground
              (arith, has_bit-mask j (w.dev.cmd_map (ix + 1)) (w.dev.cmd_map (ix + 1)) k word)),
    )

-- A command is lost when executor writes it between the two steps in which dev_handler takes the
-- command map and reads the parameters that the map named, for a connected device whose flags are
-- a 32-bit word: dev_handler turns off the flag of the device, although the parameters that were
-- written in between stay pending and unread.
pub interleaved_write_lost :
    (ix p : ℕ) (values array : ℕ → ParamVal) (m : Shm)
    → ix < 32
    → has_bit m.dev.catalog ix ≡ true
    → m.dev.cmd_map (ix + 1) < 2 ^ 32
    → let pending = (get_cmd_map m).1 in
      let w = (device_write ix executor command_stream p values m).0 in
      let r = (device_read ix dev_handler command_stream (pending (ix + 1)) array w).0 in
      (has_bit (r.dev.cmd_map 0) ix ≡ false)
      × ((j : ℕ)
          → j < 32
          → has_bit p j ≡ true
          → has_bit (m.dev.cmd_map (ix + 1)) j ≡ false
          → has_bit (r.dev.cmd_map (ix + 1)) j ≡ true)
unfolding get_cmd_map
interleaved_write_lost ix p values array m h c small =
    let w = (device_write ix executor command_stream p values m).0 in
    let old : ℕ = m.dev.cmd_map (ix + 1) in
    let e = executor_write ix p values m c in
    let r = dev_handler_read ix old array w (rw e.0 c) h in
    (
      r.1,
      λ j k on off. rw r.2 (
          ground (
            arith,
            e,
            has_bit-mask j (w.dev.cmd_map (ix + 1)) old k small,
            has_bit-or j old p,
            on,
            off,
          )),
    )

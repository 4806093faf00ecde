-- ===== src/Shm/Params/Late.antt =====
-- A command whose test of the catalog was made before its device was disconnected.
use c_runtime.Prelude.{ℕ, ◌+◌, ◌<◌, ◌^◌, ◌≡◌, sym, ap, ◌∙◌, arith, inl, inr}
use c_runtime.Prelude.{true, false, some, bit_and, not32}
use mathlib.Core.Path.{subst}
use c_runtime.Prelude.Bits.{has_bit, has_bit-set, has_bit-clear, has_bit-or, has_bit-zero}
use c_runtime.RuntimeUtil.Types.{DevId, executor, ParamVal}
use c_runtime.Shm.Types.{Shm, command_stream}
use c_runtime.Shm.Devices.{device_connect, device_disconnect, disconnect_at}
use c_runtime.Shm.Devices.Places.{IsConnected, device_connect_cases}
use c_runtime.Shm.Params.{device_write_helper, write_row, flag_command}

-- The semaphores of device_write let it finish after a device_disconnect that started later than
-- its test of the catalog. The place has no device then, but its command is flagged, with exactly
-- the parameters of the write pending; and a device that is connected next and gets the place has
-- this command, although executor never wrote one to it.
pub late_write_kept :
    (ix p : ℕ) (values : ℕ → ParamVal) (dev_id : DevId) (m : Shm)
    → ix < 32
    → let w = device_write_helper ix executor command_stream p values (device_disconnect ix m) in
      (device_connect dev_id w).1 ≡ some ix
      → let w = device_write_helper ix executor command_stream p values (device_disconnect ix m) in
        let n = (device_connect dev_id w).0 in
        (has_bit w.dev.catalog ix ≡ false)
        × (has_bit (w.dev.cmd_map 0) ix ≡ true)
        × ((j : ℕ) → has_bit (w.dev.cmd_map (ix + 1)) j ≡ has_bit p j)
        × (has_bit n.dev.catalog ix ≡ true)
        × (n.dev.dev_ids ix ≡ dev_id)
        × (has_bit (n.dev.cmd_map 0) ix ≡ true)
        × ((j : ℕ) → has_bit (n.dev.cmd_map (ix + 1)) j ≡ has_bit p j)
unfolding device_write_helper device_disconnect disconnect_at write_row flag_command
late_write_kept ix p values dev_id m h e =
    let w : Shm =
      device_write_helper ix executor command_stream p values (device_disconnect ix m) in
    let absent : has_bit w.dev.catalog ix ≡ false =
      ground (arith, has_bit-clear ix ix m.dev.catalog h h) in
    let flag : has_bit (w.dev.cmd_map 0) ix ≡ true =
      ground (arith, has_bit-set ix ix (bit_and (m.dev.cmd_map 0) (not32 (2 ^ ix)))) in
    let pending : (j : ℕ) → has_bit (w.dev.cmd_map (ix + 1)) j ≡ has_bit p j =
      λ j. ground (arith, has_bit-or j 0 p, has_bit-zero j) in
    elim (device_connect_cases dev_id w) [
      | inl (none_free, same, taken) ↦ absurd (cc (sym e ∙ none_free))
      | inr (k, below, got, free, first, at, c) ↦
          let same : k ≡ ix = ground (arith, e, got) in
          let d : IsConnected dev_id ix w.dev (device_connect dev_id w).0.dev =
            subst (λ i. IsConnected dev_id i w.dev (device_connect dev_id w).0.dev) same c in
          (
            absent,
            flag,
            pending,
            ground (arith, d.listed ix),
            d.identified,
            ap (λ f. has_bit (f 0) ix) d.same_commands ∙ flag,
            λ j. ap (λ f. has_bit (f (ix + 1)) j) d.same_commands ∙ pending j,
          )
    ]

-- ===== src/NetHandler/UdpConn/Inputs.antt =====
-- The inputs that Dawn sends are the ones that the student's code reads.
use c_runtime.Prelude.{ℕ, zero, suc, ◌+◌, ◌<◌, ◌≡◌, ◌≢◌, refl, arith}
use c_runtime.Prelude.{true, false, ◌&&◌, ◌==◌, if◌then◌else◌, length, get_or, ltb, leb, update}
use c_runtime.RuntimeUtil.Types.{gamepad, disconnected}
use c_runtime.Shm.Types.{Shm}
use c_runtime.Shm.Inputs.{
  input_read, input_write, robot_desc_write, copy_axes, write_input, ok, failed,
}
use c_runtime.NetHandler.Protocol.{UserInput, Source, source_gamepad, source_keyboard, source_other}
use c_runtime.NetHandler.UdpConn.{update_input, source_field}

copy_axes_lem :
    (left i : ℕ) (source target : ℕ → ℕ) (j : ℕ)
    → copy_axes left i source target j
      ≡ (if leb i j && ltb j (i + left) then source j else target j)
unfolding copy_axes
copy_axes_lem zero i source target j = ground arith
copy_axes_lem (suc left) i source target j =
    ground (arith, copy_axes_lem left (i + 1) source (update target i (source i)) j)

-- What a read of the gamepad gives after a message with a connected gamepad and its four axes: the
-- buttons and the axes of the message, whatever was there before.
pub gamepad_update_read :
    (input : UserInput) (axes : ℕ → ℕ) (m : Shm)
    → input.source ≡ source_gamepad
    → input.connected ≢ 0
    → length input.axes ≡ 4
    → (read : ℕ → ℕ) × ((input_read axes gamepad (update_input input m)).1
        ≡ ok (input.buttons, read))
      × ((j : ℕ) → j < 4 → read j ≡ get_or input.axes j 0)
unfolding update_input input_read input_write robot_desc_write write_input
gamepad_update_read input axes m s c l =
    let on : (input.connected == 0) ≡ false = ground (arith, c) in
    let four : (length input.axes == 4) ≡ true = ground (arith, l) in
    let sent : ℕ → ℕ = λ i. get_or input.axes i 0 in
    (
      copy_axes 4 0 (copy_axes 4 0 sent (m.inputs 0).joysticks) axes,
      rw (s, on, four) refl,
      λ j h. ground (
        arith,
        h,
        copy_axes_lem 4 0 (copy_axes 4 0 sent (m.inputs 0).joysticks) axes j,
        copy_axes_lem 4 0 sent (m.inputs 0).joysticks j,
      ),
    )

marked_disconnected :
    (source : Source) (axes : ℕ → ℕ) (buttons : ℕ) (m : Shm)
    → let m' = robot_desc_write (source_field source) disconnected m in
      ((input_read axes (source_field source) m').1 ≡ failed)
      × ((input_write buttons axes (source_field source) m').1 ≡ failed)
unfolding input_read input_write robot_desc_write
marked_disconnected source_gamepad axes buttons m = (refl, refl)
marked_disconnected source_keyboard axes buttons m = (refl, refl)
marked_disconnected source_other axes buttons m = (refl, refl)

-- After a message with an input that is not connected, the input cannot be read or written.
pub disconnected_update_read :
    (input : UserInput) (axes : ℕ → ℕ) (buttons : ℕ) (m : Shm)
    → input.connected ≡ 0
    → let m' = update_input input m in
      ((input_read axes (source_field input.source) m').1 ≡ failed)
      × ((input_write buttons axes (source_field input.source) m').1 ≡ failed)
unfolding update_input
disconnected_update_read input axes buttons m c =
    let off : (input.connected == 0) ≡ true = ground (arith, c) in
    rw off (marked_disconnected input.source axes buttons m)

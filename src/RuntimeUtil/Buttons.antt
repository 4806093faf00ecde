-- ===== src/RuntimeUtil/Buttons.antt =====
-- Gamepad buttons and keyboard keys of runtime_util/runtime_util.c, and their bits in the bitmaps.
pub mod Bits
use c_runtime.Prelude.{ℕ, zero, suc, ◌+◌, ◌-◌, ◌^◌, List, [], ◌∷◌, Option, none, some}
use c_runtime.Prelude.{Outcome, done, fault, if◌then◌else◌, ltb, ◌==◌}
use Prim.Native.String.{String}
use text.Mathlib.Text.{◌==◌ as str_eq}

abbrev pub button_names : List String
button_names =
    "button_a" ∷ "button_b" ∷ "button_x" ∷ "button_y" ∷ "l_bumper" ∷ "r_bumper" ∷ "l_trigger"
    ∷ "r_trigger" ∷ "button_back" ∷ "button_start" ∷ "l_stick" ∷ "r_stick" ∷ "dpad_up" ∷ "dpad_down"
    ∷ "dpad_left" ∷ "dpad_right" ∷ "button_xbox" ∷ []

abbrev pub key_names : List String
key_names =
    "a" ∷ "b" ∷ "c" ∷ "d" ∷ "e" ∷ "f" ∷ "g" ∷ "h" ∷ "i" ∷ "j" ∷ "k" ∷ "l" ∷ "m" ∷ "n" ∷ "o" ∷ "p"
    ∷ "q" ∷ "r" ∷ "s" ∷ "t" ∷ "u" ∷ "v" ∷ "w" ∷ "x" ∷ "y" ∷ "z" ∷ "1" ∷ "2" ∷ "3" ∷ "4" ∷ "5" ∷ "6"
    ∷ "7" ∷ "8" ∷ "9" ∷ "0" ∷ "," ∷ "." ∷ "/" ∷ ";" ∷ "'" ∷ "[" ∷ "]" ∷ "left_arrow" ∷ "right_arrow"
    ∷ "up_arrow" ∷ "down_arrow" ∷ []

-- `1 << i` in an `int`, converted to `uint64_t`: bit 31 is the sign and is extended; a shift by
-- the width or more is undefined.
unfoldable pub int_bit : ℕ → Outcome ℕ
int_bit i = if ltb i 31 then done (2 ^ i) else if i == 31 then done (2 ^ 64 - 2 ^ 31) else fault

-- The loop over the names, from index `i` on; the -1 at its end is converted to `uint64_t`.
pub name_bit : List String → ℕ → String → Outcome ℕ
name_bit [] i name = done (2 ^ 64 - 1)
name_bit (n ∷ names) i name =
    let rest = name_bit names (i + 1) name in if str_eq name n then int_bit i else rest

pub get_button_bit : String → Outcome ℕ
get_button_bit name = name_bit button_names 0 name

pub get_key_bit : String → Outcome ℕ
get_key_bit name = name_bit key_names 0 name

-- ===== src/Lowcar/Devices.antt =====
-- The classes of lowcar/devices that derive from `Device`, and the float operations of the board.
pub mod Dummy
pub mod Sensors
pub mod Servo
pub mod PolarBear
pub mod Koala
pub mod Tables
use c_runtime.Prelude.{ℕ, Bool, List, [], ◌∷◌, Outcome, done, fault}
use Prim.Native.String.{String}
use c_runtime.Message.Types.{u32_of_bytes}

-- `F` are the values of `double`; a `float` in memory is its word. `literal` is the value of a
-- literal of the source, `of_int` the `float` of an integer, and `to_int` the integer of a value.
pub record Floats (F : Type 0) : Type 0 where
  pub literal : String → F
  pub of_float : ℕ → F
  pub to_float : F → ℕ
  pub of_int : ℕ → ℕ
  pub to_int : F → ℕ
  pub add : F → F → F
  pub sub : F → F → F
  pub mul : F → F → F
  pub div : F → F → F
  pub lt : F → F → Bool
  pub le : F → F → Bool

-- `((int32_t*) data_buf)[0]` and `((float*) data_buf)[0]`.
abbrev pub word_at : List ℕ → Outcome ℕ
word_at (a ∷ b ∷ c ∷ d ∷ rest) = done (u32_of_bytes a b c d)
word_at _ = fault

-- `data_buf[0]`.
abbrev pub byte_at : List ℕ → Outcome ℕ
byte_at (a ∷ rest) = done a
byte_at [] = fault

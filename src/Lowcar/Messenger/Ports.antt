-- ===== src/Lowcar/Messenger/Ports.antt =====
-- What the firmware relies on of a serial port.
use c_runtime.Prelude.{ℕ, ◌≡◌, List, ◌∷◌, ◌++◌, length, All}
use c_runtime.Message.Cobs.Blocks.{IsNonzero}
use c_runtime.Lowcar.Types.{Port}

-- `pending` are the bytes that have arrived, and `sent` those that were written.
pub record IsPort {S : Type 0} (port : Port S) (pending sent : S → List ℕ) : Type 0 where
  pub available_lem : (s : S) → port.available s ≡ length (pending s)
  pub read_byte_lem :
      (s : S) (b : ℕ) (bs : List ℕ)
      → pending s ≡ b ∷ bs
      → ((port.read_byte s).0 ≡ b) × (pending (port.read_byte s).1 ≡ bs)
  pub peek_lem : (s : S) (b : ℕ) (bs : List ℕ) → pending s ≡ b ∷ bs → port.peek s ≡ b
  pub read_bytes_until_lem :
      (s : S) (bytes rest : List ℕ)
      → pending s ≡ bytes ++ rest
      → All IsNonzero bytes
      → ((port.read_bytes_until s 0 (length bytes)).0 ≡ bytes)
        × (pending (port.read_bytes_until s 0 (length bytes)).1 ≡ rest)
  pub write_bytes_lem :
      (s : S) (bytes : List ℕ)
      → ((port.write_bytes s bytes).0 ≡ length bytes)
        × (sent (port.write_bytes s bytes).1 ≡ sent s ++ bytes)

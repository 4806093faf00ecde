-- ===== src/Lowcar/Cobs.antt =====
-- The COBS encoder and decoder of lowcar/devices/Device/Messenger.cpp.
pub mod RoundTrip
use c_runtime.Prelude.{ℕ, zero, suc, ◌+◌, ◌-◌, List, [], ◌∷◌, ◌++◌, Option, none, some}
use c_runtime.Prelude.{ltb, ◌==◌, if◌then◌else◌, u8, length}

-- `finished` holds the bytes before the slot of the open block, and `block` the bytes after it.
pub record BlockWriter : Type 0 where
  pub finished : List ℕ
  pub block : List ℕ
  pub block_len : ℕ
  pub out_len : ℕ

abbrev pub no_blocks : BlockWriter
no_blocks = record { finished = []; block = []; block_len = 1; out_len = 0 }

-- The macro: fill in the slot of the open block, and keep the next byte as the new slot.
unfoldable pub close_block : BlockWriter → BlockWriter
close_block w = record {
  finished = w.finished ++ (w.block_len ∷ w.block);
  block = [];
  block_len = 1;
  out_len = w.out_len + 1;
}

-- One round of the loop; `block_len` is a `uint8_t`.
unfoldable pub write_byte : BlockWriter → ℕ → BlockWriter
write_byte w x =
    if x == 0
    then close_block w
    else (let w' : BlockWriter = record {
      finished = w.finished;
      block = w.block ++ (x ∷ []);
      block_len = u8 (w.block_len + 1);
      out_len = w.out_len + 1;
    } in
        if w'.block_len == 255 then close_block w' else w')

unfoldable pub write_loop : BlockWriter → List ℕ → BlockWriter
write_loop w [] = w
write_loop w (x ∷ xs) = write_loop (write_byte w x) xs

-- The bytes written, and the size that is returned.
unfoldable pub cobs_encode : List ℕ → List ℕ × ℕ
cobs_encode src = let w = close_block (write_loop no_blocks src) in (w.finished, w.out_len)

-- The inner loop, with `n` bytes left to copy; `none` is a read past the end of the source.
unfoldable pub copy_code : ℕ → List ℕ → List ℕ → Option (List ℕ × List ℕ)
copy_code zero src dst = some (src, dst)
copy_code (suc n) [] dst = none
copy_code (suc n) (x ∷ src) dst = copy_code n src (dst ++ (x ∷ []))

-- `if (code < 0xFF && src != end)`.
unfoldable pub restore_zero : ℕ → List ℕ → List ℕ → List ℕ
restore_zero code [] dst = dst
restore_zero code (x ∷ src) dst = if ltb code 255 then dst ++ (0 ∷ []) else dst

-- The outer loop, on fuel; `none` also where the fuel runs out.
unfoldable pub decode_loop : ℕ → List ℕ → List ℕ → Option (List ℕ)
decode_loop fuel [] dst = some dst
decode_loop zero (code ∷ src) dst = none
decode_loop (suc fuel) (code ∷ src) dst = elim (copy_code (code - 1) src dst) [
  | none ↦ none
  | some (rest, dst') ↦ decode_loop fuel rest (restore_zero code rest dst')
]

-- Each round takes a byte of the source, so its length is enough fuel.
unfoldable pub cobs_decode : List ℕ → Option (List ℕ)
cobs_decode src = decode_loop (length src) src []

-- ===== src/Message/Cobs.antt =====
-- `cobs_encode` and `cobs_decode` of dev_handler/message.c.
pub mod Blocks
pub mod RoundTrip
pub mod Bounds
use c_runtime.Prelude.{ℕ, zero, suc, ◌+◌, ◌-◌, List, [], ◌∷◌, ◌++◌, Option, none, some}
use c_runtime.Prelude.{◌==◌, if◌then◌else◌, length, u8}

-- What `cobs_encode` has written into `dst`: the finished bytes, then the slot that `block`
-- points to, then the bytes of the open block. The pointer `block` is `dst + length finished`,
-- and the pointer `dst` stands behind all of it.
pub record Encoder : Type 0 where
  pub finished : List ℕ
  pub block : List ℕ
  pub block_len : ℕ
  pub dst_len : ℕ

abbrev pub start : Encoder
start = record { finished = []; block = []; block_len = 1; dst_len = 0 }

-- The macro: fill in the slot, and open a new block behind what is written.
unfoldable pub finish_block : Encoder → Encoder
finish_block e = record {
  finished = e.finished ++ (u8 e.block_len ∷ e.block);
  block = [];
  block_len = 1;
  dst_len = e.dst_len + 1;
}

unfoldable pub copy_byte : Encoder → ℕ → Encoder
copy_byte e x = record e {
  block = e.block ++ (x ∷ []);
  block_len = e.block_len + 1;
  dst_len = e.dst_len + 1;
}

-- One round of the loop over `src`.
unfoldable pub encode_byte : Encoder → ℕ → Encoder
encode_byte e x =
    if x == 0
    then finish_block e
    else let e' = copy_byte e x in if e'.block_len == 255 then finish_block e' else e'

unfoldable pub encode_loop : Encoder → List ℕ → Encoder
encode_loop e [] = e
encode_loop e (x ∷ xs) = encode_loop (encode_byte e x) xs

-- The bytes written, and the size that is returned. The slot that the last `finish_block` opens
-- is left out: it is never filled in.
unfoldable pub cobs_encode : List ℕ → List ℕ × ℕ
cobs_encode src = let e = finish_block (encode_loop start src) in (e.finished, e.dst_len)

-- `bad_packet` is the early `return 0`; `stuck` means that the fuel ran out.
pub data Decoded : Type 0 where
  decoded : List ℕ → Decoded
  bad_packet stuck : Decoded

-- The inner loop, with `n` bytes left to copy; `none` is the test `src > end`. The byte at `end`
-- has then been read and written, and nothing looks at it.
pub copy_block : ℕ → List ℕ → List ℕ → Option (List ℕ × List ℕ)
copy_block zero src dst = some (src, dst)
copy_block (suc n) [] dst = none
copy_block (suc n) (x ∷ src) dst = copy_block n src (dst ++ (x ∷ []))

-- `if (src != end) *dst++ = 0`.
pub put_zero : List ℕ → List ℕ → List ℕ
put_zero [] dst = dst
put_zero (x ∷ src) dst = dst ++ (0 ∷ [])

pub decode_loop : ℕ → List ℕ → List ℕ → Decoded
decode_loop fuel [] dst = decoded dst
decode_loop zero (n ∷ src) dst = stuck
decode_loop (suc fuel) (n ∷ src) dst = elim (copy_block (n - 1) src dst) [
  | none ↦ bad_packet
  | some (rest, dst') ↦ decode_loop fuel rest (put_zero rest dst')
]

-- Each round takes a byte of `src`, so its length is enough fuel.
pub cobs_decode : List ℕ → Decoded
cobs_decode src = decode_loop (length src) src []

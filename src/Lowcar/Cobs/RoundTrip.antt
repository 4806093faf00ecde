-- ===== src/Lowcar/Cobs/RoundTrip.antt =====
-- The encoder of the firmware agrees with the one of dev_handler, and its decoder undoes both.
use c_runtime.Prelude.{ℕ, zero, suc, ◌+◌, ◌≤◌, ◌<◌, ◌≡◌, refl, ap, ◌∙◌, arith}
use c_runtime.Prelude.{List, [], ◌∷◌, ◌++◌, some, length, length-append, ◌≢◌}
use c_runtime.Message.Cobs.{Encoder, finish_block, copy_byte, encode_byte, encode_loop, start}
use c_runtime.Message.Cobs.Blocks.{blocks, length-snoc, IsEncoder, encode_byte-IsEncoder}
use c_runtime.Message.Cobs.RoundTrip.{encoding-blocks, blocks-ne-nil, length-pos}
use c_runtime.Message.Cobs
use c_runtime.Lowcar.Cobs.{
  BlockWriter, close_block, write_byte, write_loop, cobs_encode, copy_code, restore_zero,
  decode_loop, cobs_decode,
}
use mathlib.Core.List.{append_assoc, append-nil}

-- The writer in the state of an encoder of dev_handler.
abbrev writer : Encoder → BlockWriter
writer e = record {
  finished = e.finished;
  block = e.block;
  block_len = e.block_len;
  out_len = e.dst_len;
}

close_block-writer : (e : Encoder) → IsEncoder e → close_block (writer e) ≡ writer (finish_block e)
unfolding close_block finish_block
close_block-writer e h = ground arith

write_byte-writer :
    (e : Encoder) (x : ℕ) → IsEncoder e → write_byte (writer e) x ≡ writer (encode_byte e x)
unfolding write_byte close_block encode_byte finish_block copy_byte
write_byte-writer e x h = ground arith

write_loop-writer :
    (xs : List ℕ) (e : Encoder)
    → IsEncoder e
    → close_block (write_loop (writer e) xs) ≡ writer (finish_block (encode_loop e xs))
unfolding write_loop encode_loop
write_loop-writer [] e h = close_block-writer e h
write_loop-writer (x ∷ xs) e h =
    ap (λ w. close_block (write_loop w xs)) (write_byte-writer e x h)
    ∙ write_loop-writer xs (encode_byte e x) (encode_byte-IsEncoder e x h)

-- The encoders of the firmware and of dev_handler write the same bytes, and return the same size,
-- for every source.
pub cobs_encode-eq-cobs_encode : (src : List ℕ) → cobs_encode src ≡ Cobs.cobs_encode src
unfolding cobs_encode Cobs.cobs_encode
cobs_encode-eq-cobs_encode src =
    ap (λ w. (w.finished, w.out_len)) (write_loop-writer src start (omega arith))

copy_code_lem :
    (acc rest dst : List ℕ) → copy_code (length acc) (acc ++ rest) dst ≡ some (rest, dst ++ acc)
unfolding copy_code
copy_code_lem [] rest dst = rw append-nil
copy_code_lem (x ∷ acc) rest dst = copy_code_lem acc rest (dst ++ (x ∷ [])) ∙ rw append_assoc

restore_zero_lem :
    (code : ℕ) (rest dst : List ℕ)
    → rest ≢ []
    → code < 255
    → restore_zero code rest dst ≡ dst ++ (0 ∷ [])
unfolding restore_zero
restore_zero_lem code [] dst h k = absurd (h refl)
restore_zero_lem code (y ∷ rest) dst h k = ground arith

restore_zero_full : (rest dst : List ℕ) → restore_zero 255 rest dst ≡ dst
unfolding restore_zero
restore_zero_full [] dst = refl
restore_zero_full (y ∷ rest) dst = refl

-- A block before others, a full block, and the last block.
decode_loop_block :
    (fuel : ℕ) (acc rest dst : List ℕ)
    → rest ≢ []
    → length acc < 254
    → decode_loop (suc fuel) ((length acc + 1) ∷ (acc ++ rest)) dst
      ≡ decode_loop fuel rest (dst ++ (acc ++ (0 ∷ [])))
unfolding decode_loop
decode_loop_block fuel acc rest dst h k = ground (
  arith,
  copy_code_lem acc rest dst,
  restore_zero_lem (length acc + 1) rest (dst ++ acc) h,
  append_assoc dst acc (0 ∷ []),
)

decode_loop_full :
    (fuel : ℕ) (acc rest dst : List ℕ)
    → length acc ≡ 254
    → decode_loop (suc fuel) (255 ∷ (acc ++ rest)) dst ≡ decode_loop fuel rest (dst ++ acc)
unfolding decode_loop
decode_loop_full fuel acc rest dst h =
    ground (arith, copy_code_lem acc rest dst, restore_zero_full rest (dst ++ acc))

decode_loop_last :
    (fuel : ℕ) (acc dst : List ℕ)
    → decode_loop (suc fuel) ((length acc + 1) ∷ acc) dst ≡ some (dst ++ acc)
unfolding decode_loop restore_zero
decode_loop_last zero acc dst = ground (arith, copy_code_lem acc [] dst, append-nil acc)
decode_loop_last (suc fuel) acc dst = ground (arith, copy_code_lem acc [] dst, append-nil acc)

decode_loop-blocks :
    (xs acc dst : List ℕ) (fuel : ℕ)
    → length acc < 254
    → length (blocks acc xs) ≤ fuel
    → decode_loop fuel (blocks acc xs) dst ≡ some (dst ++ (acc ++ xs))
unfolding blocks
decode_loop-blocks [] acc dst zero h k = absurd (omega arith)
decode_loop-blocks [] acc dst (suc fuel) h k =
    decode_loop_last fuel acc dst ∙ ap (λ t. some (dst ++ t)) (rw append-nil)
decode_loop-blocks (x ∷ xs) acc dst zero h k =
    absurd (omega (arith, length-pos _ (blocks-ne-nil (x ∷ xs) acc)))
decode_loop-blocks (x ∷ xs) acc dst (suc fuel) h k = ground (
  arith,
  length-snoc acc x,
  length-append acc (blocks [] xs),
  length-append (acc ++ (x ∷ [])) (blocks [] xs),
  decode_loop_block fuel acc (blocks [] xs) dst (blocks-ne-nil xs []),
  decode_loop_full fuel (acc ++ (x ∷ [])) (blocks [] xs) dst,
  decode_loop-blocks xs [] (dst ++ (acc ++ (0 ∷ []))) fuel,
  decode_loop-blocks xs [] (dst ++ (acc ++ (x ∷ []))) fuel,
  decode_loop-blocks xs (acc ++ (x ∷ [])) dst (suc fuel),
  append_assoc dst (acc ++ (0 ∷ [])) xs,
  append_assoc dst (acc ++ (x ∷ [])) xs,
  append_assoc acc (0 ∷ []) xs,
  append_assoc acc (x ∷ []) xs,
)

-- The decoder of the firmware gives back every source that was encoded, of any length.
pub cobs_decode-cobs_encode : (src : List ℕ) → cobs_decode (Cobs.cobs_encode src).0 ≡ some src
unfolding cobs_decode
cobs_decode-cobs_encode src =
    rw (encoding-blocks src) (decode_loop-blocks src [] [] _ (omega arith) (omega arith))

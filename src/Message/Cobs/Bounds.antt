-- ===== src/Message/Cobs/Bounds.antt =====
-- Bytes on the wire, buffer sizes and the end of the decoder's loop.
use c_runtime.Prelude.{ℕ, zero, suc, ◌+◌, ◌-◌, ◌≤◌, ◌≡◌, ◌≢◌, arith}
use c_runtime.Prelude.{
  List, [], ◌∷◌, ◌++◌, some, Option-cases, length, length-append, All, inl, inr,
}
use c_runtime.Message.Cobs.{
  copy_block, put_zero, decoded, stuck, decode_loop, cobs_encode, cobs_decode,
}
use c_runtime.Message.Cobs.Blocks.{IsNonzero, blocks-IsNonzero}
use c_runtime.Message.Cobs.RoundTrip.{encoding-blocks}

-- No byte of the encoding is zero, so the delimiter 0x00 stands only at the start of a message.
pub cobs_encode-IsNonzero : (src : List ℕ) → All IsNonzero (cobs_encode src).0
cobs_encode-IsNonzero src = rw (encoding-blocks src) (blocks-IsNonzero src [] tt)

copy_block_sizes :
    (n : ℕ) (src dst rest dst' : List ℕ)
    → copy_block n src dst ≡ some (rest, dst')
    → (length rest ≤ length src) × (length dst' + length rest ≡ length dst + length src)
unfolding copy_block
copy_block_sizes zero src dst rest dst' e = ground arith
copy_block_sizes (suc n) [] dst rest dst' e = absurd (ground arith)
copy_block_sizes (suc n) (x ∷ src) dst rest dst' e =
    ground (arith, copy_block_sizes n src (dst ++ (x ∷ [])) rest dst' e, length-append dst (x ∷ []))

length-put_zero : (rest dst : List ℕ) → length (put_zero rest dst) ≤ length dst + 1
unfolding put_zero
length-put_zero [] dst = omega arith
length-put_zero (x ∷ rest) dst = omega (arith, length-append dst (0 ∷ []))

decode_loop-ne-stuck :
    (fuel : ℕ) (src dst : List ℕ) → length src ≤ fuel → decode_loop fuel src dst ≢ stuck
unfolding decode_loop
decode_loop-ne-stuck zero [] dst h = λ e. cc
decode_loop-ne-stuck (suc fuel) [] dst h = λ e. cc
decode_loop-ne-stuck zero (n ∷ src) dst h = absurd (omega arith)
decode_loop-ne-stuck (suc fuel) (n ∷ src) dst h = elim (Option-cases (copy_block (n - 1) src dst)) [
  | inl e ↦ rw (e, decode_loop) (λ p. cc)
  | inr ((rest, dst'), e) ↦
      rw (e, decode_loop)
        (decode_loop-ne-stuck fuel rest (put_zero rest dst')
          (omega (arith, copy_block_sizes _ src dst rest dst' e)))
]

decode_loop_sizes :
    (fuel : ℕ) (src dst out : List ℕ)
    → decode_loop fuel src dst ≡ decoded out
    → length out ≤ length dst + length src
unfolding decode_loop
decode_loop_sizes zero [] dst out d = ground arith
decode_loop_sizes (suc fuel) [] dst out d = ground arith
decode_loop_sizes zero (n ∷ src) dst out d = absurd (ground arith)
decode_loop_sizes (suc fuel) (n ∷ src) dst out d =
    elim (Option-cases (copy_block (n - 1) src dst)) [
      | inl e ↦ absurd (ground (arith, e, d))
      | inr ((rest, dst'), e) ↦ omega (
        arith,
        copy_block_sizes _ src dst rest dst' e,
        length-put_zero rest dst',
        decode_loop_sizes fuel rest (put_zero rest dst') out (ground (arith, e, d)),
      )
    ]

-- The decoder ends on every input: its fuel, one step for each byte of the source, is enough.
pub cobs_decode_total : (src : List ℕ) → cobs_decode src ≢ stuck
unfolding cobs_decode
cobs_decode_total src = decode_loop-ne-stuck (length src) src [] (omega arith)

-- What the decoder gives back has at most as many bytes as its input, so the block that
-- `parse_message` allocates, as long as the encoded bytes, holds it.
pub length-cobs_decode :
    (src out : List ℕ) → cobs_decode src ≡ decoded out → length out ≤ length src
unfolding cobs_decode
length-cobs_decode src out e = omega (arith, decode_loop_sizes (length src) src [] out e)

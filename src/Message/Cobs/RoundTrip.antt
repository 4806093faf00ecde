-- ===== src/Message/Cobs/RoundTrip.antt =====
-- Decoding what was encoded.
use c_runtime.Prelude.{ℕ, zero, suc, ◌+◌, ◌≤◌, ◌<◌, ◌≡◌, refl, ap, ◌∙◌, arith}
use c_runtime.Prelude.{
  List, [], ◌∷◌, ◌++◌, some, length, length-append, ◌*◌, ◌↔◌, true, false, ◌==◌, sym,
}
use c_runtime.Message.Cobs.{
  finish_block, copy_block, put_zero, decoded, decode_loop, cobs_encode, cobs_decode, start,
}
use c_runtime.Message.Cobs.Blocks.{
  blocks, stuffed, length-snoc, encode_loop-blocks, finish_block-IsEncoder, encode_loop-IsEncoder,
}
use mathlib.Core.Logic.{◌≢◌}
use mathlib.Core.List.{append_assoc, append-nil}

copy_block_lem :
    (acc rest dst : List ℕ) → copy_block (length acc) (acc ++ rest) dst ≡ some (rest, dst ++ acc)
unfolding copy_block
copy_block_lem [] rest dst = rw append-nil
copy_block_lem (x ∷ acc) rest dst = copy_block_lem acc rest (dst ++ (x ∷ [])) ∙ rw append_assoc

put_zero_lem : (rest dst : List ℕ) → rest ≢ [] → put_zero rest dst ≡ dst ++ (0 ∷ [])
unfolding put_zero
put_zero_lem [] dst h = absurd (h refl)
put_zero_lem (y ∷ rest) dst h = refl

-- A block that stands before others, and the last block.
decode_loop_block :
    (fuel : ℕ) (acc rest dst : List ℕ)
    → rest ≢ []
    → decode_loop (suc fuel) ((length acc + 1) ∷ (acc ++ rest)) dst
      ≡ decode_loop fuel rest (dst ++ (acc ++ (0 ∷ [])))
unfolding decode_loop
decode_loop_block fuel acc rest dst h = ground (
  arith,
  copy_block_lem acc rest dst,
  put_zero_lem rest (dst ++ acc) h,
  append_assoc dst acc (0 ∷ []),
)

decode_loop_last :
    (fuel : ℕ) (acc dst : List ℕ)
    → decode_loop (suc fuel) ((length acc + 1) ∷ acc) dst ≡ decoded (dst ++ acc)
unfolding decode_loop put_zero
decode_loop_last zero acc dst = ground (arith, copy_block_lem acc [] dst, append-nil acc)
decode_loop_last (suc fuel) acc dst = ground (arith, copy_block_lem acc [] dst, append-nil acc)

pub blocks-ne-nil : (xs acc : List ℕ) → blocks acc xs ≢ []
unfolding blocks
blocks-ne-nil [] acc = λ e. cc
blocks-ne-nil (x ∷ xs) acc = ground (arith, blocks-ne-nil xs (acc ++ (x ∷ [])))

pub length-pos : (xs : List ℕ) → xs ≢ [] → 0 < length xs
length-pos [] h = absurd (h refl)
length-pos (x ∷ xs) h = omega arith

decode_loop-blocks :
    (xs acc dst : List ℕ) (fuel : ℕ)
    → length acc < 254
    → length (blocks acc xs) ≤ fuel
    → decode_loop fuel (blocks acc xs) dst ≡ decoded (dst ++ stuffed acc xs)
unfolding blocks stuffed
decode_loop-blocks [] acc dst zero h k = absurd (omega arith)
decode_loop-blocks [] acc dst (suc fuel) h k = decode_loop_last fuel acc dst
decode_loop-blocks (x ∷ xs) acc dst zero h k =
    absurd (omega (arith, length-pos _ (blocks-ne-nil (x ∷ xs) acc)))
decode_loop-blocks (x ∷ xs) acc dst (suc fuel) h k = ground (
  arith,
  length-snoc acc x,
  length-append acc (blocks [] xs),
  length-append (acc ++ (x ∷ [])) (blocks [] xs),
  decode_loop_block fuel acc (blocks [] xs) dst (blocks-ne-nil xs []),
  decode_loop_block fuel (acc ++ (x ∷ [])) (blocks [] xs) dst (blocks-ne-nil xs []),
  decode_loop-blocks xs [] (dst ++ (acc ++ (0 ∷ []))) fuel,
  decode_loop-blocks xs [] (dst ++ ((acc ++ (x ∷ [])) ++ (0 ∷ []))) fuel,
  decode_loop-blocks xs (acc ++ (x ∷ [])) dst (suc fuel),
  append_assoc dst (acc ++ (0 ∷ [])) (stuffed [] xs),
  append_assoc dst ((acc ++ (x ∷ [])) ++ (0 ∷ [])) (stuffed [] xs),
  append_assoc acc (0 ∷ []) (stuffed [] xs),
  append_assoc (acc ++ (x ∷ [])) (0 ∷ []) (stuffed [] xs),
)

pub encoding-blocks : (src : List ℕ) → (cobs_encode src).0 ≡ blocks [] src
unfolding cobs_encode
encoding-blocks src = encode_loop-blocks src start (omega arith)

pub cobs_decode-cobs_encode :
    (src : List ℕ) → cobs_decode (cobs_encode src).0 ≡ decoded (stuffed [] src)
unfolding cobs_decode
cobs_decode-cobs_encode src =
    rw (encoding-blocks src) (decode_loop-blocks src [] [] _ (omega arith) (omega arith))

-- How many blocks of 254 bytes without a zero `cobs_encode` closes early, where the open block
-- holds `n` bytes.
unfoldable pub full_blocks : ℕ → List ℕ → ℕ
full_blocks n [] = 0
full_blocks n (x ∷ xs) = elim (x == 0) [
  | true ↦ full_blocks 0 xs
  | false ↦ elim (n + 2 == 255) [ true ↦ suc (full_blocks 0 xs) | false ↦ full_blocks (n + 1) xs ]
]

length-stuffed :
    (xs acc : List ℕ)
    → length (stuffed acc xs) ≡ length acc + length xs + full_blocks (length acc) xs
unfolding stuffed full_blocks
length-stuffed [] acc = omega arith
length-stuffed (x ∷ xs) acc = ground (
  arith,
  length-snoc acc x,
  length-append acc (0 ∷ stuffed [] xs),
  length-append (acc ++ (x ∷ [])) (0 ∷ stuffed [] xs),
  length-stuffed xs [],
  length-stuffed xs (acc ++ (x ∷ [])),
)

stuffed_plain : (xs acc : List ℕ) → full_blocks (length acc) xs ≡ 0 → stuffed acc xs ≡ acc ++ xs
unfolding stuffed full_blocks
stuffed_plain [] acc h = sym (append-nil acc)
stuffed_plain (x ∷ xs) acc h = ground (
  arith,
  length-snoc acc x,
  stuffed_plain xs [],
  stuffed_plain xs (acc ++ (x ∷ [])),
  append_assoc acc (x ∷ []) xs,
)

length-blocks :
    (xs acc : List ℕ)
    → length (blocks acc xs) ≡ length acc + length xs + full_blocks (length acc) xs + 1
unfolding blocks full_blocks
length-blocks [] acc = omega arith
length-blocks (x ∷ xs) acc = ground (
  arith,
  length-snoc acc x,
  length-append acc (blocks [] xs),
  length-append (acc ++ (x ∷ [])) (blocks [] xs),
  length-blocks xs [],
  length-blocks xs (acc ++ (x ∷ [])),
)

full_blocks_bound : (xs : List ℕ) (n : ℕ) → n < 254 → 254 * full_blocks n xs ≤ n + length xs
unfolding full_blocks
full_blocks_bound [] n h = omega arith
full_blocks_bound (x ∷ xs) n h =
    ground (arith, full_blocks_bound xs 0 (omega arith), full_blocks_bound xs (n + 1))

-- Decoding gives the source back exactly when the source has no run of 254 bytes without a zero
-- that fills a block.
pub cobs_round_trip_iff :
    (src : List ℕ) → (cobs_decode (cobs_encode src).0 ≡ decoded src) ↔ (full_blocks 0 src ≡ 0)
cobs_round_trip_iff src = (
  λ e. ground (arith, e, cobs_decode-cobs_encode src, length-stuffed src []),
  λ e. cobs_decode-cobs_encode src ∙ ap decoded (stuffed_plain src [] e),
)

-- A source of at most 253 bytes is decoded to itself.
pub cobs_round_trip :
    (src : List ℕ) → length src < 254 → cobs_decode (cobs_encode src).0 ≡ decoded src
cobs_round_trip src h = (cobs_round_trip_iff src).1 (omega (arith, full_blocks_bound src 0))

cobs_encode_size : (src : List ℕ) → (cobs_encode src).1 ≡ length (cobs_encode src).0
unfolding cobs_encode finish_block
cobs_encode_size src =
    let h = finish_block-IsEncoder _ (encode_loop-IsEncoder src start (omega arith)) in
    omega (arith, h.total)

-- The encoding takes one byte more than the source, and one more for each full block.
pub length-cobs_encode :
    (src : List ℕ)
    → ((cobs_encode src).1 ≡ length (cobs_encode src).0)
      × (length (cobs_encode src).0 ≡ length src + 1 + full_blocks 0 src)
      × (254 * full_blocks 0 src ≤ length src)
length-cobs_encode src = (
  cobs_encode_size src,
  rw (encoding-blocks src) (omega (arith, length-blocks src [])),
  omega (arith, full_blocks_bound src 0),
)

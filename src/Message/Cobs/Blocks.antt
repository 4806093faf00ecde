-- ===== src/Message/Cobs/Blocks.antt =====
-- The byte string that `cobs_encode` writes, as a recursion on the source with the open block.
use c_runtime.Prelude.{ℕ, ◌+◌, ◌<◌, ◌≡◌, ap, ◌∙◌, arith}
use c_runtime.Prelude.{List, [], ◌∷◌, ◌++◌, true, false}
use c_runtime.Prelude.{◌≢◌, inl, inr, Bool-cases, All, All-append, ◌==◌, length, length-append, u8}
use c_runtime.Message.Cobs.{Encoder, finish_block, copy_byte, encode_byte, encode_loop}
use mathlib.Core.List.{append_assoc}

-- `acc` holds the bytes of the open block.
unfoldable pub blocks : List ℕ → List ℕ → List ℕ
blocks acc [] = (length acc + 1) ∷ acc
blocks acc (x ∷ xs) = elim (x == 0) [
  | true ↦ (length acc + 1) ∷ (acc ++ blocks [] xs)
  | false ↦ elim (length acc + 2 == 255) [
    | true ↦ 255 ∷ ((acc ++ (x ∷ [])) ++ blocks [] xs)
    | false ↦ blocks (acc ++ (x ∷ [])) xs
  ]
]

-- What a decoder makes of it: a zero byte follows each full block.
unfoldable pub stuffed : List ℕ → List ℕ → List ℕ
stuffed acc [] = acc
stuffed acc (x ∷ xs) = elim (x == 0) [
  | true ↦ acc ++ (0 ∷ stuffed [] xs)
  | false ↦ elim (length acc + 2 == 255) [
    | true ↦ (acc ++ (x ∷ [])) ++ (0 ∷ stuffed [] xs)
    | false ↦ stuffed (acc ++ (x ∷ [])) xs
  ]
]

pub length-snoc : (acc : List ℕ) (x : ℕ) → length (acc ++ (x ∷ [])) ≡ length acc + 1
length-snoc acc x = omega (arith, length-append acc (x ∷ []))

-- The counters of an encoder agree with the bytes that it has written.
pub record IsEncoder (e : Encoder) : Type 0 where
  pub counted : e.block_len ≡ length e.block + 1
  pub small : length e.block < 254
  pub total : e.dst_len ≡ length e.finished + length e.block

pub finish_block-IsEncoder : (e : Encoder) → IsEncoder e → IsEncoder (finish_block e)
unfolding finish_block
finish_block-IsEncoder e h = omega (arith, length-append e.finished (u8 e.block_len ∷ e.block))

full-IsEncoder : (e : Encoder) (x : ℕ) → IsEncoder e → IsEncoder (finish_block (copy_byte e x))
unfolding finish_block copy_byte
full-IsEncoder e x h = omega (
  arith,
  length-snoc e.block x,
  length-append e.finished (u8 (e.block_len + 1) ∷ (e.block ++ (x ∷ []))),
)

pub encode_byte-IsEncoder : (e : Encoder) (x : ℕ) → IsEncoder e → IsEncoder (encode_byte e x)
unfolding encode_byte copy_byte
encode_byte-IsEncoder e x h =
    ground (arith, finish_block-IsEncoder e h, full-IsEncoder e x h, length-snoc e.block x)

pub encode_loop-IsEncoder : (xs : List ℕ) (e : Encoder) → IsEncoder e → IsEncoder (encode_loop e xs)
unfolding encode_loop
encode_loop-IsEncoder [] e h = h
encode_loop-IsEncoder (x ∷ xs) e h =
    encode_loop-IsEncoder xs (encode_byte e x) (encode_byte-IsEncoder e x h)

encode_byte-blocks :
    (e : Encoder) (x : ℕ) (xs : List ℕ)
    → IsEncoder e
    → (encode_byte e x).finished ++ blocks (encode_byte e x).block xs
      ≡ e.finished ++ blocks e.block (x ∷ xs)
unfolding encode_byte copy_byte finish_block blocks
encode_byte-blocks e x xs h = ground (
  arith,
  append_assoc e.finished (u8 e.block_len ∷ e.block) (blocks [] xs),
  append_assoc e.finished (u8 (e.block_len + 1) ∷ (e.block ++ (x ∷ []))) (blocks [] xs),
)

pub encode_loop-blocks :
    (xs : List ℕ) (e : Encoder)
    → IsEncoder e
    → (finish_block (encode_loop e xs)).finished ≡ e.finished ++ blocks e.block xs
unfolding encode_loop blocks
encode_loop-blocks [] e h =
    unfold finish_block in ap (λ n. e.finished ++ (n ∷ e.block)) (omega arith)
encode_loop-blocks (x ∷ xs) e h =
    encode_loop-blocks xs (encode_byte e x) (encode_byte-IsEncoder e x h)
    ∙ encode_byte-blocks e x xs h

abbrev pub IsNonzero : ℕ → Type 0
IsNonzero x = x ≢ 0

pub blocks-IsNonzero : (xs acc : List ℕ) → All IsNonzero acc → All IsNonzero (blocks acc xs)
unfolding blocks
blocks-IsNonzero [] acc h = (omega arith, h)
blocks-IsNonzero (x ∷ xs) acc h = elim (Bool-cases (x == 0)) [
  | inl e ↦
      rw (e, All)
        (omega arith, All-append IsNonzero acc (blocks [] xs) h (blocks-IsNonzero xs [] tt))
  | inr e ↦
      let more = All-append IsNonzero acc (x ∷ []) h (ground arith, tt) in
      rw (e, All)
        (elim (Bool-cases (length acc + 2 == 255)) [
          | inl f ↦
              rw (f, All)
                (
                  omega arith,
                  All-append IsNonzero _ (blocks [] xs) more (blocks-IsNonzero xs [] tt),
                )
          | inr f ↦ rw (f, All) (blocks-IsNonzero xs (acc ++ (x ∷ [])) more)
        ])
]

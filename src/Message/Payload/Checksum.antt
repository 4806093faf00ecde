-- ===== src/Message/Payload/Checksum.antt =====
-- What the checksum detects.
use c_runtime.Prelude.{ℕ, ◌^◌, ◌<◌, ◌≡◌, ap, ◌∙◌, sym, arith}
use c_runtime.Prelude.{Bool, List, [], ◌∷◌, ◌++◌, All, bit_xor}
use c_runtime.Prelude.Bits.{test_bit, test_bit-xor, bits_ext, bit_xor-lt}
use c_runtime.Message.Payload.{xor_all, checksum}
use mathlib.Core.Bool.{xor}

abbrev pub IsByte : ℕ → Type 0
IsByte x = x < 2 ^ 8

xor_cancel_left : (a b c : Bool) → xor a c ≡ xor b c → a ≡ b
unfolding xor
xor_cancel_left a b c h = ground arith

xor_cancel_right : (a b c : Bool) → xor c a ≡ xor c b → a ≡ b
unfolding xor
xor_cancel_right a b c h = ground arith

bit_xor_cancel_left : (a b c : ℕ) → IsByte a → IsByte b → bit_xor a c ≡ bit_xor b c → a ≡ b
bit_xor_cancel_left a b c p q h = bits_ext 8 a b p q λ i k.
    xor_cancel_left _ _ (test_bit c i)
      (sym (test_bit-xor i a c) ∙ ap (λ t. test_bit t i) h ∙ test_bit-xor i b c)

bit_xor_cancel_right : (a b c : ℕ) → IsByte a → IsByte b → bit_xor c a ≡ bit_xor c b → a ≡ b
bit_xor_cancel_right a b c p q h = bits_ext 8 a b p q λ i k.
    xor_cancel_right _ _ (test_bit c i)
      (sym (test_bit-xor i c a) ∙ ap (λ t. test_bit t i) h ∙ test_bit-xor i c b)

xor_all_cancel :
    (bytes : List ℕ) (a b : ℕ)
    → IsByte a
    → IsByte b
    → All IsByte bytes
    → xor_all a bytes ≡ xor_all b bytes
    → a ≡ b
unfolding xor_all
xor_all_cancel [] a b p q h e = e
xor_all_cancel (x ∷ bytes) a b p q h e = bit_xor_cancel_left a b x p q (
    xor_all_cancel bytes (bit_xor a x) (bit_xor b x) (bit_xor-lt 8 a x p h.0)
      (bit_xor-lt 8 b x q h.0) h.1 e)

xor_all_middle :
    (front back : List ℕ) (c a b : ℕ)
    → IsByte c
    → IsByte a
    → IsByte b
    → All IsByte front
    → All IsByte back
    → xor_all c (front ++ (a ∷ back)) ≡ xor_all c (front ++ (b ∷ back))
    → a ≡ b
unfolding xor_all
xor_all_middle [] back c a b r p q h k e = bit_xor_cancel_right a b c p q (
    xor_all_cancel back (bit_xor c a) (bit_xor c b) (bit_xor-lt 8 c a r p) (bit_xor-lt 8 c b r q) k
      e)
xor_all_middle (x ∷ front) back c a b r p q h k e =
    xor_all_middle front back (bit_xor c x) a b (bit_xor-lt 8 c x r h.0) p q h.1 k e

-- Two packets of bytes that differ in at most one place, and have the same checksum, are equal:
-- every error in a single byte changes the checksum.
pub checksum_detects :
    (front back : List ℕ) (a b : ℕ)
    → IsByte a
    → IsByte b
    → All IsByte front
    → All IsByte back
    → checksum (front ++ (a ∷ back)) ≡ checksum (front ++ (b ∷ back))
    → a ≡ b
unfolding checksum
checksum_detects [] back a b p q h k e = xor_all_cancel back a b p q k (cc e)
checksum_detects (x ∷ front) back a b p q h k e =
    xor_all_middle front back x a b h.0 p q h.1 k (cc e)

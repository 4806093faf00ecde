-- ===== src/NetHandler/TcpConn/Requests.antt =====
-- Which parameters a DEVICE_DATA message from a client asks for, and the end of a connection.
use c_runtime.Prelude.{
  ℕ, zero, suc, ◌+◌, ◌-◌, ◌*◌, ◌%◌, ◌<◌, ◌≤◌, ◌^◌, ◌≡◌, refl, ◌∙◌, arith, inl, inr,
}
use c_runtime.Prelude.{
  Bool, true, false, ◌&&◌, ◌||◌, List, [], ◌∷◌, done, Bool-cases, bit_or, ltb, leb, ◌==◌, length,
  All,
}
use c_runtime.Prelude.Bits.{
  has_bit, has_bit-or, has_bit-zero, has_bit-eq-test_bit, test_bit-pow, pow-lt-32,
}
use c_runtime.NetHandler.Protocol.{Val, no_val, ival, fval, bval, Param}
use c_runtime.NetHandler.TcpConn.{request_bit, requests_loop}

-- A Boolean of the protobuf code is 0 or 1.
abbrev pub IsVal : Val → Type 0
IsVal (bval b) = b < 2
IsVal _ = Unit

-- A parameter is asked for by the Boolean 1.
abbrev pub is_wanted : Val → Bool
is_wanted (bval b) = b == 1
is_wanted _ = false

-- The parameter at an index is asked for.
abbrev pub wants : List Param → ℕ → Bool
wants [] i = false
wants (param ∷ params) zero = is_wanted param.val
wants (param ∷ params) (suc i) = wants params i

has_bit-pow : (i j : ℕ) → has_bit (2 ^ j) i ≡ (j == i)
has_bit-pow i j = has_bit-eq-test_bit i (2 ^ j) ∙ test_bit-pow i j

-- The bit of one parameter.
request_bit_lem :
    (j : ℕ) (val : Val)
    → j < 32
    → IsVal val
    → (bit : ℕ) × (request_bit j val ≡ done bit)
      × ((i : ℕ) → has_bit bit i ≡ (is_wanted val && j == i))
unfolding request_bit
request_bit_lem j no_val h v = (0, refl, has_bit-zero)
request_bit_lem j (ival n) h v = (0, refl, has_bit-zero)
request_bit_lem j (fval n) h v = (0, refl, has_bit-zero)
request_bit_lem j (bval zero) h v = (0, ground (arith, h), has_bit-zero)
request_bit_lem j (bval (suc zero)) h v =
    let small : (1 * 2 ^ j) % 2 ^ 32 ≡ 2 ^ j = omega (arith, pow-lt-32 j h) in
    (2 ^ j, ground (arith, h, small), λ i. has_bit-pow i j)
request_bit_lem j (bval (suc (suc b))) h v = absurd (omega (arith, v))

-- The parameters from `j` on: the first one, and the rest.
wants_more :
    (param : Param) (params : List Param) (i j : ℕ)
    → (leb j i && wants (param ∷ params) (i - j))
      ≡ ((is_wanted param.val && j == i) || (leb (j + 1) i && wants params (i - (j + 1))))
wants_more param params i j = elim (Bool-cases (ltb j i)) [
  | inl e ↦
      let next : i - j ≡ suc (i - (j + 1)) = ground (arith, e) in
      let after : leb j i ≡ true = ground (arith, e) in
      let after' : leb (j + 1) i ≡ true = ground (arith, e) in
      let other : (j == i) ≡ false = ground (arith, e) in
      rw (next, after, after', other) (ground (arith))
  | inr e ↦
      let before : leb (j + 1) i ≡ false = ground (arith, e) in
      elim (Bool-cases (j == i)) [
        | inl f ↦
            let first : i - j ≡ 0 = ground (arith, f) in
            let after : leb j i ≡ true = ground (arith, f) in
            rw (first, after, before, f) (ground (arith))
        | inr f ↦
            let after : leb j i ≡ false = ground (arith, e, f) in
            rw (after, before, f) (ground (arith))
      ]
]

requests_loop_lem :
    (j : ℕ) (params : List Param) (requests : ℕ)
    → j + length params ≤ 32
    → All (λ (param : Param). IsVal param.val) params
    → (r : ℕ) × (requests_loop j params requests ≡ done r)
      × ((i : ℕ) → has_bit r i ≡ (has_bit requests i || (leb j i && wants params (i - j))))
unfolding requests_loop
requests_loop_lem j [] requests h v = (requests, refl, λ i. ground arith)
requests_loop_lem j (param ∷ params) requests h v =
    let bit = request_bit_lem j param.val (omega (arith, h)) v.0 in
    let rest = requests_loop_lem (j + 1) params (bit_or requests bit.0) (omega (arith, h)) v.1 in
    (
      rest.0,
      rw bit.1 rest.1,
      λ i.
          ground
            (arith, rest.2 i, has_bit-or i requests bit.0, bit.2 i, wants_more param params i j),
    )

-- For a device with at most 32 parameters whose Booleans are 0 or 1, the request that is placed has
-- exactly the bits of the parameters with the Boolean 1.
pub requests_wanted :
    (params : List Param)
    → length params ≤ 32
    → All (λ (param : Param). IsVal param.val) params
    → (r : ℕ) × (requests_loop 0 params 0 ≡ done r) × ((i : ℕ) → has_bit r i ≡ wants params i)
requests_wanted params h v =
    let r = requests_loop_lem 0 params 0 (omega (arith, h)) v in
    (r.0, r.1, λ i. ground (arith, r.2 i, has_bit-zero i))

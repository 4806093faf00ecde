-- ===== src/RuntimeUtil/FileIo/Streams.antt =====
-- `readn` over a descriptor that hands out a stream of bytes in pieces of any size.
use c_runtime.Prelude.{ℕ, zero, suc, ◌+◌, ◌-◌, ◌^◌, ◌≤◌, ◌<◌, ◌≡◌, refl, ap, ◌∙◌, arith}
use c_runtime.Prelude.{
  List, ◌++◌, some, done, fault, ◌==◌, length, length-append, length-take, length-drop, take, drop,
  u16, false, [], ◌∷◌,
}
use mathlib.Core.List.{append_assoc}
use c_runtime.Prelude.Blocks.{memcpy_at}
use c_runtime.RuntimeUtil.FileIo.{ReadResult, got, read_error, readn_loop, readn}

pub take-take-drop :
    {A : Type 0} (k r : ℕ) (xs : List A)
    → k ≤ length xs
    → k ≤ r
    → take k xs ++ take (r - k) (drop k xs) ≡ take r xs
take-take-drop zero r xs h q = ap (λ n. take n xs) (omega arith)
take-take-drop (suc k) zero xs h q = absurd (omega arith)
take-take-drop (suc k) (suc r) [] h q = absurd (omega arith)
take-take-drop (suc k) (suc r) (x ∷ xs) h q =
    ap (λ n. x ∷ (take k xs ++ take n (drop k xs))) (omega arith)
    ∙ ap (◌∷◌ x) (take-take-drop k r xs (omega arith) (omega arith))

drop-nil : {A : Type 0} (n : ℕ) → drop {A = A} n [] ≡ []
drop-nil zero = refl
drop-nil (suc n) = refl

pub drop-drop : {A : Type 0} (k r : ℕ) (xs : List A) → k ≤ r → drop (r - k) (drop k xs) ≡ drop r xs
drop-drop zero r xs q = ap (λ n. drop n xs) (omega arith)
drop-drop (suc k) zero xs q = absurd (omega arith)
drop-drop (suc k) (suc r) [] q = drop-nil (suc r - suc k)
drop-drop (suc k) (suc r) (x ∷ xs) q =
    ap (λ n. drop n (drop k xs)) (omega arith) ∙ drop-drop k r xs (omega arith)

-- What `read` promises for a stream: while bytes are pending, a call for `n` of them gives at
-- least one, at most `n`, and leaves the rest.
pub record IsStream {Fd : Type 0} (read_call : Fd → ℕ → ReadResult × Fd) (pending : Fd → List ℕ)
    : Type 0 where
  pub piece :
      (fd : Fd) (n : ℕ)
      → 1 ≤ n
      → 1 ≤ length (pending fd)
      → (k : ℕ) × (1 ≤ k)
        × (k ≤ n)
        × (k ≤ length (pending fd))
        × ((read_call fd n).0 ≡ got (take k (pending fd)))
        × (pending (read_call fd n).1 ≡ drop k (pending fd))

module _ {Fd : Type 0} (read_call : Fd → ℕ → ReadResult × Fd) (pending : Fd → List ℕ)
    (s : IsStream read_call pending) where
  -- One round, which stores the `k` bytes that the call gives.
  readn_round :
      (fuel n r k : ℕ) (w j : List ℕ) (fd : Fd)
      → r < 2 ^ 16
      → 1 ≤ k
      → k ≤ r
      → k ≤ length (pending fd)
      → r ≤ length j
      → (read_call fd r).0 ≡ got (take k (pending fd))
      → readn_loop read_call (suc fuel) n r (length w) (w ++ j) fd
        ≡ readn_loop read_call fuel n
            (r - k)
            (length w + k)
            (w ++ (take k (pending fd) ++ drop k j))
            (read_call fd r).1
  unfolding readn_loop
  readn_round fuel n r k w j fd small one le avail room e =
      let len : length (take k (pending fd)) ≡ k = omega (arith, length-take k (pending fd)) in
      let nonzero : (r == 0) ≡ false = ground arith in
      let count : u16 (length (take k (pending fd))) ≡ k = omega (arith, len) in
      let some_bytes : (k == 0) ≡ false = ground arith in
      let left : u16 (r + 2 ^ 16 - k) ≡ r - k = omega arith in
      let stored = memcpy_at w j (take k (pending fd)) (length w) refl (omega (arith, len)) in
      ground (arith, nonzero, e, stored, len, count, some_bytes, left)

  glue :
      (fuel n r k : ℕ) (w j xs ys : List ℕ) (fd fd' : Fd)
      → k ≤ r
      → k ≤ length xs
      → ys ≡ drop k xs
      → readn_loop read_call fuel n
          (r - k)
          (length (w ++ take k xs))
          ((w ++ take k xs) ++ drop k j)
          fd
        ≡ done (some (n, (w ++ take k xs) ++ (take (r - k) ys ++ drop (r - k) (drop k j)), fd'))
      → readn_loop read_call fuel n (r - k) (length w + k) (w ++ (take k xs ++ drop k j)) fd
        ≡ done (some (n, w ++ (take r xs ++ drop r j), fd'))
  glue fuel n r k w j xs ys fd fd' le avail e run =
      let len : length (w ++ take k xs) ≡ length w + k =
        omega (arith, length-append w (take k xs), length-take k xs) in
      let both : (w ++ take k xs) ++ (take (r - k) ys ++ drop (r - k) (drop k j))
          ≡ w ++ (take r xs ++ drop r j) =
        cc (
          append_assoc w (take k xs) (take (r - k) ys ++ drop (r - k) (drop k j)),
          append_assoc (take k xs) (take (r - k) ys) (drop (r - k) (drop k j)),
          take-take-drop k r xs avail le,
          drop-drop k r j le,
          e,
        ) in
      rw (len, append_assoc w (take k xs) (drop k j), both) at run

  readn_loop_lem :
      (fuel n r : ℕ) (w j : List ℕ) (fd : Fd)
      → r < fuel
      → r < 2 ^ 16
      → r ≤ n
      → r ≤ length (pending fd)
      → r ≤ length j
      → (fd' : Fd) × (readn_loop read_call fuel n r (length w) (w ++ j) fd
          ≡ done (some (n, w ++ (take r (pending fd) ++ drop r j), fd')))
        × (pending fd' ≡ drop r (pending fd))
  unfolding readn_loop
  readn_loop_lem zero n r w j fd f small le avail room = absurd (omega arith)
  readn_loop_lem (suc fuel) n zero w j fd f small le avail room =
      (fd, ap (λ t. done (some (t, w ++ j, fd))) (omega arith), refl)
  readn_loop_lem (suc fuel) n (suc r) w j fd f small le avail room =
      let p = s.piece fd (suc r) (omega arith) (omega arith) in
      let k = p.0 in
      let bytes : List ℕ = take k (pending fd) in
      let len : length bytes ≡ k = omega (arith, length-take k (pending fd), p.3) in
      let step = readn_round fuel n (suc r) k w j fd small p.1 p.2 p.3 room p.4 in
      let rest =
        readn_loop_lem fuel n (suc r - k) (w ++ bytes) (drop k j) (read_call fd (suc r)).1
          (omega (arith, p.1)) (omega arith) (omega arith)
          (rw p.5 (omega (arith, length-drop k (pending fd)))) (omega (arith, length-drop k j)) in
      (
        rest.0,
        step
            ∙ glue fuel n (suc r) k w j (pending fd) (pending (read_call fd (suc r)).1)
                (read_call fd (suc r)).1 rest.0 p.2 p.3 p.5 rest.1,
        rest.2 ∙ ap (drop (suc r - k)) p.5 ∙ drop-drop k (suc r) (pending fd) p.2,
      )

  -- With at least `n` bytes pending on a stream, `n` below 2 ^ 16, fuel above `n` and room for them
  -- in the buffer behind `w`, `readn` returns `n`, puts the next `n` bytes behind `w`, changes no
  -- other byte of the buffer, and leaves the rest of the stream pending, whatever pieces `read`
  -- gives.
  pub readn_lem :
      (fuel n : ℕ) (w j : List ℕ) (fd : Fd)
      → n < fuel
      → n < 2 ^ 16
      → n ≤ length (pending fd)
      → n ≤ length j
      → (fd' : Fd) × (readn read_call fuel fd (w ++ j) (length w) n
          ≡ done (some (n, w ++ (take n (pending fd) ++ drop n j), fd')))
        × (pending fd' ≡ drop n (pending fd))
  unfolding readn
  readn_lem fuel n w j fd f small avail room =
      readn_loop_lem fuel n n w j fd f small (omega arith) avail room

-- After a `read` that fails, the next one that gives a byte stores it out of the bounds of the
-- buffer, for every request of 1 to 65534 bytes and every buffer of at most 65535 bytes.
readn_error_fault :
    {Fd : Type 0} (read_call : Fd → ℕ → ReadResult × Fd) (fuel n at b : ℕ) (bs buf : List ℕ)
    (fd : Fd)
    → 1 ≤ n
    → n < 2 ^ 16 - 1
    → length buf < 2 ^ 16
    → (read_call fd n).0 ≡ read_error
    → (read_call (read_call fd n).1 (n + 1)).0 ≡ got (b ∷ bs)
    → readn read_call (suc (suc fuel)) fd buf at n ≡ fault
unfolding readn readn_loop
readn_error_fault read_call fuel n at b bs buf fd one small room e e' =
    let nonzero : (n == 0) ≡ false = ground arith in
    let next : u16 (n + 2 ^ 16 - (2 ^ 16 - 1)) ≡ n + 1 = omega arith in
    let nonzero' : (n + 1 == 0) ≡ false = ground arith in
    ground (arith, nonzero, e, next, nonzero', e')

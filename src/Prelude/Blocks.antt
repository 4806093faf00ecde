-- ===== src/Prelude/Blocks.antt =====
-- Copies into and out of a block of memory that is split at the place of the copy.
use Prim.Native.Nat.{ℕ, ◌+◌, ◌≤◌}
use Prim.Native.Nat.add
use mathlib.Core.Path.{◌≡◌, refl, ap, ◌∙◌}
use mathlib.Core.List.{List, [], ◌∷◌, ◌++◌}
use mathlib.Core.Option.{some}
use native.Mathlib.Omega.{arith}
use c_runtime.Prelude.Lists.{length, length-append, length-take, length-drop, get_elem?, take, drop}
use c_runtime.Prelude.Results.{Outcome, done, fault, ◌>>=◌, read, slice, memcpy}

module _ {ℓ} {A : Type ℓ} where
  pub take-append : (xs ys : List A) → take (length xs) (xs ++ ys) ≡ xs
  take-append [] ys = refl
  take-append (x ∷ xs) ys = ap (◌∷◌ x) (take-append xs ys)

  pub drop-append : (xs ys : List A) (k : ℕ) → drop (length xs + k) (xs ++ ys) ≡ drop k ys
  drop-append [] ys k = ap (λ t. drop t ys) (add.zero k)
  drop-append (x ∷ xs) ys k =
      ap (λ t. drop t (x ∷ (xs ++ ys))) (add.suc (length xs) k) ∙ drop-append xs ys k

  pub drop-append_zero : (xs ys : List A) → drop (length xs) (xs ++ ys) ≡ ys
  drop-append_zero [] ys = refl
  drop-append_zero (x ∷ xs) ys = drop-append_zero xs ys

  pub get_elem?-append : (xs ys : List A) (y : A) → get_elem? (xs ++ (y ∷ ys)) (length xs) ≡ some y
  get_elem?-append [] ys y = refl
  get_elem?-append (x ∷ xs) ys y = get_elem?-append xs ys y

pub memcpy_at :
    (w j d : List ℕ) (n : ℕ)
    → n ≡ length w
    → length d ≤ length j
    → memcpy (w ++ j) n d ≡ done (w ++ (d ++ drop (length d) j))
memcpy_at w j d n e h =
    rw e (ground (arith, length-append w j, take-append w j, drop-append w j (length d)))

pub slice_at :
    (w m j : List ℕ) (i n : ℕ) → i ≡ length w → n ≡ length m → slice (w ++ (m ++ j)) i n ≡ done m
slice_at w m j i n e f =
    rw (e, f)
      (ground (
        arith,
        length-append w (m ++ j),
        length-append m j,
        drop-append_zero w (m ++ j),
        take-append m j,
      ))

pub read_at : (w j : List ℕ) (x i : ℕ) → i ≡ length w → read (w ++ (x ∷ j)) i ≡ done x
read_at w j x i e = rw (e, get_elem?-append w j x)

pub length-memcpy :
    (a : List ℕ) (i : ℕ) (d b : List ℕ)
    → memcpy a i d ≡ done b
    → (length b ≡ length a) × (i + length d ≤ length a)
length-memcpy a i d b e = ground (
  arith,
  e,
  length-append (take i a) (d ++ drop (i + length d) a),
  length-append d (drop (i + length d) a),
  length-take i a,
  length-drop (i + length d) a,
)

pub length-slice :
    (a : List ℕ) (i n : ℕ) (m : List ℕ) → slice a i n ≡ done m → (length m ≡ n) × (i + n ≤ length a)
length-slice a i n m e = ground (arith, e, length-take n (drop i a), length-drop i a)

-- Inversion of a bind that ends well.
pub >>=-eq-done {ℓ κ} :
    {A : Type ℓ} {B : Type κ} (m : Outcome A) (f : A → Outcome B) {b : B}
    → (m >>= f) ≡ done b
    → (a : A) × (m ≡ done a) × (f a ≡ done b)
>>=-eq-done (done a) f h = (a, refl, h)
>>=-eq-done fault f h = cc

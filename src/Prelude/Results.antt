-- ===== src/Prelude/Results.antt =====
-- The result of C code: a value, or a fault (an access out of bounds or through NULL), after
-- which the language leaves the behaviour undefined.
use Prim.Native.Nat.{ℕ, ◌+◌}
use mathlib.Core.List.{List, ◌++◌}
use mathlib.Core.Option.{Option, none, some}
use c_runtime.Prelude.Tests.{leb, if◌then◌else◌}
use c_runtime.Prelude.Lists.{length, get_elem?, take, drop}

pub data Outcome {ℓ} (A : Type ℓ) : Type ℓ where
  done : A → Outcome A
  fault : Outcome A

infixl 5 ◌>>=◌
abbrev pub ◌>>=◌ {ℓ κ} : {A : Type ℓ} {B : Type κ} → Outcome A → (A → Outcome B) → Outcome B
done a >>= f = f a
fault >>= f = fault

abbrev pub from_option {ℓ} : {A : Type ℓ} → Option A → Outcome A
from_option none = fault
from_option (some a) = done a

-- `a[i]`.
abbrev pub read : List ℕ → ℕ → Outcome ℕ
read a i = from_option (get_elem? a i)

-- The `n` bytes of `a` from index `i`.
abbrev pub slice : List ℕ → ℕ → ℕ → Outcome (List ℕ)
slice a i n = if leb (i + n) (length a) then done (take n (drop i a)) else fault

-- `memcpy` of `bytes` to index `i` of `a`.
abbrev pub memcpy : List ℕ → ℕ → List ℕ → Outcome (List ℕ)
memcpy a i bytes =
    if leb (i + length bytes) (length a)
    then done (take i a ++ (bytes ++ drop (i + length bytes) a))
    else fault

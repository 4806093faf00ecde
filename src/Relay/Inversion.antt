-- ===== src/Relay/Inversion.antt =====
-- Inversion of the steps that may fault or run out of fuel.
use c_runtime.Prelude.{◌≡◌, refl, arith, Outcome, done, fault, Option, none, some}
use c_runtime.Relay.{◌then◌}

-- Inversion of a step that ends well.
pub then-eq-done {ℓ κ} :
    {A : Type ℓ} {B : Type κ} (m : Outcome (Option A)) (f : A → Outcome (Option B)) {b : B}
    → (m then f) ≡ done (some b)
    → (a : A) × (m ≡ done (some a)) × (f a ≡ done (some b))
then-eq-done (done (some a)) f h = (a, refl, h)
then-eq-done (done none) f h = absurd (ground (arith, h))
then-eq-done fault f h = absurd (ground (arith, h))

-- ===== src/RuntimeUtil/Buttons/Bits.antt =====
-- The bits of the buttons and of the keys.
use c_runtime.Prelude.{ℕ, ◌^◌, ◌≤◌, ◌<◌, ◌≡◌, refl, arith, Bool, true, false, get_or}
use c_runtime.Prelude.{
  Outcome, done, fault, ◌==◌, all_below, all_below_sound, if◌then◌else◌, ◌∙◌, ◌↔◌, ltb,
}
use c_runtime.RuntimeUtil.Buttons.{
  button_names, key_names, int_bit, name_bit, get_button_bit, get_key_bit,
}
use Prim.Native.String.{String}

same : Outcome ℕ → Outcome ℕ → Bool
same (done a) (done b) = a == b
same (done a) fault = false
same fault (done b) = false
same fault fault = true

same_inv : (a b : Outcome ℕ) → same a b ≡ true → a ≡ b
unfolding same
same_inv (done a) (done b) h = ground (arith, h)
same_inv (done a) fault h = cc h
same_inv fault (done b) h = cc h
same_inv fault fault h = refl

abbrev pub button : ℕ → String
button i = get_or button_names i ""

abbrev pub key : ℕ → String
key i = get_or key_names i ""

button_table : all_below 17 (λ i. same (get_button_bit (button i)) (int_bit i)) ≡ true
unfolding all_below same get_button_bit name_bit int_bit
button_table = refl

key_table : all_below 47 (λ i. same (get_key_bit (key i)) (int_bit i)) ≡ true
unfolding all_below same get_key_bit name_bit int_bit
key_table = refl

key_bit : (i : ℕ) → i < 47 → get_key_bit (key i) ≡ int_bit i
key_bit i h =
    same_inv _ _ (all_below_sound 47 (λ i. same (get_key_bit (key i)) (int_bit i)) i key_table h)

-- Every one of the 17 gamepad buttons has its own bit, the one of its index.
pub get_button_bit_lem : (i : ℕ) → i < 17 → get_button_bit (button i) ≡ done (2 ^ i)
get_button_bit_lem i h =
    same_inv _ _
      (all_below_sound 17 (λ i. same (get_button_bit (button i)) (int_bit i)) i button_table h)
    ∙ unfold int_bit in ground arith

-- Whether key `i` is past the keys whose bit is that of their index.
narrow : ℕ → Bool
narrow i = if same (get_key_bit (key i)) (done (2 ^ i)) then ltb i 31 else true

narrow_table : all_below 47 narrow ≡ true
unfolding all_below narrow same get_key_bit name_bit int_bit
narrow_table = refl

key_bit_inv : (i : ℕ) → i < 47 → get_key_bit (key i) ≡ done (2 ^ i) → i < 31
unfolding narrow same
key_bit_inv i h e = ground (arith, rw e at (all_below_sound 47 narrow i narrow_table h))

-- Of the 47 keys, exactly the first 31 have the bit of their index: the shift is done in `int`,
-- so that of key 31 is extended by its sign, and that of a later key is undefined.
pub get_key_bit_iff : (i : ℕ) → i < 47 → (get_key_bit (key i) ≡ done (2 ^ i)) ↔ (i < 31)
get_key_bit_iff i h = (key_bit_inv i h, λ k. key_bit i h ∙ unfold int_bit in ground arith)

-- The shift is undefined for every key from the 33rd on.
pub get_key_bit_fault : (i : ℕ) → 32 ≤ i → i < 47 → get_key_bit (key i) ≡ fault
get_key_bit_fault i l h = key_bit i h ∙ unfold int_bit in ground arith

-- ===== src/Lowcar/Devices/Tables.antt =====
-- The devices of the firmware against the tables of runtime_util/runtime_util.c.
use c_runtime.Prelude.{
  ℕ, zero, suc, ◌+◌, ◌/◌, ◌%◌, ◌^◌, ◌<◌, ◌≡◌, refl, arith, List, [], ◌∷◌, ◌++◌, ◌||◌, true, done,
  length, ◌==◌, if◌then◌else◌, u8,
}
use mathlib.Core.Path.{subst}
use c_runtime.Message.Types.{u32_of_bytes}
use c_runtime.RuntimeUtil.Devices.{param_at, dummy_device}
use c_runtime.Message.Build.{value_bytes, existing_params}
use c_runtime.Message.Build.Write.{written_params, subscribed_params}
use c_runtime.Message.Build.Masks.{
  has_bit-existing_params, has_bit-readable_params, has_bit-writeable_params,
}
use c_runtime.Prelude.Bits.{has_bit}
use c_runtime.Lowcar.Devices.{Floats}
use c_runtime.Lowcar.Devices.Dummy.{DummyDevice, dummy_read, dummy_write}

-- A property of each of `n` numbers from `i` on.
abbrev Each : (ℕ → Type 0) → ℕ → ℕ → Type 0
Each P zero i = Unit
Each P (suc n) i = P i × Each P n (suc i)

each_lem : (P : ℕ → Type 0) (n i k : ℕ) → Each P n i → k < n → P (k + i)
each_lem P zero i k h below = absurd (omega arith)
each_lem P (suc n) i zero h below = subst P (let e : i ≡ 0 + i = omega arith in e) h.0
each_lem P (suc n) i (suc k) h below =
    subst P (let e : k + suc i ≡ suc k + i = omega arith in e)
      (each_lem P n (suc i) k h.1 (omega arith))

-- The field of a parameter, and the device after the field is assigned.
abbrev pub dummy_get : ℕ → DummyDevice → ℕ
dummy_get i self =
    if i == 0
    then self.runtime
    else if i == 1
    then self.shepherd
    else if i == 2
    then self.dawn
    else if i == 3
    then self.devops
    else if i == 4
    then self.atlas
    else if i == 5
    then self.infra
    else if i == 6
    then self.sens
    else if i == 7
    then self.pdb
    else if i == 8
    then self.mech
    else if i == 9
    then self.cpr
    else if i == 10
    then self.edu
    else if i == 11
    then self.exec
    else if i == 12
    then self.pief
    else if i == 13
    then self.funtime
    else if i == 14
    then self.sheep
    else self.dusk

abbrev pub dummy_set : ℕ → ℕ → DummyDevice → DummyDevice
dummy_set i v self =
    if i == 6
    then record self { sens = v }
    else if i == 7
    then record self { pdb = v }
    else if i == 8
    then record self { mech = u8 v }
    else if i == 9
    then record self { cpr = v }
    else if i == 10
    then record self { edu = v }
    else if i == 11
    then record self { exec = u8 v }
    else if i == 12
    then record self { pief = v }
    else if i == 13
    then record self { funtime = v }
    else if i == 14
    then record self { sheep = u8 v }
    else if i == 15
    then record self { dusk = v }
    else self

module _ {F : Type 0} (floats : Floats F) (self : DummyDevice) (v : ℕ) (rest : List ℕ) where
  abbrev Reads : ℕ → Type 0
  Reads i =
      dummy_read floats i self
      ≡ done (
        (if (param_at dummy_device i).read == 1
            then value_bytes (param_at dummy_device i).type (dummy_get i self)
            else []),
        self,
      )

  abbrev Writes : ℕ → Type 0
  Writes i =
      dummy_write floats i (value_bytes (param_at dummy_device i).type v ++ rest) self
      ≡ done (
          if (param_at dummy_device i).write == 1
          then (length (value_bytes (param_at dummy_device i).type v), dummy_set i v self)
          else (0, self))

  fields_readable : Each Reads 16 0
  unfolding dummy_read
  fields_readable = (
    refl,
    (
      refl,
      (
        refl,
        (
          refl,
          (
            refl,
            (
              refl,
              (refl, (refl, (refl, (refl, (refl, (refl, (refl, (refl, (refl, (refl, tt)))))))))),
            ),
          ),
        ),
      ),
    ),
  )

  fields_writable : v < 2 ^ 32 → Each Writes 16 0
  unfolding dummy_write
  fields_writable h =
      let word : u32_of_bytes (v % 256) (v / 256 % 256) (v / 65536 % 256) (v / 16777216 % 256) ≡ v =
        omega arith in
      rw word (
        refl,
        (
          refl,
          (
            refl,
            (
              refl,
              (
                refl,
                (
                  refl,
                  (
                    refl,
                    (refl, (refl, (refl, (refl, (refl, (refl, (refl, (refl, (refl, tt))))))))),
                  ),
                ),
              ),
            ),
          ),
        ),
      )

  -- What a field holds after it is assigned.
  abbrev Keeps : ℕ → Type 0
  Keeps i = value_bytes (param_at dummy_device i).type (dummy_get i (dummy_set i v self)) ≡ (
      if (param_at dummy_device i).write == 1
      then value_bytes (param_at dummy_device i).type v
      else value_bytes (param_at dummy_device i).type (dummy_get i self))

  fields_kept : Each Keeps 16 0
  fields_kept =
      let byte : u8 v % 256 ∷ [] ≡ v % 256 ∷ [] = ground arith in
      (
        refl,
        (
          refl,
          (
            refl,
            (
              refl,
              (
                refl,
                (
                  refl,
                  (
                    refl,
                    (refl, (byte, (refl, (refl, (byte, (refl, (refl, (byte, (refl, tt))))))))),
                  ),
                ),
              ),
            ),
          ),
        ),
      )

-- DummyDevice implements its table of the runtime. For each of its 16 parameters, and a value of
-- 32 bits: `device_read` gives the bytes of the field in the type of the table if the table has
-- it readable, and none else; `device_write` of the bytes of the value assigns it to the field
-- and takes just these bytes if the table has it writeable, and nothing else; and the field then
-- holds what was written.
pub dummy_device_lem :
    {F : Type 0} (floats : Floats F) (self : DummyDevice) (v : ℕ) (rest : List ℕ) (i : ℕ)
    → i < 16
    → v < 2 ^ 32
    → let param = param_at dummy_device i in
      (dummy_read floats i self
        ≡ done ((if param.read == 1 then value_bytes param.type (dummy_get i self) else []), self))
      × (dummy_write floats i (value_bytes param.type v ++ rest) self
          ≡ done (
              if param.write == 1
              then (length (value_bytes param.type v), dummy_set i v self)
              else (0, self)))
      × (value_bytes param.type (dummy_get i (dummy_set i v self)) ≡ (
          if param.write == 1
          then value_bytes param.type v
          else value_bytes param.type (dummy_get i self)))
dummy_device_lem floats self v rest i below small =
    let e : i + 0 ≡ i = omega arith in
    (
      subst (Reads floats self v rest) e
          (each_lem (Reads floats self v rest) 16 0 i (fields_readable floats self v rest) below),
      subst (Writes floats self v rest) e (
          each_lem (Writes floats self v rest) 16 0 i (fields_writable floats self v rest small)
            below),
      subst (Keeps floats self v rest) e
          (each_lem (Keeps floats self v rest) 16 0 i (fields_kept floats self v rest) below),
    )

-- The table marks a parameter by 0 or by 1.
abbrev IsMarked : ℕ → Type 0
IsMarked i =
    (((param_at dummy_device i).write == 0) || ((param_at dummy_device i).write == 1)) ≡ true

dummy_marks : Each IsMarked 16 0
dummy_marks = (
  refl,
  (
    refl,
    (
      refl,
      (
        refl,
        (
          refl,
          (
            refl,
            (refl, (refl, (refl, (refl, (refl, (refl, (refl, (refl, (refl, (refl, tt)))))))))),
          ),
        ),
      ),
    ),
  ),
)

-- A parameter that a DEVICE_WRITE names is one of the table, and writeable.
pub dummy_written :
    (pmap i : ℕ)
    → i < 32
    → has_bit (written_params dummy_device pmap) i ≡ true
    → (i < 16) × ((param_at dummy_device i).write == 1 ≡ true)
dummy_written pmap i below on =
    let p : ℕ = existing_params dummy_device pmap in
    let a = has_bit-writeable_params dummy_device 32 0 p i (omega arith) below in
    let b = has_bit-existing_params dummy_device pmap i (omega arith) in
    let c : i < 16 = ground (arith, a, b) in
    let e : i + 0 ≡ i = omega arith in
    let m = subst IsMarked e (each_lem IsMarked 16 0 i dummy_marks c) in (c, ground (arith, a, m))

-- What the bytes of a value do, for such a parameter.
pub dummy_write_lem :
    {F : Type 0} (floats : Floats F) (pmap : ℕ) (values : ℕ → ℕ) (i : ℕ) (rest : List ℕ)
    (self : DummyDevice)
    → ((j : ℕ) → values j < 2 ^ 32)
    → i < 32
    → has_bit (written_params dummy_device pmap) i ≡ true
    → dummy_write floats i (value_bytes (param_at dummy_device i).type (values i) ++ rest) self
      ≡ done (
        length (value_bytes (param_at dummy_device i).type (values i)),
        dummy_set i (values i) self,
      )
dummy_write_lem floats pmap values i rest self words below on =
    let k = dummy_written pmap i below on in
    rw k.1 at ((dummy_device_lem floats self (values i) rest i k.0 (words i)).1)

-- The same for the parameters that can be subscribed to.
abbrev IsReadMarked : ℕ → Type 0
IsReadMarked i =
    (((param_at dummy_device i).read == 0) || ((param_at dummy_device i).read == 1)) ≡ true

dummy_read_marks : Each IsReadMarked 16 0
dummy_read_marks = (
  refl,
  (
    refl,
    (
      refl,
      (
        refl,
        (
          refl,
          (
            refl,
            (refl, (refl, (refl, (refl, (refl, (refl, (refl, (refl, (refl, (refl, tt)))))))))),
          ),
        ),
      ),
    ),
  ),
)

dummy_subscribed :
    (pmap i : ℕ)
    → i < 32
    → has_bit (subscribed_params dummy_device pmap) i ≡ true
    → (i < 16) × ((param_at dummy_device i).read == 1 ≡ true)
dummy_subscribed pmap i below on =
    let p : ℕ = existing_params dummy_device pmap in
    let a = has_bit-readable_params dummy_device 32 0 p i (omega arith) below in
    let b = has_bit-existing_params dummy_device pmap i (omega arith) in
    let c : i < 16 = ground (arith, a, b) in
    let e : i + 0 ≡ i = omega arith in
    let m = subst IsReadMarked e (each_lem IsReadMarked 16 0 i dummy_read_marks c) in
    (c, ground (arith, a, m))

pub dummy_read_lem :
    {F : Type 0} (floats : Floats F) (pmap i : ℕ) (self : DummyDevice)
    → i < 32
    → has_bit (subscribed_params dummy_device pmap) i ≡ true
    → dummy_read floats i self
      ≡ done (value_bytes (param_at dummy_device i).type (dummy_get i self), self)
dummy_read_lem floats pmap i self below on =
    let k = dummy_subscribed pmap i below on in
    rw k.1 at ((dummy_device_lem floats self 0 [] i k.0 (omega arith)).0)

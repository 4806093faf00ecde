-- ===== src/Lowcar/Devices/Dummy.antt =====
-- lowcar/devices/DummyDevice/DummyDevice.cpp.
use c_runtime.Prelude.{
  ℕ, ◌+◌, ◌-◌, ◌%◌, ◌^◌, List, [], ◌∷◌, Outcome, done, ◌>>=◌, ltb, ◌==◌, if◌then◌else◌, u8,
}
use c_runtime.Message.Types.{bytes_of_u32}
use c_runtime.Lowcar.Params.{Methods}
use c_runtime.Lowcar.Devices.{Floats, word_at, byte_at}
use Prim.Native.String.{String}

-- The fields; `clock` is what `millis` returns, and `last_update_time` the static variable.
pub record DummyDevice : Type 0 where
  pub runtime : ℕ
  pub shepherd : ℕ
  pub dawn : ℕ
  pub devops : ℕ
  pub atlas : ℕ
  pub infra : ℕ
  pub sens : ℕ
  pub pdb : ℕ
  pub mech : ℕ
  pub cpr : ℕ
  pub edu : ℕ
  pub exec : ℕ
  pub pief : ℕ
  pub funtime : ℕ
  pub sheep : ℕ
  pub dusk : ℕ
  pub last_update_time : ℕ
  pub clock : ℕ

module _ {F : Type 0} (floats : Floats F) where
  -- The constructor.
  unfoldable pub new_dummy : ℕ → DummyDevice
  new_dummy clock = record {
    runtime = 1;
    shepherd = floats.to_float (floats.literal "0.1");
    dawn = 1;
    devops = 1;
    atlas = floats.to_float (floats.literal "0.1");
    infra = 1;
    sens = 0;
    pdb = floats.to_float (floats.literal "-0.1");
    mech = 0;
    cpr = 0;
    edu = floats.to_float (floats.literal "0.0");
    exec = 0;
    pief = 0;
    funtime = floats.to_float (floats.literal "-0.1");
    sheep = 0;
    dusk = 0;
    last_update_time = 0;
    clock = clock;
  }

  unfoldable pub dummy_read : ℕ → DummyDevice → Outcome (List ℕ × DummyDevice)
  dummy_read param self =
      if param == 0
      then done (bytes_of_u32 self.runtime, self)
      else if param == 1
      then done (bytes_of_u32 self.shepherd, self)
      else if param == 2
      then done (u8 self.dawn ∷ [], self)
      else if param == 3
      then done (bytes_of_u32 self.devops, self)
      else if param == 4
      then done (bytes_of_u32 self.atlas, self)
      else if param == 5
      then done (u8 self.infra ∷ [], self)
      else if param == 12
      then done (bytes_of_u32 self.pief, self)
      else if param == 13
      then done (bytes_of_u32 self.funtime, self)
      else if param == 14
      then done (u8 self.sheep ∷ [], self)
      else if param == 15
      then done (bytes_of_u32 self.dusk, self)
      else done ([], self)

  unfoldable pub dummy_write : ℕ → List ℕ → DummyDevice → Outcome (ℕ × DummyDevice)
  dummy_write param data_buf self =
      if param == 6
      then word_at data_buf >>= (λ x. done (4, record self { sens = x }))
      else if param == 7
      then word_at data_buf >>= (λ x. done (4, record self { pdb = x }))
      else if param == 8
      then byte_at data_buf >>= (λ x. done (1, record self { mech = x }))
      else if param == 9
      then word_at data_buf >>= (λ x. done (4, record self { cpr = x }))
      else if param == 10
      then word_at data_buf >>= (λ x. done (4, record self { edu = x }))
      else if param == 11
      then byte_at data_buf >>= (λ x. done (1, record self { exec = x }))
      else if param == 12
      then word_at data_buf >>= (λ x. done (4, record self { pief = x }))
      else if param == 13
      then word_at data_buf >>= (λ x. done (4, record self { funtime = x }))
      else if param == 14
      then byte_at data_buf >>= (λ x. done (1, record self { sheep = x }))
      else if param == 15
      then word_at data_buf >>= (λ x. done (4, record self { dusk = x }))
      else done (0, self)

  -- The texts are those of the source's formats.
  unfoldable pub dummy_enable :
      (String → List ℕ → List ℕ) → DummyDevice → List (List ℕ) × DummyDevice
  dummy_enable vsprintf self = (vsprintf "DUMMY DEVICE ENABLED" [] ∷ [], self)

  unfoldable pub dummy_actions : DummyDevice → List (List ℕ) × DummyDevice
  dummy_actions self =
      if ltb 500 ((self.clock + 2 ^ 64 - self.last_update_time) % 2 ^ 64)
      then (
        [],
        record self {
          runtime = (self.runtime + 2) % 2 ^ 32;
          shepherd =
              floats.to_float (floats.add (floats.of_float self.shepherd) (floats.literal "1.9"));
          dawn = if self.dawn == 0 then 1 else 0;
          devops = (self.devops + 1) % 2 ^ 32;
          atlas = floats.to_float (floats.add (floats.of_float self.atlas) (floats.literal "0.9"));
          infra = 1;
          last_update_time = self.clock;
        },
      )
      else ([], self)

  -- `device_reset` is not overridden.
  unfoldable pub dummy_methods : (String → List ℕ → List ℕ) → Methods DummyDevice
  dummy_methods vsprintf = record {
    device_read = dummy_read;
    device_write = dummy_write;
    device_enable = dummy_enable vsprintf;
    device_reset = λ self. ([], self);
    device_actions = dummy_actions;
  }

-- ===== src/Lowcar/Device/Runs.antt =====
-- The states that the loop of a device reaches, in lowcar/devices/Device/Device.cpp.
use c_runtime.Prelude.{ℕ, ◌<◌, ◌≡◌, ◌⊎◌, inl, refl, arith, true, List, done, some}
use Prim.Native.String.{String}
use c_runtime.Lowcar.Types.{LowcarMessage, Port}
use c_runtime.Lowcar.Params.{Methods}
use c_runtime.Lowcar.Device.{DeviceState, new_device, set_uid, elapsed, is_timed_out, loop}
use c_runtime.Lowcar.Device.Timeout.{HasInterval, loop_lem}

module _ (w : ℕ) (vsprintf : String → List ℕ → List ℕ) {S : Type 0} (port : Port S)
    (garbage : ℕ → List ℕ) {D : Type 0} (methods : Methods D) where
  -- From the constructor on, by `set_uid`, by iterations of the loop at any times, and by whatever
  -- happens at the port and the pins in between.
  pub data Reachable : DeviceState D → S → Type 0 where
    constructed :
        (dev_id dev_year timeout now : ℕ) (msg : LowcarMessage) (own : D) (s : S)
        → Reachable (new_device dev_id dev_year timeout msg now own) s
    given_uid :
        {self : DeviceState D} {s : S} (uid : ℕ) → Reachable self s → Reachable (set_uid self uid) s
    iterated :
        {self self' : DeviceState D} {s s' : S} (fuel now : ℕ)
        → Reachable self s
        → loop w vsprintf port garbage methods fuel self now s ≡ done (some (self', s'))
        → Reachable self' s'
    disturbed :
        {self : DeviceState D} {s : S} (own : D) (s' : S)
        → Reachable self s
        → Reachable (record self { own = own }) s'

  -- In every state that a device reaches, it has no subscription or an interval between the
  -- bounds of 40 and 500 milliseconds.
  pub Reachable-HasInterval : {self : DeviceState D} {s : S} → Reachable self s → HasInterval self
  unfolding new_device set_uid
  Reachable-HasInterval (constructed dev_id dev_year timeout now msg own s) = inl refl
  Reachable-HasInterval (given_uid uid r) = Reachable-HasInterval r
  Reachable-HasInterval (iterated {self} {self'} {s} {s'} fuel now r e) =
      (loop_lem w vsprintf port garbage methods fuel self self' now s s' e
        (Reachable-HasInterval r)).0
  Reachable-HasInterval (disturbed own s' r) = Reachable-HasInterval r

  -- A device that is enabled after an iteration of its loop, in a state that it reaches, has no
  -- time-out or was pinged within it.
  pub loop-Reachable :
      (fuel now : ℕ) (self self' : DeviceState D) (s s' : S)
      → Reachable self s
      → loop w vsprintf port garbage methods fuel self now s ≡ done (some (self', s'))
      → self'.enabled ≡ true
      → (self'.timeout ≡ 0) ⊎ (elapsed now self'.last_received_ping_time < self'.timeout)
  unfolding is_timed_out
  loop-Reachable fuel now self self' s s' r e on =
      let k =
        (loop_lem w vsprintf port garbage methods fuel self self' now s s' e
            (Reachable-HasInterval r)).1
          on in
      ground (arith, k)

-- ===== src/Shm/Devices/Places.antt =====
-- The places of the catalog: what `device_connect` and `get_dev_ix_from_uid` find.
use c_runtime.Prelude.{
  ℕ, zero, suc, ◌+◌, ◌-◌, ◌≤◌, ◌<◌, ◌^◌, ◌≡◌, ◌≢◌, ◌⊎◌, inl, inr, refl, ap, ◌∙◌, arith,
}
use c_runtime.Prelude.{
  true, false, ◌&&◌, ◌||◌, Option, none, some, ◌==◌, if◌then◌else◌, ltb, leb, update, Bool-cases,
  Option-cases,
}
use c_runtime.Prelude.Bits.{has_bit, has_bit-set, has_bit-clear}
use c_runtime.RuntimeUtil.Types.{DevId, ParamVal}
use c_runtime.Shm.Types.{DevShm, Shm, Stream, data_stream, command_stream}
use c_runtime.Shm.Devices.{
  find_free, find_uid, reset_row, connect_at, device_connect, get_dev_ix_from_uid,
}

-- `k` is the first free place from `i` on, or the end of the `left` places that were searched.
pub record IsFirstFree (left i catalog k : ℕ) : Type 0 where
  pub after : i ≤ k
  pub before : k ≤ i + left
  pub taken : (j : ℕ) → i ≤ j → j < k → has_bit catalog j ≡ true
  pub free : k < i + left → has_bit catalog k ≡ false

pub find_free-IsFirstFree :
    (left i catalog : ℕ) → IsFirstFree left i catalog (find_free left i catalog)
unfolding find_free
find_free-IsFirstFree zero i catalog = record {
  after = omega arith;
  before = omega arith;
  taken = λ j p q. absurd (omega arith);
  free = λ h. absurd (omega arith);
}
find_free-IsFirstFree (suc left) i catalog = elim (Bool-cases (has_bit catalog i)) [
  | inl e ↦
      let r = find_free-IsFirstFree left (i + 1) catalog in
      rw e (record {
        after = omega (arith, r.after);
        before = omega (arith, r.before);
        taken = λ j p q. ground (arith, e, r.taken j);
        free = λ h. r.free (omega arith);
      })
  | inr e ↦ rw e (record {
    after = omega arith;
    before = omega arith;
    taken = λ j p q. absurd (omega arith);
    free = λ h. e;
  })
]

reset_row_lem :
    (left i : ℕ) (row : ℕ → ParamVal) (j : ℕ)
    → reset_row left i row j ≡ (if leb i j && ltb j (i + left) then 0 else row j)
unfolding reset_row
reset_row_lem zero i row j = ground arith
reset_row_lem (suc left) i row j = ground (arith, reset_row_lem left (i + 1) (update row i 0) j)

-- The device at place `ix` is the new one, with nothing of an earlier device left, and nothing
-- else has changed.
pub record IsConnected (dev_id : DevId) (ix : ℕ) (d d' : DevShm) : Type 0 where
  pub listed : (j : ℕ) → has_bit d'.catalog j ≡ (has_bit d.catalog j || ix == j)
  pub identified : d'.dev_ids ix ≡ dev_id
  pub reset : (s : Stream) (j : ℕ) → j < 32 → d'.params s ix j ≡ 0
  pub net_subscribed :
      (d'.net_sub_map (ix + 1) ≡ 2 ^ 32 - 1) × (has_bit (d'.net_sub_map 0) ix ≡ true)
  pub exec_unsubscribed : (d'.exec_sub_map (ix + 1) ≡ 0) × (has_bit (d'.exec_sub_map 0) ix ≡ false)
  pub same_commands : d'.cmd_map ≡ d.cmd_map
  pub same_others :
      (k : ℕ)
      → k ≢ ix
      → (d'.dev_ids k ≡ d.dev_ids k)
        × ((s : Stream) → d'.params s k ≡ d.params s k)
        × (d'.net_sub_map (k + 1) ≡ d.net_sub_map (k + 1))
        × (d'.exec_sub_map (k + 1) ≡ d.exec_sub_map (k + 1))

connect_rows :
    (dev_id : DevId) (ix : ℕ) (d : DevShm) (s : Stream) (j : ℕ)
    → j < 32
    → (connect_at dev_id ix d).params s ix j ≡ 0
unfolding connect_at
connect_rows dev_id ix d data_stream j h =
    ground (arith, reset_row_lem 32 0 (d.params data_stream ix) j)
connect_rows dev_id ix d command_stream j h =
    ground (arith, reset_row_lem 32 0 (d.params command_stream ix) j)

connect_others :
    (dev_id : DevId) (ix : ℕ) (d : DevShm) (k : ℕ) (s : Stream)
    → k ≢ ix
    → (connect_at dev_id ix d).params s k ≡ d.params s k
unfolding connect_at
connect_others dev_id ix d k data_stream ne = ground arith
connect_others dev_id ix d k command_stream ne = ground arith

pub connect_at-IsConnected :
    (dev_id : DevId) (ix : ℕ) (d : DevShm)
    → ix < 32
    → IsConnected dev_id ix d (connect_at dev_id ix d)
unfolding connect_at
connect_at-IsConnected dev_id ix d h = record {
  listed = λ j. has_bit-set j ix d.catalog;
  identified = ground arith;
  reset = connect_rows dev_id ix d;
  net_subscribed = (ground arith, ground (arith, has_bit-set ix ix (d.net_sub_map 0)));
  exec_unsubscribed = (ground arith, ground (arith, has_bit-clear ix ix (d.exec_sub_map 0) h h));
  same_commands = refl;
  same_others =
      λ k ne. (ground arith, λ s. connect_others dev_id ix d k s ne, ground arith, ground arith);
}

-- What `device_connect` leaves behind: either every place was taken, the result is -1 and the
-- devices are as before; or the result is the first free place, which the new device now has.
pub device_connect_cases :
    (dev_id : DevId) (m : Shm)
    → (((device_connect dev_id m).1 ≡ none)
        × ((device_connect dev_id m).0.dev ≡ m.dev)
        × ((j : ℕ) → j < 32 → has_bit m.dev.catalog j ≡ true))
      ⊎ ((ix : ℕ) × (ix < 32)
          × ((device_connect dev_id m).1 ≡ some ix)
          × (has_bit m.dev.catalog ix ≡ false)
          × ((j : ℕ) → j < ix → has_bit m.dev.catalog j ≡ true)
          × ((device_connect dev_id m).0.dev ≡ connect_at dev_id ix m.dev)
          × IsConnected dev_id ix m.dev (device_connect dev_id m).0.dev)
unfolding device_connect
device_connect_cases dev_id m =
    let f = find_free-IsFirstFree 32 0 m.dev.catalog in
    elim (Bool-cases (find_free 32 0 m.dev.catalog == 32)) [
      | inl e ↦ inl (rw e, rw e, λ j h. f.taken j (omega arith) (ground (arith, e)))
      | inr e ↦
          let ix = find_free 32 0 m.dev.catalog in
          let h : ix < 32 = ground (arith, e, f.before) in
          inr (
            ix,
            h,
            rw e,
            f.free (omega arith),
            λ j k. f.taken j (omega arith) k,
            rw e,
            rw e (connect_at-IsConnected dev_id ix m.dev h),
          )
    ]

-- What a search by uid finds.
abbrev pub Found : ℕ → ℕ → ℕ → DevShm → Option ℕ → Type 0
Found left i uid d none =
    (j : ℕ) → i ≤ j → j < i + left → has_bit d.catalog j ≡ true → (d.dev_ids j).uid ≢ uid
Found left i uid d (some k) =
    (i ≤ k)
    × (k < i + left)
    × (has_bit d.catalog k ≡ true)
    × ((d.dev_ids k).uid ≡ uid)
    × ((j : ℕ) → i ≤ j → j < k → has_bit d.catalog j ≡ true → (d.dev_ids j).uid ≢ uid)

Found-skip :
    (left i uid : ℕ) (d : DevShm) (o : Option ℕ)
    → (has_bit d.catalog i ≡ true → (d.dev_ids i).uid ≢ uid)
    → Found left (i + 1) uid d o
    → Found (suc left) i uid d o
Found-skip left i uid d none h f = λ j p q c. ground (arith, h, f j, c)
Found-skip left i uid d (some k) h f =
    (omega (arith, f.0), omega (arith, f.1), f.2, f.3, λ j p q c. ground (arith, h, f.4 j, c))

find_uid-Found : (left i uid : ℕ) (d : DevShm) → Found left i uid d (find_uid left i uid d)
unfolding find_uid
find_uid-Found zero i uid d = λ j p q. absurd (omega arith)
find_uid-Found (suc left) i uid d =
    elim (Bool-cases (has_bit d.catalog i && ((d.dev_ids i).uid == uid))) [
      | inl e ↦
          rw (e, Found)
            (
              omega arith,
              omega arith,
              ground (arith, e),
              ground (arith, e),
              λ j p q. absurd (omega arith),
            )
      | inr e ↦
          rw (e, Found)
            (Found-skip left i uid d _ (λ c u. ground (arith, e, c, u))
              (find_uid-Found left (i + 1) uid d))
    ]

-- `get_dev_ix_from_uid` gives the first place in the catalog whose device has the uid, and -1
-- exactly when no connected device has it.
pub get_dev_ix_from_uid-Found :
    (uid : ℕ) (m : Shm) → Found 32 0 uid m.dev (get_dev_ix_from_uid uid m)
unfolding get_dev_ix_from_uid
get_dev_ix_from_uid-Found uid m = find_uid-Found 32 0 uid m.dev

-- No two connected devices have the same uid.
abbrev pub HasUniqueUids : DevShm → Type 0
HasUniqueUids d =
    (i j : ℕ)
    → i < 32
    → j < 32
    → has_bit d.catalog i ≡ true
    → has_bit d.catalog j ≡ true
    → (d.dev_ids i).uid ≡ (d.dev_ids j).uid
    → i ≡ j

-- The place that a search by uid finds is the one that has it, where no two share one.
pub unique_place :
    (i : ℕ) (m : Shm)
    → HasUniqueUids m.dev
    → i < 32
    → has_bit m.dev.catalog i ≡ true
    → get_dev_ix_from_uid (m.dev.dev_ids i).uid m ≡ some i
unique_place i m unique h c =
    let uid : ℕ = (m.dev.dev_ids i).uid in
    elim (Option-cases (get_dev_ix_from_uid uid m)) [
      | inl e ↦
          let f : Found 32 0 uid m.dev none = rw e at (get_dev_ix_from_uid-Found uid m) in
          absurd (f i (omega arith) (omega arith) c refl)
      | inr (k, e) ↦
          let f : Found 32 0 uid m.dev (some k) = rw e at (get_dev_ix_from_uid-Found uid m) in
          e ∙ ap some (unique k i (omega (arith, f.1)) h f.2 c f.3)
    ]

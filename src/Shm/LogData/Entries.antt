-- ===== src/Shm/LogData/Entries.antt =====
-- The entries of the log data after a write, and its semaphore.
use c_runtime.Prelude.{ℕ, zero, suc, ◌+◌, ◌≤◌, ◌<◌, ◌≡◌, ◌≢◌, ◌↔◌, ◌⊎◌, inl, inr, refl, sym, arith}
use c_runtime.Prelude.{true, List, [], ◌∷◌, ◌==◌, leb, length, Bool-cases}
use c_runtime.RuntimeUtil.Types.{ParamType, ParamVal}
use c_runtime.Shm.Types.{Shm, LogData, wait, post, log_data_sem}
use c_runtime.Shm.LogData.{same_key, find_key, stored, put_entry, log_data_write}

same_key_iff : (a b : List ℕ) → (same_key a b ≡ true) ↔ (a ≡ b)
unfolding same_key
same_key_iff [] [] = (λ e. refl, λ e. refl)
same_key_iff [] (y ∷ ys) = (λ e. cc, λ e. cc)
same_key_iff (x ∷ xs) [] = (λ e. cc, λ e. cc)
same_key_iff (x ∷ xs) (y ∷ ys) = ground (arith, same_key_iff xs ys)

-- `k` is the first index from `i` on that has the key, or the end of the `left` names searched.
pub record IsKeyIndex (left i : ℕ) (key : List ℕ) (l : LogData) (k : ℕ) : Type 0 where
  pub after : i ≤ k
  pub before : k ≤ i + left
  pub first : (j : ℕ) → i ≤ j → j < k → l.names j ≢ key
  pub found : k < i + left → l.names k ≡ key

find_key-IsKeyIndex :
    (left i : ℕ) (key : List ℕ) (l : LogData) → IsKeyIndex left i key l (find_key left i key l)
unfolding find_key
find_key-IsKeyIndex zero i key l = record {
  after = omega arith;
  before = omega arith;
  first = λ j p q. absurd (omega arith);
  found = λ h. absurd (omega arith);
}
find_key-IsKeyIndex (suc left) i key l = elim (Bool-cases (same_key key (l.names i))) [
  | inl e ↦ rw e (record {
    after = omega arith;
    before = omega arith;
    first = λ j p q. absurd (omega arith);
    found = λ h. sym ((same_key_iff key (l.names i)).0 e);
  })
  | inr e ↦
      let r = find_key-IsKeyIndex left (i + 1) key l in
      rw e (record {
        after = omega (arith, r.after);
        before = omega (arith, r.before);
        first = λ j p q n. ground (arith, e, r.first j, n, same_key_iff key (l.names i));
        found = λ h. r.found (omega arith);
      })
]

-- The semaphore is released exactly when the write succeeds: on a full table and on a key that
-- is too long, `log_data_write` returns with the semaphore still taken and the data unchanged.
pub log_data_write_events :
    (key : List ℕ) (type : ParamType) (value : ParamVal) (m : Shm)
    → let r = log_data_write key type value m in
      ((r.1 ≡ stored) × (r.0.events ≡ post log_data_sem ∷ wait log_data_sem ∷ m.events))
      ⊎ ((r.1 ≢ stored) × (r.0.events ≡ wait log_data_sem ∷ m.events) × (r.0.log_data ≡ m.log_data))
unfolding log_data_write
log_data_write_events key type value m =
    let idx = find_key m.log_data.num_params 0 key m.log_data in
    elim (Bool-cases (idx == 255)) [
      | inl e ↦ inr (ground (arith, e), ground (arith, e), ground (arith, e))
      | inr e ↦ elim (Bool-cases (leb 64 (length key))) [
        | inl f ↦ inr (ground (arith, e, f), ground (arith, e, f), ground (arith, e, f))
        | inr f ↦ inl (ground (arith, e, f), ground (arith, e, f))
      ]
    ]

-- The log data that the code keeps: at most 255 entries, no key twice, and each key with its
-- closing zero within its 64 bytes.
pub record IsLogData (l : LogData) : Type 0 where
  pub bounded : l.num_params ≤ 255
  pub short : (j : ℕ) → j < l.num_params → length (l.names j) < 64
  pub distinct : (i j : ℕ) → i < j → j < l.num_params → l.names i ≢ l.names j

module _ (idx : ℕ) (key : List ℕ) (type : ParamType) (value : ParamVal) (l : LogData)
    (v : IsLogData l) (f : IsKeyIndex l.num_params 0 key l idx) (room : idx ≢ 255) where
  abbrev l' : LogData
  l' = put_entry idx key type value l

  put_entry-count : (idx < l'.num_params) × (l'.num_params ≤ 255)
  unfolding put_entry
  put_entry-count = ground (arith, v.bounded, f.before, room)

  put_entry-short : length key < 64 → (j : ℕ) → j < l'.num_params → length (l'.names j) < 64
  unfolding put_entry
  put_entry-short h j k = ground (arith, h, v.bounded, f.before, v.short j)

  put_entry-distinct : (i j : ℕ) → i < j → j < l'.num_params → l'.names i ≢ l'.names j
  unfolding put_entry
  put_entry-distinct i j h k e =
      ground (arith, e, v.bounded, f.before, v.distinct i j, f.first i, f.found)

  put_entry-others :
      (j : ℕ)
      → j ≢ idx
      → (l'.names j ≡ l.names j) × (l'.types j ≡ l.types j) × (l'.params j ≡ l.params j)
  unfolding put_entry
  put_entry-others j ne = (ground arith, ground arith, ground arith)

  put_entry-at : (l'.names idx ≡ key) × (l'.types idx ≡ type) × (l'.params idx ≡ value)
  unfolding put_entry
  put_entry-at = (ground arith, ground arith, ground arith)

-- A write succeeds exactly when the key has an index below 255 and fits its 64 bytes.
pub log_data_write-stored :
    (key : List ℕ) (type : ParamType) (value : ParamVal) (m : Shm)
    → let idx = find_key m.log_data.num_params 0 key m.log_data in
      (log_data_write key type value m).1 ≡ stored
      → (idx ≢ 255)
        × (length key < 64)
        × ((log_data_write key type value m).0.log_data ≡ put_entry idx key type value m.log_data)
unfolding log_data_write
log_data_write-stored key type value m ok =
    let idx = find_key m.log_data.num_params 0 key m.log_data in
    elim (Bool-cases (idx == 255)) [
      | inl e ↦ absurd (ground (arith, e, ok))
      | inr e ↦ elim (Bool-cases (leb 64 (length key))) [
        | inl f ↦ absurd (ground (arith, e, f, ok))
        | inr f ↦ (ground (arith, e), ground (arith, f), ground (arith, e, f))
      ]
    ]

-- On well-formed log data, a write that succeeds sets the type and the value of its key, at an
-- index below the new count, changes no other entry, and keeps the log data well formed.
pub log_data_write_entry :
    (key : List ℕ) (type : ParamType) (value : ParamVal) (m : Shm)
    → IsLogData m.log_data
    → (log_data_write key type value m).1 ≡ stored
    → let l = (log_data_write key type value m).0.log_data in
      IsLogData l
      × ((k : ℕ) × (k < l.num_params)
          × (l.names k ≡ key)
          × (l.types k ≡ type)
          × (l.params k ≡ value)
          × ((j : ℕ)
              → j ≢ k
              → (l.names j ≡ m.log_data.names j)
                × (l.types j ≡ m.log_data.types j)
                × (l.params j ≡ m.log_data.params j)))
log_data_write_entry key type value m v ok =
    let l = m.log_data in
    let idx = find_key l.num_params 0 key l in
    let f = find_key-IsKeyIndex l.num_params 0 key l in
    let w = log_data_write-stored key type value m ok in
    let c = put_entry-count idx key type value l v f w.0 in
    let at = put_entry-at idx key type value l v f w.0 in
    rw w.2 (
      record {
        bounded = c.1;
        short = put_entry-short idx key type value l v f w.0 w.1;
        distinct = put_entry-distinct idx key type value l v f w.0;
      },
      (idx, c.0, at.0, at.1, at.2, put_entry-others idx key type value l v f w.0),
    )

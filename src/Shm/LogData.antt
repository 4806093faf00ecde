-- ===== src/Shm/LogData.antt =====
-- The data that student code logs, of shm_wrapper/shm_wrapper.c.
pub mod Entries
use c_runtime.Prelude.{ℕ, zero, suc, ◌+◌, Bool, true, false, ◌&&◌, List, [], ◌∷◌}
use c_runtime.Prelude.{◌==◌, leb, if◌then◌else◌, update, u8, length}
use c_runtime.RuntimeUtil.Types.{ParamType, ParamVal, log_key_length, uchar_max}
use c_runtime.Shm.Types.{Shm, LogData, my_sem_wait, my_sem_post, log_data_sem}

-- `strcmp(a, b) == 0`.
unfoldable pub same_key : List ℕ → List ℕ → Bool
same_key [] [] = true
same_key [] (b ∷ bs) = false
same_key (a ∷ as') [] = false
same_key (a ∷ as') (b ∷ bs) = a == b && same_key as' bs

-- The index of the key among the `left` names from `i` on, or the index after them.
unfoldable pub find_key : ℕ → ℕ → List ℕ → LogData → ℕ
find_key zero i key l = i
find_key (suc left) i key l =
    let rest = find_key left (i + 1) key l in if same_key key (l.names i) then i else rest

-- `stored` is the result 0, `table_full` -1 and `key_too_long` -2.
pub data LogResult : Type 0 where
  stored table_full key_too_long : LogResult

unfoldable pub put_entry : ℕ → List ℕ → ParamType → ParamVal → LogData → LogData
put_entry idx key type value l = record {
  names = update l.names idx key;
  types = update l.types idx type;
  params = update l.params idx value;
  num_params = if idx == l.num_params then u8 (l.num_params + 1) else l.num_params;
}

-- The two early returns do not post the semaphore.
unfoldable pub log_data_write : List ℕ → ParamType → ParamVal → Shm → Shm × LogResult
log_data_write key type value m =
    let m1 = my_sem_wait log_data_sem m in
    let idx = find_key m.log_data.num_params 0 key m.log_data in
    if idx == uchar_max
    then (m1, table_full)
    else if leb log_key_length (length key)
    then (m1, key_too_long)
    else (
      my_sem_post log_data_sem (record m1 { log_data = put_entry idx key type value m.log_data }),
      stored,
    )

-- The entries below `num_params` are copied into the arrays of the caller.
unfoldable pub copy_entries : ℕ → ℕ → LogData → LogData → LogData
copy_entries zero i l out = out
copy_entries (suc left) i l out = copy_entries left (i + 1) l (record out {
  names = update out.names i (l.names i);
  types = update out.types i (l.types i);
  params = update out.params i (l.params i);
})

unfoldable pub log_data_read : LogData → Shm → Shm × LogData
log_data_read out m =
    let m1 = my_sem_wait log_data_sem m in
    let n = m.log_data.num_params in
    (my_sem_post log_data_sem m1, copy_entries n 0 m.log_data (record out { num_params = n }))

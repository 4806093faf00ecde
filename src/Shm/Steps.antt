-- ===== src/Shm/Steps.antt =====
-- Runs of the processes over the shared memory. A step is a call of an operation that writes, or the
-- part of it that holds semaphores: `device_read`, `device_write`, their variants by uid and
-- `place_sub_request` look at the catalog before they take any, so other steps may come between.
use c_runtime.Prelude.{ℕ, ◌<◌, ◌^◌, ◌≡◌, ◌⊎◌, arith, inl, inr}
use c_runtime.Prelude.{
  true, false, ◌&&◌, not, ◌==◌, Bool-cases, some, Option-cases, List, update, leb, length,
}
use c_runtime.Prelude.Bits.{has_bit}
use c_runtime.RuntimeUtil.Types.{
  DevId, ParamVal, ParamType, Process, RobotDescField, RobotDescVal, is_dev_handler, is_executor,
  is_net_handler, log_key_length, uchar_max,
}
use c_runtime.Shm.Types.{Shm, DevShm, Stream, command_stream, same_stream}
use c_runtime.Shm.Devices.{device_connect, device_disconnect, get_dev_ix_from_uid}
use c_runtime.Shm.Devices.Places.{device_connect_cases, get_dev_ix_from_uid-Found, Found}
use c_runtime.Shm.Params.{
  device_read, device_read_uid, device_write, device_write_uid, device_read_helper,
  device_write_helper, write_row,
}
use c_runtime.Shm.Subscriptions.{put_request, place_sub_request, get_sub_requests, sub_entry}
use c_runtime.Shm.Inputs.{robot_desc_write, input_write, input_index, is_disconnected}
use c_runtime.Shm.LogData.{log_data_write, find_key}
use c_runtime.Shm.Start.{start_shm}
use c_runtime.Shm.Valid.{
  IsDevShm, start_devices-IsDevShm, connect_at-IsDevShm, disconnect_at-IsDevShm,
  clear_command-IsDevShm, flag_command-IsDevShm, write_row-IsDevShm, request_in-lt,
}

pub data Step (m : Shm) : Shm → Type 0 where
  connect : (dev_id : DevId) → Step m (device_connect dev_id m).0
  disconnect : (ix : ℕ) → ix < 32 → Step m (device_disconnect ix m)
  read :
      (ix : ℕ) (process : Process) (stream : Stream) (p : ℕ) (params : ℕ → ParamVal)
      → ix < 32
      → Step m (device_read ix process stream p params m).0
  read_uid :
      (uid : ℕ) (process : Process) (stream : Stream) (p : ℕ) (params : ℕ → ParamVal)
      → Step m (device_read_uid uid process stream p params m).0
  write :
      (ix : ℕ) (process : Process) (stream : Stream) (p : ℕ) (params : ℕ → ParamVal)
      → ix < 32
      → p < 2 ^ 32
      → Step m (device_write ix process stream p params m).0
  write_uid :
      (uid : ℕ) (process : Process) (stream : Stream) (p : ℕ) (params : ℕ → ParamVal)
      → p < 2 ^ 32
      → Step m (device_write_uid uid process stream p params m).0
  -- The helper of a read whose test of the catalog was made at any time before.
  late_read :
      (ix : ℕ) (process : Process) (stream : Stream) (p : ℕ) (params : ℕ → ParamVal)
      → ix < 32
      → Step m (device_read_helper ix process stream p params m).0
  -- The helper of a write whose test was made before. A command of executor is to find that its place
  -- has a device, the same or another one, when it gets its semaphores.
  late_write :
      (ix : ℕ) (process : Process) (stream : Stream) (p : ℕ) (params : ℕ → ParamVal)
      → ix < 32
      → p < 2 ^ 32
      → (has_bit m.dev.catalog ix ≡ true)
        ⊎ (is_executor process && same_stream stream command_stream ≡ false)
      → Step m (device_write_helper ix process stream p params m)
  -- The request of a process whose search by uid was made before.
  late_subscribe :
      (process : Process) (ix p : ℕ) → ix < 32 → p < 2 ^ 32 → Step m (put_request process ix p m)
  subscribe :
      (uid : ℕ) (process : Process) (p : ℕ)
      → p < 2 ^ 32
      → Step m (place_sub_request uid process p m).0
  poll : (process : Process) (sub_map : ℕ → ℕ) → Step m (get_sub_requests process sub_map m).0
  describe : (field : RobotDescField) (val : RobotDescVal) → Step m (robot_desc_write field val m)
  input :
      (buttons : ℕ) (axes : ℕ → ℕ) (source : RobotDescField)
      → Step m (input_write buttons axes source m).0
  log :
      (key : List ℕ) (type : ParamType) (value : ParamVal)
      → Step m (log_data_write key type value m).0

pub data Reach (m : Shm) : Shm → Type 0 where
  here : Reach m m
  next : {n k : Shm} → Reach m n → Step n k → Reach m k

module _ (m : Shm) (v : IsDevShm m.dev) where
  read_helper-IsDevShm :
      (ix : ℕ) (process : Process) (stream : Stream) (p : ℕ) (params : ℕ → ParamVal)
      → ix < 32
      → IsDevShm (device_read_helper ix process stream p params m).0.dev
  unfolding device_read_helper
  read_helper-IsDevShm ix process stream p params h =
      elim (Bool-cases (is_dev_handler process && same_stream stream command_stream)) [
        | inl e ↦ rw e (clear_command-IsDevShm m.dev v ix h p)
        | inr e ↦ rw e v
      ]

  write_helper-IsDevShm :
      (ix : ℕ) (process : Process) (stream : Stream) (p : ℕ) (params : ℕ → ParamVal)
      → ix < 32
      → p < 2 ^ 32
      → has_bit m.dev.catalog ix ≡ true
      → IsDevShm (device_write_helper ix process stream p params m).dev
  unfolding device_write_helper
  write_helper-IsDevShm ix process stream p params h small c =
      let d : DevShm = write_row stream ix p params m.dev in
      let w : IsDevShm d = write_row-IsDevShm m.dev v stream ix p params in
      elim (Bool-cases (is_executor process && same_stream stream command_stream)) [
        | inl e ↦ rw e (flag_command-IsDevShm d w ix h p small (unfold write_row in c))
        | inr e ↦ rw e w
      ]

  late_write-IsDevShm :
      (ix : ℕ) (process : Process) (stream : Stream) (p : ℕ) (params : ℕ → ParamVal)
      → ix < 32
      → p < 2 ^ 32
      → (has_bit m.dev.catalog ix ≡ true)
        ⊎ (is_executor process && same_stream stream command_stream ≡ false)
      → IsDevShm (device_write_helper ix process stream p params m).dev
  unfolding device_write_helper
  late_write-IsDevShm ix process stream p params h small (inl c) =
      write_helper-IsDevShm ix process stream p params h small c
  late_write-IsDevShm ix process stream p params h small (inr e) =
      rw e (write_row-IsDevShm m.dev v stream ix p params)

  put_request-IsDevShm :
      (process : Process) (ix p : ℕ)
      → ix < 32
      → p < 2 ^ 32
      → IsDevShm (put_request process ix p m).dev
  put_request-IsDevShm process ix p h small = elim (Bool-cases (is_net_handler process)) [
    | inl f ↦ rw f (record {
      catalog_word = v.catalog_word;
      cmd_words = v.cmd_words;
      net_words = request_in-lt m.dev v ix h m.dev.net_sub_map p small v.net_words;
      exec_words = v.exec_words;
      flagged = v.flagged;
      quiet = v.quiet;
    })
    | inr f ↦ rw f (record {
      catalog_word = v.catalog_word;
      cmd_words = v.cmd_words;
      net_words = v.net_words;
      exec_words = request_in-lt m.dev v ix h m.dev.exec_sub_map p small v.exec_words;
      flagged = v.flagged;
      quiet = v.quiet;
    })
  ]

  -- What a search by uid gives is a place in the catalog.
  uid_place :
      (uid ix : ℕ)
      → get_dev_ix_from_uid uid m ≡ some ix
      → (ix < 32) × (has_bit m.dev.catalog ix ≡ true)
  uid_place uid ix e =
      let f : Found 32 0 uid m.dev (some ix) = rw e at (get_dev_ix_from_uid-Found uid m) in
      (omega (arith, f.1), f.2)

  subscribe-IsDevShm :
      (uid : ℕ) (process : Process) (p : ℕ)
      → p < 2 ^ 32
      → IsDevShm (place_sub_request uid process p m).0.dev
  unfolding place_sub_request
  subscribe-IsDevShm uid process p small =
      elim (Bool-cases (not (is_net_handler process) && not (is_executor process))) [
        | inl e ↦ rw e v
        | inr e ↦ elim (Option-cases (get_dev_ix_from_uid uid m)) [
          | inl n ↦ rw (e, n) v
          | inr (ix, n) ↦ rw (e, n) (put_request-IsDevShm process ix p (uid_place uid ix n).0 small)
        ]
      ]

  reset_flags-IsDevShm : IsDevShm (record m.dev {
    net_sub_map = update m.dev.net_sub_map 0 0;
    exec_sub_map = update m.dev.exec_sub_map 0 0;
  })
  reset_flags-IsDevShm = record {
    catalog_word = v.catalog_word;
    cmd_words = v.cmd_words;
    net_words = λ j. ground (arith, v.net_words j);
    exec_words = λ j. ground (arith, v.exec_words j);
    flagged = v.flagged;
    quiet = v.quiet;
  }

  poll-IsDevShm :
      (process : Process) (sub_map : ℕ → ℕ) → IsDevShm (get_sub_requests process sub_map m).0.dev
  unfolding get_sub_requests
  poll-IsDevShm process sub_map =
      elim (Bool-cases (sub_entry process m.dev 0 == 0 && is_dev_handler process)) [
        | inl e ↦ rw e v
        | inr e ↦ rw e (elim (Bool-cases (is_dev_handler process)) [
          | inl f ↦ rw f reset_flags-IsDevShm
          | inr f ↦ rw f v
        ])
      ]

  read-IsDevShm :
      (ix : ℕ) (process : Process) (stream : Stream) (p : ℕ) (params : ℕ → ParamVal)
      → ix < 32
      → IsDevShm (device_read ix process stream p params m).0.dev
  unfolding device_read
  read-IsDevShm ix process stream p params h = elim (Bool-cases (has_bit m.dev.catalog ix)) [
    | inl c ↦ rw c (read_helper-IsDevShm ix process stream p params h)
    | inr c ↦ rw c v
  ]

  read_uid-IsDevShm :
      (uid : ℕ) (process : Process) (stream : Stream) (p : ℕ) (params : ℕ → ParamVal)
      → IsDevShm (device_read_uid uid process stream p params m).0.dev
  unfolding device_read_uid
  read_uid-IsDevShm uid process stream p params = elim (Option-cases (get_dev_ix_from_uid uid m)) [
    | inl n ↦ rw (n, device_read_uid) v
    | inr (ix, n) ↦
        rw (n, device_read_uid)
          (read_helper-IsDevShm ix process stream p params (uid_place uid ix n).0)
  ]

  write-IsDevShm :
      (ix : ℕ) (process : Process) (stream : Stream) (p : ℕ) (params : ℕ → ParamVal)
      → ix < 32
      → p < 2 ^ 32
      → IsDevShm (device_write ix process stream p params m).0.dev
  unfolding device_write
  write-IsDevShm ix process stream p params h small = elim (Bool-cases (has_bit m.dev.catalog ix)) [
    | inl c ↦ rw c (write_helper-IsDevShm ix process stream p params h small c)
    | inr c ↦ rw c v
  ]

  write_uid-IsDevShm :
      (uid : ℕ) (process : Process) (stream : Stream) (p : ℕ) (params : ℕ → ParamVal)
      → p < 2 ^ 32
      → IsDevShm (device_write_uid uid process stream p params m).0.dev
  unfolding device_write_uid
  write_uid-IsDevShm uid process stream p params small =
      elim (Option-cases (get_dev_ix_from_uid uid m)) [
        | inl n ↦ rw (n, device_write_uid) v
        | inr (ix, n) ↦
            let place = uid_place uid ix n in
            rw (n, device_write_uid)
              (write_helper-IsDevShm ix process stream p params place.0 small place.1)
      ]

  input-IsDevShm :
      (buttons : ℕ) (axes : ℕ → ℕ) (source : RobotDescField)
      → IsDevShm (input_write buttons axes source m).0.dev
  unfolding input_write
  input-IsDevShm buttons axes source = elim (Option-cases (input_index source)) [
    | inl n ↦ rw (n, input_write) v
    | inr (ix, n) ↦ elim (Bool-cases (is_disconnected (m.fields source))) [
      | inl e ↦ rw (n, input_write, e) v
      | inr e ↦ rw (n, input_write, e) v
    ]
  ]

  log-IsDevShm :
      (key : List ℕ) (type : ParamType) (value : ParamVal)
      → IsDevShm (log_data_write key type value m).0.dev
  unfolding log_data_write
  log-IsDevShm key type value =
      elim (Bool-cases (find_key m.log_data.num_params 0 key m.log_data == uchar_max)) [
        | inl e ↦ rw e v
        | inr e ↦ elim (Bool-cases (leb log_key_length (length key))) [
          | inl f ↦ rw (e, f) v
          | inr f ↦ rw (e, f) v
        ]
      ]

  connect-IsDevShm : (dev_id : DevId) → IsDevShm (device_connect dev_id m).0.dev
  connect-IsDevShm dev_id = elim (device_connect_cases dev_id m) [
    | inl c ↦ rw c.1 v
    | inr c ↦ rw c.5 (connect_at-IsDevShm m.dev v c.0 c.1 dev_id)
  ]

-- Each operation that writes the shared memory keeps the invariant of the device block.
pub Step-IsDevShm : {m n : Shm} → Step m n → IsDevShm m.dev → IsDevShm n.dev
Step-IsDevShm {m} (connect dev_id) v = connect-IsDevShm m v dev_id
Step-IsDevShm {m} (disconnect ix h) v =
    unfold device_disconnect in disconnect_at-IsDevShm m.dev v ix h
Step-IsDevShm {m} (read ix process stream p params h) v =
    read-IsDevShm m v ix process stream p params h
Step-IsDevShm {m} (read_uid uid process stream p params) v =
    read_uid-IsDevShm m v uid process stream p params
Step-IsDevShm {m} (write ix process stream p params h small) v =
    write-IsDevShm m v ix process stream p params h small
Step-IsDevShm {m} (write_uid uid process stream p params small) v =
    write_uid-IsDevShm m v uid process stream p params small
Step-IsDevShm {m} (late_read ix process stream p params h) v =
    read_helper-IsDevShm m v ix process stream p params h
Step-IsDevShm {m} (late_write ix process stream p params h small there) v =
    late_write-IsDevShm m v ix process stream p params h small there
Step-IsDevShm {m} (late_subscribe process ix p h small) v =
    put_request-IsDevShm m v process ix p h small
Step-IsDevShm {m} (subscribe uid process p small) v = subscribe-IsDevShm m v uid process p small
Step-IsDevShm {m} (poll process sub_map) v = poll-IsDevShm m v process sub_map
Step-IsDevShm {m} (describe field val) v = unfold robot_desc_write in v
Step-IsDevShm {m} (input buttons axes source) v = input-IsDevShm m v buttons axes source
Step-IsDevShm {m} (log key type value) v = log-IsDevShm m v key type value

-- From the state that shm_start leaves on, by any sequence of the steps: every map holds 32-bit
-- words, a command is flagged only for a device in the catalog, and no parameter is pending for a
-- place without a device.
pub Reach-IsDevShm : {m : Shm} → Reach start_shm m → IsDevShm m.dev
Reach-IsDevShm here = unfold start_shm in start_devices-IsDevShm
Reach-IsDevShm (next r s) = Step-IsDevShm s (Reach-IsDevShm r)

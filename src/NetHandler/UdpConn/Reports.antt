-- ===== src/NetHandler/UdpConn/Reports.antt =====
-- The device data that net_handler sends to Dawn is what it subscribed to, from the right devices.
use c_runtime.Prelude.{
  ℕ, zero, suc, ◌+◌, ◌-◌, ◌%◌, ◌≤◌, ◌<◌, ◌^◌, ◌≡◌, refl, sym, ap, ◌∙◌, arith, inl, inr,
}
use c_runtime.Prelude.{
  true, false, ◌&&◌, List, [], ◌∷◌, ◌++◌, Option, none, some, Outcome, done, fault, ◌>>=◌,
  Bool-cases, Option-cases, ◌==◌, ltb, leb, if◌then◌else◌, set, update,
}
use c_runtime.Prelude.Bits.{has_bit}
use c_runtime.RuntimeUtil.Devices.{param_at}
use c_runtime.RuntimeUtil.Types.{Device, ParamType, ParamVal, Process, max_devices, dawn}
use c_runtime.RuntimeUtil.Lookup.{get_device}
use c_runtime.RuntimeUtil.Lookup.Tables.{get_device-IsDevice}
use c_runtime.Shm.Types.{DevShm, Shm, LogData, data_stream}
use c_runtime.Shm.Devices.{get_catalog, get_device_identifiers}
use c_runtime.Shm.Devices.Places.{HasUniqueUids, unique_place}
use c_runtime.Shm.Params.{copy_on, device_read_uid, device_read_helper}
use c_runtime.Shm.Params.Commands.{copy_on_lem}
use c_runtime.Shm.Subscriptions.{get_sub_requests}
use c_runtime.Shm.Subscriptions.Polls.{fill_sub_map_entry}
use c_runtime.Shm.LogData.{log_data_read, copy_entries}
use c_runtime.Shm.Inputs.{robot_desc_read, is_disconnected}
use c_runtime.NetHandler.Protocol.{Val, ival, fval, bval, literal, bytes, Param, NetDevice}
use c_runtime.NetHandler.UdpConn.{
  valid_dev_idxs, val_of, device_params, report_device, report_devices, custom_params, time_param,
  custom_device, report_all, send_round,
}

-- A value as Dawn is to see it: a Boolean is the lowest byte of its word.
abbrev pub current_val : ParamType → ParamVal → Val
current_val ParamType.int v = ival v
current_val ParamType.float v = fval v
current_val ParamType.bool v = bval (v % 256)

-- Parameter `j` of a device: its own name and value, and whether it cannot be written.
abbrev pub current_param : Device → (ℕ → ParamVal) → ℕ → Param
current_param info values j = record {
  name = literal (param_at info j).name;
  val = current_val (param_at info j).type (values j);
  readonly = if (param_at info j).write == 0 then 1 else 0;
}

-- The indices from `j` on that are subscribed to, in order.
unfoldable pub asked : ℕ → ℕ → ℕ → List ℕ
asked zero j mask = []
asked (suc left) j mask =
    let rest = asked left (j + 1) mask in if has_bit mask j then j ∷ rest else rest

unfoldable pub current_params : Device → (ℕ → ParamVal) → List ℕ → List Param
current_params info values [] = []
current_params info values (j ∷ js) = current_param info values j ∷ current_params info values js

val_of-eq-current_val : (t : ParamType) (v : ParamVal) → val_of t v ≡ current_val t v
val_of-eq-current_val ParamType.int v = refl
val_of-eq-current_val ParamType.float v = refl
val_of-eq-current_val ParamType.bool v = refl

device_params-eq-current_params :
    (left j mask : ℕ) (info : Device) (values : ℕ → ParamVal)
    → device_params left j mask info values ≡ current_params info values (asked left j mask)
unfolding device_params asked current_params
device_params-eq-current_params zero j mask info values = refl
device_params-eq-current_params (suc left) j mask info values =
    let rest = device_params-eq-current_params left (j + 1) mask info values in
    elim (Bool-cases (has_bit mask j)) [
      | inl e ↦
          rw (e, rest, current_params, val_of-eq-current_val (param_at info j).type (values j)) refl
      | inr e ↦ rw (e, rest) refl
    ]

-- What is to be reported of the device at a place: the parameters that net_handler subscribes to,
-- with the values that the device sent last.
unfoldable pub current_device : DevShm → ℕ → Option NetDevice
current_device d i = elim (get_device (d.dev_ids i).type) [
  | none ↦ none
  | some info ↦ some (record {
    name = info.name;
    type = (d.dev_ids i).type;
    uid = (d.dev_ids i).uid;
    params =
        current_params info (d.params data_stream i)
          (asked info.num_params 0 (d.net_sub_map (i + 1)));
  })
]

-- Each connected device of a type with a table, in the order of the places.
unfoldable pub current_devices : ℕ → ℕ → DevShm → List NetDevice
current_devices zero i d = []
current_devices (suc left) i d =
    let rest = current_devices left (i + 1) d in
    if has_bit d.catalog i
    then elim (current_device d i) [ none ↦ rest | some device ↦ device ∷ rest ]
    else rest

-- Only the parameters of the mask are looked at.
device_params-same :
    (left j mask : ℕ) (info : Device) (a b : ℕ → ParamVal)
    → ((k : ℕ) → k < j + left → has_bit mask k ≡ true → a k ≡ b k)
    → device_params left j mask info a ≡ device_params left j mask info b
unfolding device_params
device_params-same zero j mask info a b h = refl
device_params-same (suc left) j mask info a b h =
    let rest = device_params-same left (j + 1) mask info a b (λ k p. h k (omega (arith, p))) in
    elim (Bool-cases (has_bit mask j)) [
      | inl e ↦ rw (e, rest, h j (omega arith) e) refl
      | inr e ↦ rw (e, rest) refl
    ]

-- A read of net_handler by the uid of a connected device.
net_read :
    (i mask : ℕ) (junk : ℕ → ParamVal) (m : Shm)
    → HasUniqueUids m.dev
    → i < 32
    → has_bit m.dev.catalog i ≡ true
    → let r = device_read_uid (m.dev.dev_ids i).uid Process.net_handler data_stream mask junk m in
      (r.1 ≡ some (copy_on 32 0 mask (m.dev.params data_stream i) junk))
      × (r.0.dev ≡ m.dev)
      × (r.0.log_data ≡ m.log_data)
unfolding device_read_uid device_read_helper
net_read i mask junk m unique h c =
    let e = unique_place i m unique h c in
    (rw (device_read_uid, e) refl, rw (device_read_uid, e) refl, rw (device_read_uid, e) refl)

report_device_lem :
    (i mask : ℕ) (info : Device) (junk : ℕ → ParamVal) (m : Shm)
    → HasUniqueUids m.dev
    → i < 32
    → has_bit m.dev.catalog i ≡ true
    → info.num_params ≤ 32
    → let r = report_device info (m.dev.dev_ids i) mask junk m in
      (r.1 ≡ record {
        name = info.name;
        type = (m.dev.dev_ids i).type;
        uid = (m.dev.dev_ids i).uid;
        params = device_params info.num_params 0 mask info (m.dev.params data_stream i);
      })
      × (r.0.dev ≡ m.dev)
      × (r.0.log_data ≡ m.log_data)
unfolding report_device
report_device_lem i mask info junk m unique h c few =
    let r = net_read i mask junk m unique h c in
    let same =
      device_params-same info.num_params 0 mask info
        (copy_on 32 0 mask (m.dev.params data_stream i) junk) (m.dev.params data_stream i)
        (λ k p on. ground (
          arith,
          on,
          copy_on_lem mask (m.dev.params data_stream i) junk k (omega (arith, p, few)),
        )) in
    (rw (r.0, same) refl, r.1, r.2)

-- The report of one connected device, with and without a table.
current_device-none :
    (i : ℕ) (d : DevShm) → get_device (d.dev_ids i).type ≡ none → current_device d i ≡ none
unfolding current_device
current_device-none i d e = rw (current_device, e) refl

current_device-some :
    (i : ℕ) (d : DevShm) (info : Device)
    → get_device (d.dev_ids i).type ≡ some info
    → current_device d i
      ≡ some (record {
        name = info.name;
        type = (d.dev_ids i).type;
        uid = (d.dev_ids i).uid;
        params =
            device_params info.num_params 0 (d.net_sub_map (i + 1)) info (d.params data_stream i);
      })
unfolding current_device
current_device-some i d info e =
    rw
      (
        current_device,
        e,
        device_params-eq-current_params info.num_params 0 (d.net_sub_map (i + 1)) info
            (d.params data_stream i),
      )
      refl

current_devices-here :
    (left i : ℕ) (d : DevShm) (device : NetDevice)
    → has_bit d.catalog i ≡ true
    → current_device d i ≡ some device
    → current_devices (suc left) i d ≡ device ∷ current_devices left (i + 1) d
unfolding current_devices
current_devices-here left i d device c e = rw (c, e) refl

current_devices-skip :
    (left i : ℕ) (d : DevShm)
    → has_bit d.catalog i ≡ true
    → current_device d i ≡ none
    → current_devices (suc left) i d ≡ current_devices left (i + 1) d
unfolding current_devices
current_devices-skip left i d c e = rw (c, e) refl

-- The same in a state with the devices `d`.
report_device_at :
    (i mask : ℕ) (info : Device) (junk : ℕ → ParamVal) (d : DevShm) (m : Shm)
    → m.dev ≡ d
    → HasUniqueUids d
    → i < 32
    → has_bit d.catalog i ≡ true
    → info.num_params ≤ 32
    → let r = report_device info (d.dev_ids i) mask junk m in
      (r.1 ≡ record {
        name = info.name;
        type = (d.dev_ids i).type;
        uid = (d.dev_ids i).uid;
        params = device_params info.num_params 0 mask info (d.params data_stream i);
      })
      × (r.0.dev ≡ d)
      × (r.0.log_data ≡ m.log_data)
report_device_at i mask info junk d m q unique h c few =
    rw (sym q) (report_device_lem i mask info junk m (rw q unique) h (rw q c) few)

-- What the loop leaves, in a state with the devices `d`.
Reported : ℕ → ℕ → DevShm → LogData → Shm × List NetDevice → Type 0
Reported left i d l r = (r.1 ≡ current_devices left i d) × (r.0.dev ≡ d) × (r.0.log_data ≡ l)

report_devices-Reported :
    (left i : ℕ) (d : DevShm) (sub_map : ℕ → ℕ) (junk : ℕ → ParamVal) (m : Shm)
    → m.dev ≡ d
    → HasUniqueUids d
    → i + left ≤ 32
    → ((k : ℕ) → k < 32 → has_bit d.catalog k ≡ true → sub_map (k + 1) ≡ d.net_sub_map (k + 1))
    → Reported left i d m.log_data
        (report_devices (valid_dev_idxs left i d.catalog) d.dev_ids sub_map junk m)
unfolding Reported report_devices valid_dev_idxs current_devices
report_devices-Reported zero i d sub_map junk m q unique h masks = (refl, q, refl)
report_devices-Reported (suc left) i d sub_map junk m q unique h masks =
    elim (Bool-cases (has_bit d.catalog i)) [
      | inr e ↦
          rw e (
            report_devices-Reported left (i + 1) d sub_map junk m q unique (omega (arith, h)) masks)
      | inl e ↦ elim (Option-cases (get_device (d.dev_ids i).type)) [
        | inl f ↦
            let skip = current_device-none i d f in
            rw (e, report_devices, f, skip)
              (report_devices-Reported left (i + 1) d sub_map junk m q unique (omega (arith, h))
                masks)
        | inr (info, f) ↦
            let here = current_device-some i d info f in
            let few : info.num_params ≤ 32 =
              (get_device-IsDevice (d.dev_ids i).type info f).few_params in
            let mask = masks i (omega (arith, h)) e in
            let m1 : Shm = (report_device info (d.dev_ids i) (sub_map (i + 1)) junk m).0 in
            let one =
              report_device_at i (sub_map (i + 1)) info junk d m q unique (omega (arith, h)) e
                few in
            let rest =
              report_devices-Reported left (i + 1) d sub_map junk m1 one.1 unique (omega (arith, h))
                masks in
            rw (e, report_devices, f, here) (rw (one.0, rest.0, mask) refl, rest.1, rest.2 ∙ one.2)
      ]
    ]

-- The entries of the log data from `i` on.
unfoldable pub log_entries : ℕ → ℕ → LogData → List Param
log_entries zero i l = []
log_entries (suc left) i l =
    record { name = bytes (l.names i); val = current_val (l.types i) (l.params i); readonly = 0 }
    ∷ log_entries left (i + 1) l

custom_params_lem :
    (left i : ℕ) (l : LogData)
    → i + left ≤ 255
    → custom_params left i l ≡ done (log_entries left i l)
unfolding custom_params log_entries
custom_params_lem zero i l h = refl
custom_params_lem (suc left) i l h =
    let inside : ltb i 255 ≡ true = ground (arith, h) in
    rw
      (
        inside,
        custom_params_lem left (i + 1) l (omega (arith, h)),
        val_of-eq-current_val (l.types i) (l.params i),
      )
      refl

set-log_entries :
    (n i : ℕ) (l : LogData) (t : Param)
    → set (log_entries (suc n) i l) n t ≡ log_entries n i l ++ (t ∷ [])
unfolding log_entries
set-log_entries zero i l t = refl
set-log_entries (suc n) i l t = rw (log_entries, set-log_entries n (i + 1) l t) refl

-- The copies of two log data agree below `i + left`.
log_entries-same :
    (left i : ℕ) (l l' : LogData)
    → ((j : ℕ)
        → j < i + left
        → (l.names j ≡ l'.names j) × (l.types j ≡ l'.types j) × (l.params j ≡ l'.params j))
    → log_entries left i l ≡ log_entries left i l'
unfolding log_entries
log_entries-same zero i l l' h = refl
log_entries-same (suc left) i l l' h =
    let here = h i (omega arith) in
    rw (here.0, here.1, here.2, log_entries-same left (i + 1) l l' (λ j p. h j (omega (arith, p))))
      refl

copy_entries_lem :
    (left i : ℕ) (l out : LogData) (j : ℕ)
    → ((copy_entries left i l out).num_params ≡ out.num_params)
      × ((copy_entries left i l out).names j
          ≡ (if leb i j && ltb j (i + left) then l.names j else out.names j))
      × ((copy_entries left i l out).types j
          ≡ (if leb i j && ltb j (i + left) then l.types j else out.types j))
      × ((copy_entries left i l out).params j
          ≡ (if leb i j && ltb j (i + left) then l.params j else out.params j))
unfolding copy_entries
copy_entries_lem zero i l out j = (refl, ground arith, ground arith, ground arith)
copy_entries_lem (suc left) i l out j =
    let r =
      copy_entries_lem left (i + 1) l
        (record out {
          names = update out.names i (l.names i);
          types = update out.types i (l.types i);
          params = update out.params i (l.params i);
        })
        j in
    (r.0, ground (arith, r.1), ground (arith, r.2), ground (arith, r.3))

-- The last device of the message: what the student's code logs, and the time.
abbrev pub current_custom : ℕ → LogData → NetDevice
current_custom time l = record {
  name = "CustomData";
  type = max_devices;
  uid = 2020;
  params =
      log_entries l.num_params 0 l
      ++ (record { name = literal "time_ms"; val = ival time; readonly = 1 } ∷ []);
}

custom_device_of :
    (time : ℕ) (l : LogData)
    → l.num_params < 255
    → custom_device time l ≡ done (current_custom time l)
unfolding custom_device
custom_device_of time l h =
    let next : l.num_params + 1 ≡ suc l.num_params = omega arith in
    rw (next, custom_params_lem (suc l.num_params) 0 l (omega (arith, h)))
      (rw (set-log_entries l.num_params 0 l (time_param time)) refl)

current_custom-copy :
    (time : ℕ) (stale : LogData) (m : Shm)
    → current_custom time (log_data_read stale m).1 ≡ current_custom time m.log_data
unfolding log_data_read
current_custom-copy time stale m =
    let n : ℕ = m.log_data.num_params in
    let l : LogData = copy_entries n 0 m.log_data (record stale { num_params = n }) in
    let copied = copy_entries_lem n 0 m.log_data (record stale { num_params = n }) in
    let count : l.num_params ≡ n = (copied 0).0 in
    let same = log_entries-same n 0 l m.log_data (λ j p.
      (ground (arith, p, copied j), ground (arith, p, copied j), ground (arith, p, copied j))) in
    let entries : log_entries l.num_params 0 l ≡ log_entries n 0 m.log_data =
      ap (λ k. log_entries k 0 l) count ∙ same in
    ap
      (λ ps. record {
        name = "CustomData";
        type = max_devices;
        uid = 2020;
        params = ps ++ (time_param time ∷ []);
      })
      entries

log_data_read-count :
    (stale : LogData) (m : Shm) → (log_data_read stale m).1.num_params ≡ m.log_data.num_params
unfolding log_data_read
log_data_read-count stale m =
    (copy_entries_lem m.log_data.num_params 0 m.log_data
      (record stale { num_params = m.log_data.num_params }) 0).0

custom_device_lem :
    (time : ℕ) (stale : LogData) (m : Shm)
    → m.log_data.num_params < 255
    → custom_device time (log_data_read stale m).1 ≡ done (current_custom time m.log_data)
custom_device_lem time stale m h =
    custom_device_of time (log_data_read stale m).1 (rw (log_data_read-count stale m) h)
    ∙ ap done (current_custom-copy time stale m)

-- A poll of net_handler changes nothing, and gives its subscriptions to the connected devices.
net_poll :
    (sub_map : ℕ → ℕ) (m : Shm)
    → let r = get_sub_requests Process.net_handler sub_map m in
      (r.0.dev ≡ m.dev)
      × (r.0.log_data ≡ m.log_data)
      × ((k : ℕ)
          → k < 32
          → has_bit m.dev.catalog k ≡ true
          → r.1 (k + 1) ≡ m.dev.net_sub_map (k + 1))
unfolding get_sub_requests
net_poll sub_map m = elim (Bool-cases (m.dev.net_sub_map 0 == 0)) [
  | inl e ↦ rw e (
    refl,
    refl,
    λ k h c. ground (
      arith,
      c,
      h,
      fill_sub_map_entry Process.net_handler m.dev 32 0 (update sub_map 0 (m.dev.net_sub_map 0)) k,
    ),
  )
  | inr e ↦ rw e (
    refl,
    refl,
    λ k h c. ground (
      arith,
      c,
      h,
      fill_sub_map_entry Process.net_handler m.dev 32 0 (update sub_map 0 (m.dev.net_sub_map 0)) k,
    ),
  )
]

report_all_lem :
    (d : DevShm) (sub_map : ℕ → ℕ) (junk : ℕ → ParamVal) (stale : LogData) (time : ℕ) (m : Shm)
    → m.dev ≡ d
    → HasUniqueUids d
    → m.log_data.num_params < 255
    → ((k : ℕ) → k < 32 → has_bit d.catalog k ≡ true → sub_map (k + 1) ≡ d.net_sub_map (k + 1))
    → (m' : Shm) × (report_all d.catalog d.dev_ids sub_map junk stale time m
        ≡ done (m', current_devices 32 0 d ++ (current_custom time m.log_data ∷ [])))
      × (m'.dev ≡ d)
unfolding report_all Reported
report_all_lem d sub_map junk stale time m q unique few masks =
    let all = report_devices-Reported 32 0 d sub_map junk m q unique (omega arith) masks in
    let m1 : Shm = (report_devices (valid_dev_idxs 32 0 d.catalog) d.dev_ids sub_map junk m).0 in
    let custom = custom_device_lem time stale m1 (rw all.2 few) in
    ((log_data_read stale m1).0, rw (custom, all.0, all.2) refl, unfold log_data_read in all.1)

-- While Dawn is connected, no two connected devices share a uid, and fewer than 255 values are
-- logged, a round of send_device_data sends each connected device of a type with a table, in the
-- order of the places, with just the parameters that net_handler subscribes to and the values
-- that the device sent last; then what the student's code logs, and the time. Nothing that the
-- arrays of the thread held before is sent.
pub send_round_reports :
    (sub_map : ℕ → ℕ) (junk : ℕ → ParamVal) (stale : LogData) (now start_time : ℕ) (m : Shm)
    → is_disconnected (m.fields dawn) ≡ false
    → HasUniqueUids m.dev
    → m.log_data.num_params < 255
    → (m' : Shm) × (send_round sub_map junk stale now start_time m
        ≡ done (
          m',
          some (
              current_devices 32 0 m.dev
              ++ (current_custom ((now + 2 ^ 64 - start_time) % 2 ^ 32) m.log_data ∷ [])),
        ))
      × (m'.dev ≡ m.dev)
unfolding send_round robot_desc_read get_catalog get_device_identifiers
send_round_reports sub_map junk stale now start_time m on unique few =
    let m2 : Shm = (get_catalog (robot_desc_read dawn m).0).0 in
    let poll = net_poll sub_map m2 in
    let m3 : Shm = (get_sub_requests Process.net_handler sub_map m2).0 in
    let sub_map' : ℕ → ℕ = (get_sub_requests Process.net_handler sub_map m2).1 in
    let m4 : Shm = (get_device_identifiers m3).0 in
    let time : ℕ = (now + 2 ^ 64 - start_time) % 2 ^ 32 in
    let all =
      report_all_lem m.dev sub_map' junk stale time m4 (unfold get_device_identifiers in poll.0)
        unique (unfold get_device_identifiers in (rw poll.1 few)) poll.2 in
    let packed : report_all m.dev.catalog m3.dev.dev_ids sub_map' junk stale time m4
        ≡ done (all.0, current_devices 32 0 m.dev ++ (current_custom time m.log_data ∷ [])) =
      ap (λ (d : DevShm). report_all m.dev.catalog d.dev_ids sub_map' junk stale time m4) poll.0
      ∙ all.1
      ∙ ap (λ l. done (all.0, current_devices 32 0 m.dev ++ (current_custom time l ∷ []))) poll.1 in
    (
      all.0,
      rw on (ap (λ (o : Outcome (Shm × List NetDevice)). o >>= (λ r. done (r.0, some r.1))) packed),
      all.2,
    )

custom_params-full :
    (left i : ℕ) (l : LogData) → i + left ≡ 255 → custom_params (suc left) i l ≡ fault
unfolding custom_params
custom_params-full zero i l h =
    let outside : ltb i 255 ≡ false = ground (arith, h) in rw outside refl
custom_params-full (suc left) i l h =
    let inside : ltb i 255 ≡ true = ground (arith, h) in
    rw (inside, custom_params-full left (i + 1) l (omega (arith, h))) refl

-- Once the student's code logs 255 values, the most that the log data holds, a round reads past the
-- arrays for them: the loop runs over the place of the time too.
pub custom_device-full :
    (time : ℕ) (l : LogData) → l.num_params ≡ 255 → custom_device time l ≡ fault
unfolding custom_device
custom_device-full time l h =
    let next : l.num_params + 1 ≡ suc 255 = omega (arith, h) in
    rw (next, custom_params-full 255 0 l refl) refl

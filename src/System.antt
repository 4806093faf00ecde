-- ===== src/System.antt =====
-- The processes together, over the shared memory: the threads of dev_handler, the rounds of the
-- executor, and the threads of net_handler, among single calls of any process.
mod Tests
use c_runtime.Prelude.{ℕ, zero, suc, ◌+◌, ◌<◌, ◌^◌, ◌%◌, ◌-◌, ◌≡◌, refl, sym, arith, inl, inr}
use c_runtime.Prelude.{
  Bool, true, false, ◌&&◌, List, [], ◌∷◌, Option, none, some, Outcome, done, fault, ◌>>=◌,
  Bool-cases, Option-cases, ◌==◌, length, not,
}
use mathlib.Core.Path.{subst}
use c_runtime.Prelude.Blocks.{>>=-eq-done}
use c_runtime.RuntimeUtil.Types.{
  DevId, ParamVal, Process, RobotDescField, dawn, connected, disconnected,
}
use c_runtime.RuntimeUtil.Lookup.{get_device}
use c_runtime.RuntimeUtil.FileIo.{ReadResult, WriteResult}
use c_runtime.Shm.Types.{Shm, LogData, data_stream}
use c_runtime.Shm.Inputs.{robot_desc_read, robot_desc_write, is_disconnected, is_gamepad}
use c_runtime.Shm.Devices.{get_catalog, get_device_identifiers}
use c_runtime.Shm.Subscriptions.{get_sub_requests}
use c_runtime.Shm.LogData.{log_data_read}
use c_runtime.Shm.Start.{start_shm}
use c_runtime.Shm.Valid.{IsDevShm, start_devices-IsDevShm}
use c_runtime.Shm.Steps.{Step, Step-IsDevShm, read_uid, poll, input}
use c_runtime.Relay.Threads.{Relay, Sender, Receiver, sender_round, receiver_round}
use c_runtime.Relay.Threads.Valid.{sender_round-IsDevShm, receiver_round-IsDevShm}
use c_runtime.Executor.Modes.{Pid, Executor, main_round}
use c_runtime.Executor.Modes.Runs.{main_round-IsDevShm}
use c_runtime.NetHandler.Protocol.{Protobuf, UserInput, NetDevice}
use c_runtime.NetHandler.TcpConn.{Status, recv_new_msg, tcp_conn_cleanup, same_field}
use c_runtime.NetHandler.TcpConn.Handlers.{recv_new_msg-Handled}
use c_runtime.NetHandler.TcpConn.Guards.{Handled-IsDevShm}
use c_runtime.NetHandler.UdpConn.{
  source_field, update_input, update_all, valid_dev_idxs, report_device, report_devices, report_all,
  custom_device, send_round,
}

cleanup-IsDevShm :
    (client : RobotDescField) (m : Shm) → IsDevShm m.dev → IsDevShm (tcp_conn_cleanup client m).dev
unfolding tcp_conn_cleanup robot_desc_write
cleanup-IsDevShm client m v = elim (Bool-cases (same_field client dawn)) [
  | inl e ↦ rw e v
  | inr e ↦ rw e v
]

update_input-IsDevShm : (i : UserInput) (m : Shm) → IsDevShm m.dev → IsDevShm (update_input i m).dev
unfolding update_input
update_input-IsDevShm i m v = elim (Bool-cases (i.connected == 0)) [
  | inl e ↦ rw e (unfold robot_desc_write in v)
  | inr e ↦
      let m1 : Shm = robot_desc_write (source_field i.source) connected m in
      elim (Bool-cases (is_gamepad (source_field i.source) && not (length i.axes == 4))) [
        | inl f ↦ rw (e, f) (unfold robot_desc_write in v)
        | inr f ↦
            rw (e, f)
              (Step-IsDevShm {m = m1} (input i.buttons _ (source_field i.source))
                (unfold robot_desc_write in v))
      ]
]

update_all-IsDevShm :
    (inputs : List UserInput) (m : Shm) → IsDevShm m.dev → IsDevShm (update_all inputs m).dev
unfolding update_all
update_all-IsDevShm [] m v = v
update_all-IsDevShm (i ∷ inputs) m v =
    update_all-IsDevShm inputs (update_input i m) (update_input-IsDevShm i m v)

report_devices-IsDevShm :
    (idxs : List ℕ) (dev_ids : ℕ → DevId) (sub_map : ℕ → ℕ) (junk : ℕ → ParamVal) (m : Shm)
    → IsDevShm m.dev
    → IsDevShm (report_devices idxs dev_ids sub_map junk m).0.dev
unfolding report_devices report_device
report_devices-IsDevShm [] dev_ids sub_map junk m v = v
report_devices-IsDevShm (idx ∷ idxs) dev_ids sub_map junk m v =
    elim (Option-cases (get_device (dev_ids idx).type)) [
      | inl e ↦ rw (report_devices, e) (report_devices-IsDevShm idxs dev_ids sub_map junk m v)
      | inr (info, e) ↦
          rw (report_devices, e)
            (report_devices-IsDevShm idxs dev_ids sub_map junk _ (
              Step-IsDevShm
                (read_uid (dev_ids idx).uid Process.net_handler data_stream (sub_map (idx + 1))
                  junk)
                v))
    ]

report_all-IsDevShm :
    (catalog : ℕ) (dev_ids : ℕ → DevId) (sub_map : ℕ → ℕ) (junk : ℕ → ParamVal) (stale : LogData)
    (time : ℕ) (m m' : Shm) (devices : List NetDevice)
    → report_all catalog dev_ids sub_map junk stale time m ≡ done (m', devices)
    → IsDevShm m.dev
    → IsDevShm m'.dev
unfolding report_all
report_all-IsDevShm catalog dev_ids sub_map junk stale time m m' devices e v =
    let m1 : Shm = (report_devices (valid_dev_idxs 32 0 catalog) dev_ids sub_map junk m).0 in
    let c = >>=-eq-done (custom_device time (log_data_read stale m1).1) _ e in
    let same : m' ≡ (log_data_read stale m1).0 = ground (arith, c.2) in
    subst (λ n. IsDevShm n.dev) (sym same)
      (unfold log_data_read in
        report_devices-IsDevShm (valid_dev_idxs 32 0 catalog) dev_ids sub_map junk m v)

send_round-IsDevShm :
    (sub_map : ℕ → ℕ) (junk : ℕ → ParamVal) (stale : LogData) (now start_time : ℕ) (m m' : Shm)
    (sent : Option (List NetDevice))
    → send_round sub_map junk stale now start_time m ≡ done (m', sent)
    → IsDevShm m.dev
    → IsDevShm m'.dev
unfolding send_round robot_desc_read get_catalog get_device_identifiers
send_round-IsDevShm sub_map junk stale now start_time m m' sent e v =
    elim (Bool-cases (is_disconnected (m.fields dawn))) [
      | inl f ↦
          let same : m' ≡ (robot_desc_read dawn m).0 = ground (arith, rw f at e) in
          subst (λ n. IsDevShm n.dev) (sym same) (unfold robot_desc_read in v)
      | inr f ↦
          let m2 : Shm = (get_catalog (robot_desc_read dawn m).0).0 in
          let p = Step-IsDevShm {m = m2} (poll Process.net_handler sub_map) v in
          let m3 : Shm = (get_sub_requests Process.net_handler sub_map m2).0 in
          let m4 : Shm = (get_device_identifiers m3).0 in
          let r =
            >>=-eq-done
              (report_all m.dev.catalog m3.dev.dev_ids
                (get_sub_requests Process.net_handler sub_map m2).1 junk stale
                ((now + 2 ^ 64 - start_time) % 2 ^ 32) m4)
              _ (rw f at e) in
          let same : m' ≡ r.0.0 = ground (arith, r.2) in
          subst (λ n. IsDevShm n.dev) (sym same)
            (report_all-IsDevShm m.dev.catalog m3.dev.dev_ids
              (get_sub_requests Process.net_handler sub_map m2).1 junk stale
              ((now + 2 ^ 64 - start_time) % 2 ^ 32) m4 r.0.0 r.0.1 r.1 p)
    ]

-- Runs of the whole. A round is one step, so the calls of a round do not overlap with others; calls
-- that do are single steps. What a process keeps for itself may be any, as its other threads change it.
pub data Rounds {Fd : Type 0} (malloc : ℕ → List ℕ) (protobuf : Protobuf)
    (read_call : Fd → ℕ → ReadResult × Fd) (write_call : Fd → List ℕ → WriteResult × Fd)
    : Shm → Type 0 where
  started : Rounds malloc protobuf read_call write_call start_shm
  called :
      {m n : Shm}
      → Rounds malloc protobuf read_call write_call m
      → Step m n
      → Rounds malloc protobuf read_call write_call n
  dev_sender :
      (fuel : ℕ) (relay : Relay) (now after : ℕ) (self self' : Sender Fd)
      → Rounds malloc protobuf read_call write_call self.shm
      → relay.shm_dev_idx < 32
      → sender_round malloc read_call write_call fuel relay now after self ≡ done (some self')
      → Rounds malloc protobuf read_call write_call self'.shm
  dev_receiver :
      (fuel now : ℕ) (self self' : Receiver Fd)
      → Rounds malloc protobuf read_call write_call self.shm
      → receiver_round malloc read_call write_call fuel now self ≡ done (some self')
      → Rounds malloc protobuf read_call write_call self'.shm
  executed :
      (forked : Pid) (s : Executor)
      → Rounds malloc protobuf read_call write_call s.shm
      → Rounds malloc protobuf read_call write_call (main_round forked s).shm
  net_message :
      (fuel : ℕ) (is_dawn : Bool) (sent : List ℕ → Option ℕ) (now : ℕ) (fd fd' : Fd) (m m' : Shm)
      (s : Status)
      → Rounds malloc protobuf read_call write_call m
      → recv_new_msg malloc protobuf read_call write_call fuel is_dawn sent now fd m
        ≡ done (some (s, fd', m'))
      → Rounds malloc protobuf read_call write_call m'
  net_closed :
      (client : RobotDescField) (m : Shm)
      → Rounds malloc protobuf read_call write_call m
      → Rounds malloc protobuf read_call write_call (tcp_conn_cleanup client m)
  net_inputs :
      (inputs : List UserInput) (m : Shm)
      → Rounds malloc protobuf read_call write_call m
      → Rounds malloc protobuf read_call write_call (update_all inputs m)
  net_report :
      (sub_map : ℕ → ℕ) (junk : ℕ → ParamVal) (stale : LogData) (now start_time : ℕ) (m m' : Shm)
      (sent : Option (List NetDevice))
      → Rounds malloc protobuf read_call write_call m
      → send_round sub_map junk stale now start_time m ≡ done (m', sent)
      → Rounds malloc protobuf read_call write_call m'

module _ {Fd : Type 0} (malloc : ℕ → List ℕ) (protobuf : Protobuf)
    (read_call : Fd → ℕ → ReadResult × Fd) (write_call : Fd → List ℕ → WriteResult × Fd) where
  -- From the state that shm_start leaves, by any sequence of whole rounds of the threads of
  -- dev_handler, of the executor and of the threads of net_handler, of single calls of any process,
  -- and of the locked parts of calls whose test of the catalog was made at any time before: every
  -- map holds 32-bit words, a command is flagged only for a device in the catalog, and no parameter
  -- is pending for a place without a device. A command of executor that was tested before is taken
  -- to find a device in its place when it gets its semaphores.
  pub Rounds-IsDevShm : {m : Shm} → Rounds malloc protobuf read_call write_call m → IsDevShm m.dev
  Rounds-IsDevShm started = unfold start_shm in start_devices-IsDevShm
  Rounds-IsDevShm (called r s) = Step-IsDevShm s (Rounds-IsDevShm r)
  Rounds-IsDevShm (dev_sender fuel relay now after self self' r below e) =
      sender_round-IsDevShm malloc read_call write_call fuel relay now after self self' below e
        (Rounds-IsDevShm r)
  Rounds-IsDevShm (dev_receiver fuel now self self' r e) =
      receiver_round-IsDevShm malloc read_call write_call fuel now self self' e (Rounds-IsDevShm r)
  Rounds-IsDevShm (executed forked s r) = main_round-IsDevShm forked s (Rounds-IsDevShm r)
  Rounds-IsDevShm (net_message fuel is_dawn sent now fd fd' m m' s r e) =
      Handled-IsDevShm is_dawn m m'
        (recv_new_msg-Handled malloc protobuf read_call write_call fuel is_dawn sent now fd m s fd'
          m' e)
        (Rounds-IsDevShm r)
  Rounds-IsDevShm (net_closed client m r) = cleanup-IsDevShm client m (Rounds-IsDevShm r)
  Rounds-IsDevShm (net_inputs inputs m r) = update_all-IsDevShm inputs m (Rounds-IsDevShm r)
  Rounds-IsDevShm (net_report sub_map junk stale now start_time m m' sent r e) =
      send_round-IsDevShm sub_map junk stale now start_time m m' sent e (Rounds-IsDevShm r)

-- ===== src/NetHandler/TcpConn.antt =====
-- The connection to a client over TCP, of net_handler/tcp_conn.c. Freeing and logging have no
-- effect on the state, and the sockets are parameters.
pub mod Handlers
pub mod Guards
pub mod Requests
use c_runtime.Prelude.{
  ℕ, zero, suc, ◌+◌, ◌*◌, ◌%◌, ◌^◌, Bool, true, false, not, ◌&&◌, ◌||◌, List, [], ◌∷◌, Option, none,
  some,
}
use c_runtime.Prelude.{
  Outcome, done, fault, ◌>>=◌, from_option, ◌==◌, ltb, if◌then◌else◌, bit_or, length, memcpy, slice,
  u16,
}
use c_runtime.RuntimeUtil.Types.{
  Process, RobotDescField, RobotDescVal, run_mode, dawn, shepherd, gamepad, keyboard, start_pos,
  hypothermia, poison_ivy, dehydration, idle, auto, teleop, challenge, connected, disconnected,
  left, right, active, inactive,
}
use c_runtime.RuntimeUtil.FileIo.{ReadResult, WriteResult, writen}
use c_runtime.Shm.Types.{Shm}
use c_runtime.Shm.Inputs.{robot_desc_read, robot_desc_write, field_index}
use c_runtime.Shm.Subscriptions.{place_sub_request}
use c_runtime.NetUtil.{make_buf, buffer_offset, MsgResult, end_of_file, message, parse_msg}
use c_runtime.Relay.{◌then◌}
use c_runtime.NetHandler.Protocol.{
  run_mode_msg, start_pos_msg, challenge_data_msg, log_msg, device_data_msg, game_state_msg,
  time_stamp_msg, Mode, mode_idle, mode_auto, mode_teleop, mode_estop, mode_other, Pos, pos_left,
  pos_right, pos_other, State, state_poison_ivy, state_dehydration, state_hypothermia_start,
  state_hypothermia_end, state_other, Val, no_val, ival, fval, bval, Param, NetDevice, TimeStamps,
  Protobuf,
}

-- The results 0, -1 and -2 of `recv_new_msg`.
pub data Status : Type 0 where
  processed closed bad : Status

abbrev pub is_connected : RobotDescVal → Bool
is_connected connected = true
is_connected _ = false

abbrev pub same_field : RobotDescField → RobotDescField → Bool
same_field a b = field_index a == field_index b

-- What `tcp_conn_cleanup` leaves in the robot description; it also closes the files.
unfoldable pub tcp_conn_cleanup : RobotDescField → Shm → Shm
tcp_conn_cleanup client m =
    let m1 = robot_desc_write run_mode idle m in
    let m2 = robot_desc_write client disconnected m1 in
    if same_field client dawn
    then robot_desc_write keyboard disconnected (robot_desc_write gamepad disconnected m2)
    else m2

-- A request for challenges; `sent` is the result of `sendto`, `none` for -1.
unfoldable pub recv_challenge : Option ℕ → Shm → Shm × Status
recv_challenge none m = (m, bad)
recv_challenge (some sent) m = (robot_desc_write run_mode challenge m, processed)

-- The two modes that Dawn may not start while Shepherd is connected.
abbrev pub is_match_mode : Mode → Bool
is_match_mode mode_auto = true
is_match_mode mode_teleop = true
is_match_mode _ = false

-- The switch on the mode; the default branch prints the number of the mode with `%s`, which follows
-- it as a pointer.
unfoldable pub enter_mode : Mode → Shm → Outcome Shm
enter_mode mode_idle m = done (robot_desc_write run_mode idle m)
enter_mode mode_auto m = done (robot_desc_write run_mode auto m)
enter_mode mode_teleop m = done (robot_desc_write run_mode teleop m)
enter_mode mode_estop m = done (robot_desc_write run_mode idle m)
enter_mode mode_other m = fault

-- The first argument is whether this is the thread of Dawn.
unfoldable pub recv_run_mode : Bool → Option Mode → Shm → Outcome (Shm × Status)
recv_run_mode is_dawn none m = done (m, bad)
recv_run_mode is_dawn (some mode) m =
    if is_dawn
    then (let (m1, val) = robot_desc_read shepherd m in
        if is_connected val && is_match_mode mode
        then done (m1, processed)
        else enter_mode mode m1 >>= (λ m2. done (m2, processed)))
    else enter_mode mode m >>= (λ m1. done (m1, processed))

unfoldable pub recv_start_pos : Option Pos → Shm → Shm × Status
recv_start_pos none m = (m, bad)
recv_start_pos (some pos_left) m = (robot_desc_write start_pos left m, processed)
recv_start_pos (some pos_right) m = (robot_desc_write start_pos right m, processed)
recv_start_pos (some pos_other) m = (m, processed)

-- `bval << j` of a 32-bit int, which is not defined from 32 on.
unfoldable pub request_bit : ℕ → Val → Outcome ℕ
request_bit j (bval b) = if ltb j 32 then done ((b * 2 ^ j) % 2 ^ 32) else fault
request_bit j _ = done 0

-- The loop over the parameters, from `j` on.
unfoldable pub requests_loop : ℕ → List Param → ℕ → Outcome ℕ
requests_loop j [] requests = done requests
requests_loop j (param ∷ params) requests =
    request_bit j param.val >>= (λ bit. requests_loop (j + 1) params (bit_or requests bit))

-- The loop over the devices; a request for a device that is not there is only logged.
unfoldable pub place_requests : List NetDevice → Shm → Outcome Shm
place_requests [] m = done m
place_requests (req_device ∷ devices) m = requests_loop 0 req_device.params 0 >>= (λ requests.
    place_requests devices (place_sub_request req_device.uid Process.net_handler requests m).0)

unfoldable pub recv_dev_data : Option (List NetDevice) → Shm → Outcome (Shm × Status)
recv_dev_data none m = done (m, bad)
recv_dev_data (some devices) m = place_requests devices m >>= (λ m1. done (m1, processed))

-- The default branch prints the number of the state with `%s`.
unfoldable pub recv_game_state : Option State → Shm → Outcome (Shm × Status)
recv_game_state none m = done (m, bad)
recv_game_state (some state_poison_ivy) m = done (robot_desc_write poison_ivy active m, processed)
recv_game_state (some state_dehydration) m = done (robot_desc_write dehydration active m, processed)
recv_game_state (some state_hypothermia_start) m =
    done (robot_desc_write hypothermia active m, processed)
recv_game_state (some state_hypothermia_end) m =
    done (robot_desc_write hypothermia inactive m, processed)
recv_game_state (some state_other) m = fault

module _ {Fd : Type 0} (malloc : ℕ → List ℕ) (protobuf : Protobuf)
    (read_call : Fd → ℕ → ReadResult × Fd) (write_call : Fd → List ℕ → WriteResult × Fd) where
  -- A packed message with its header on the connection; a failure to write is only logged. The
  -- length is cut to 16 bits, and `memcpy` is what the generated function does.
  unfoldable pub send_packed : ℕ → ℕ → List ℕ → Fd → Outcome (Option Fd)
  send_packed fuel msg_type bytes fd =
      let len_pb = u16 (length bytes) in
      make_buf malloc msg_type len_pb >>= (λ header.
        memcpy header buffer_offset bytes >>= (λ send_buf.
          writen write_call fuel fd send_buf (u16 (len_pb + buffer_offset))
          then (λ r. done (some r.1))))

  -- `now` is what `millis` returns; NULL is followed.
  unfoldable pub send_timestamp_msg : ℕ → ℕ → Option TimeStamps → Fd → Outcome (Option Fd)
  send_timestamp_msg fuel now msg fd = from_option msg >>= (λ t.
      send_packed fuel time_stamp_msg
        (protobuf.time_stamps_pack (record t { runtime_timestamp = now })) fd)

  -- `received` is what `recvfrom` gives, `none` for -1.
  unfoldable pub send_challenge_results : ℕ → Option (List ℕ) → Fd → Outcome (Option Fd)
  send_challenge_results fuel none fd = done (some fd)
  send_challenge_results fuel (some bytes) fd =
      writen write_call fuel fd bytes (length bytes) then (λ r. done (some r.1))

  -- What is done with a message; `sent` is the result of `sendto` to the executor.
  unfoldable pub process_msg :
      ℕ
      → Bool
      → (List ℕ → Option ℕ)
      → ℕ
      → ℕ
      → List ℕ
      → Fd
      → Shm
      → Outcome (Option (Status × Fd × Shm))
  process_msg fuel is_dawn sent now msg_type bytes fd m =
      if msg_type == challenge_data_msg
      then (let (m1, status) = recv_challenge (sent bytes) m in done (some (status, fd, m1)))
      else if msg_type == run_mode_msg
      then recv_run_mode is_dawn (protobuf.run_mode_unpack bytes) m
        >>= (λ r. done (some (r.1, fd, r.0)))
      else if msg_type == start_pos_msg
      then (let (m1, status) = recv_start_pos (protobuf.start_pos_unpack bytes) m in
          done (some (status, fd, m1)))
      else if msg_type == device_data_msg
      then recv_dev_data (protobuf.dev_data_unpack bytes) m >>= (λ r. done (some (r.1, fd, r.0)))
      else if msg_type == game_state_msg
      then recv_game_state (protobuf.game_state_unpack bytes) m
        >>= (λ r. done (some (r.1, fd, r.0)))
      else if msg_type == time_stamp_msg
      then send_timestamp_msg fuel now (protobuf.time_stamps_unpack bytes) fd
      then (λ fd1. done (some (processed, fd1, m)))
      else done (some (bad, fd, m))

  -- What is done with the result of `parse_msg`.
  unfoldable pub recv_parsed :
      ℕ
      → Bool
      → (List ℕ → Option ℕ)
      → ℕ
      → MsgResult
      → Fd
      → Shm
      → Outcome (Option (Status × Fd × Shm))
  recv_parsed fuel is_dawn sent now end_of_file fd m = done (some (closed, fd, m))
  recv_parsed fuel is_dawn sent now (message msg_type len_pb buf) fd m =
      slice buf 0 len_pb >>= (λ bytes. process_msg fuel is_dawn sent now msg_type bytes fd m)

  -- A read that fails is taken for a message that was read, as `readn` does not report it.
  unfoldable pub recv_new_msg :
      ℕ → Bool → (List ℕ → Option ℕ) → ℕ → Fd → Shm → Outcome (Option (Status × Fd × Shm))
  recv_new_msg fuel is_dawn sent now fd m =
      parse_msg malloc read_call write_call fuel fd
      then (λ r. recv_parsed fuel is_dawn sent now r.0 r.1 m)

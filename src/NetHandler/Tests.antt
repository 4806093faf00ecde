-- ===== src/NetHandler/Tests.antt =====
-- The properties of net_handler at concrete messages.
use c_runtime.Prelude.{ℕ, ◌+◌, ◌-◌, ◌%◌, ◌^◌, ◌<◌, ◌≡◌, refl, sym, ◌∙◌, arith}
use c_runtime.Prelude.{
  true, List, [], ◌∷◌, ◌++◌, none, some, done, take, drop, replicate, get_or, if◌then◌else◌, ◌==◌,
}
use c_runtime.Prelude.Bits.{has_bit, has_bit-set, has_bit-zero}
use c_runtime.RuntimeUtil.Types.{DevId, run_mode, dawn, shepherd, gamepad, teleop, connected}
use c_runtime.RuntimeUtil.FileIo.{ReadResult, got, WriteResult, took, readn, readn_loop}
use c_runtime.Shm.Types.{Shm}
use c_runtime.Shm.Devices.Places.{HasUniqueUids}
use c_runtime.Shm.Inputs.{robot_desc_read, field_index, input_read, ok}
use c_runtime.Shm.Start.{start_shm, start_devices}
use c_runtime.NetUtil.{parse_msg}
use c_runtime.NetHandler.Protocol.{
  Protobuf, mode_auto, UserInput, source_gamepad, Param, bval, literal,
}
use c_runtime.NetHandler.TcpConn.{
  processed, recv_run_mode, process_msg, recv_parsed, recv_new_msg, requests_loop,
}
use c_runtime.NetHandler.TcpConn.Guards.{recv_new_msg-guarded}
use c_runtime.NetHandler.TcpConn.Requests.{wants, requests_wanted}
use c_runtime.NetHandler.Sessions.{Setup, Clients, accept_round, end_thread, got_id}
use c_runtime.NetHandler.Sessions.Marks.{
  IsClients, none_yet, and_then, accepted, left_dawn, Events-IsClients,
}
use c_runtime.NetHandler.UdpConn.{update_input, send_round}
use c_runtime.NetHandler.UdpConn.Reports.{current_devices, current_custom, send_round_reports}
use c_runtime.NetHandler.UdpConn.Inputs.{gamepad_update_read}

-- A stream that gives one byte at a time.
abbrev one_byte : List ℕ → ℕ → ReadResult × List ℕ
one_byte fd n = (got (take 1 fd), drop 1 fd)

abbrev no_write : List ℕ → List ℕ → WriteResult × List ℕ
no_write fd bytes = (took 0, fd)

abbrev zeros : ℕ → List ℕ
zeros n = replicate n 0

-- Protobuf code in which every message about the run mode asks for AUTO.
abbrev auto_protobuf : Protobuf
auto_protobuf = record {
  run_mode_unpack = λ b. some mode_auto;
  start_pos_unpack = λ b. none;
  dev_data_unpack = λ b. none;
  game_state_unpack = λ b. none;
  time_stamps_unpack = λ b. none;
  time_stamps_pack = λ t. [];
  text_pack = λ t. [];
  user_inputs_unpack = λ b. none;
}

-- Both clients are connected, and the robot is in TELEOP.
abbrev in_match : Shm
in_match = record start_shm { fields = λ f. if field_index f == 0 then teleop else connected }

abbrev mark_read : Shm
mark_read = (robot_desc_read shepherd in_match).0

auto_refused :
    recv_new_msg zeros auto_protobuf one_byte no_write 9 true
      (λ b. none)
      0
      (0 ∷ 1 ∷ 0 ∷ 7 ∷ [])
      in_match
    ≡ done (some (processed, [], mark_read))
unfolding recv_new_msg recv_parsed process_msg recv_run_mode parse_msg readn readn_loop
    robot_desc_read
auto_refused = refl

recv_new_msg-guarded_example : mark_read.fields run_mode ≡ in_match.fields run_mode
unfolding robot_desc_read
recv_new_msg-guarded_example =
    recv_new_msg-guarded zeros auto_protobuf one_byte no_write 9 (λ b. none) 0 (0 ∷ 1 ∷ 0 ∷ 7 ∷ [])
      [] in_match mark_read processed refl auto_refused refl

-- Two parameters, of which the second is asked for.
abbrev asked : List Param
asked =
    record { name = literal "a"; val = bval 0; readonly = 0 }
    ∷ record { name = literal "b"; val = bval 1; readonly = 0 }
    ∷ []

requests_wanted_example :
    (r : ℕ) × (requests_loop 0 asked 0 ≡ done r) × ((i : ℕ) → has_bit r i ≡ wants asked i)
requests_wanted_example = requests_wanted asked (omega arith) (omega arith, (omega arith, tt))

abbrev works : Setup
works = record {
  socket_ok = true;
  bind_ok = true;
  open_ok = true;
  fdopen_ok = true;
  thread_ok = true;
}

-- Dawn connects, connects again without having left, and leaves.
abbrev nobody : Clients
nobody = record { dawn_thread = none; shepherd_thread = none; shm = start_shm }

abbrev dawn_there : Clients
dawn_there = accept_round works (got_id 1) true (accept_round works (got_id 1) true nobody)

Events-IsClients_example : IsClients (end_thread dawn dawn_there)
Events-IsClients_example = Events-IsClients (
    and_then
      (and_then (and_then none_yet (accepted works (got_id 1) true))
        (accepted works (got_id 1) true))
      left_dawn)

-- One device at place 3, with parameter 0 subscribed to.
abbrev servo : DevId
servo = record { type = 4; year = 2; uid = 77 }

abbrev one_servo : Shm
one_servo = record start_shm {
  dev = record start_devices { catalog = 8; dev_ids = λ i. servo; net_sub_map = λ i. 1 };
  fields = λ f. connected;
}

one_place : (i : ℕ) → i < 32 → has_bit 8 i ≡ true → i ≡ 3
one_place i h e = ground (arith, e, has_bit-set i 3 0, has_bit-zero i)

one_servo-HasUniqueUids : HasUniqueUids one_servo.dev
one_servo-HasUniqueUids i j h k a b e = one_place i h a ∙ sym (one_place j k b)

send_round_reports_example :
    (m' : Shm) × (send_round (λ i. 0) (λ i. 9) one_servo.log_data 250 50 one_servo
      ≡ done (
        m',
        some (
            current_devices 32 0 one_servo.dev
            ++ (current_custom ((250 + 2 ^ 64 - 50) % 2 ^ 32) one_servo.log_data ∷ [])),
      ))
    × (m'.dev ≡ one_servo.dev)
unfolding start_shm
send_round_reports_example =
    send_round_reports (λ i. 0) (λ i. 9) one_servo.log_data 250 50 one_servo refl
      one_servo-HasUniqueUids (omega arith)

abbrev pressed : UserInput
pressed = record { source = source_gamepad; connected = 1; buttons = 5; axes = 1 ∷ 2 ∷ 3 ∷ 4 ∷ [] }

gamepad_update_read_example :
    (read : ℕ → ℕ) × ((input_read (λ i. 0) gamepad (update_input pressed start_shm)).1
      ≡ ok (5, read))
    × ((j : ℕ) → j < 4 → read j ≡ get_or pressed.axes j 0)
gamepad_update_read_example =
    gamepad_update_read pressed (λ i. 0) start_shm refl (λ e. omega (arith, e)) refl

-- ===== src/System/Tests.antt =====
-- The processes together at a concrete run.
use c_runtime.Prelude.{ℕ, ◌≡◌, refl, arith, List, [], ◌∷◌, none, some, done, replicate}
use c_runtime.Prelude.Bits.{has_bit}
use c_runtime.RuntimeUtil.Types.{DevId, Process, dawn}
use c_runtime.RuntimeUtil.FileIo.{ReadResult, got, WriteResult, took}
use c_runtime.Shm.Types.{Shm}
use c_runtime.Shm.Devices.{device_connect}
use c_runtime.Shm.Start.{start_shm, start_devices}
use c_runtime.Shm.Params
use c_runtime.Shm.Subscriptions.{get_sub_requests, fill_sub_map}
use c_runtime.Relay.Threads.{Relay, Sender, send_write, send_ping, send_request, sender_round}
use c_runtime.Shm.Valid.{IsDevShm}
use c_runtime.Shm.Steps.{connect}
use c_runtime.Executor.Modes.{start_executor, main_round}
use c_runtime.NetHandler.Protocol.{Protobuf, UserInput, source_gamepad}
use c_runtime.NetHandler.TcpConn.{tcp_conn_cleanup}
use c_runtime.NetHandler.UdpConn.{update_all}
use c_runtime.System.{
  started, dev_sender, called, executed, net_closed, net_inputs, Rounds-IsDevShm,
}

-- Protobuf code that unpacks nothing.
abbrev no_protobuf : Protobuf
no_protobuf = record {
  run_mode_unpack = λ b. none;
  start_pos_unpack = λ b. none;
  dev_data_unpack = λ b. none;
  game_state_unpack = λ b. none;
  time_stamps_unpack = λ b. none;
  time_stamps_pack = λ t. [];
  text_pack = λ t. [];
  user_inputs_unpack = λ b. none;
}

abbrev no_read : ℕ → ℕ → ReadResult × ℕ
no_read fd n = (got [], fd)

abbrev no_write : ℕ → List ℕ → WriteResult × ℕ
no_write fd bytes = (took 0, fd)

abbrev zeros : ℕ → List ℕ
zeros n = replicate n 0

abbrev servo_id : DevId
servo_id = record { type = 4; year = 1; uid = 77 }

abbrev servo_relay : Relay
servo_relay = record { shm_dev_idx = 3; dev_id = servo_id; last_received_msg_time = 0 }

abbrev quiet : Sender ℕ
quiet = record {
  shm = start_shm;
  fd = 0;
  params = λ i. 0;
  sub_map = λ i. 0;
  last_sent_ping_time = 10;
}

abbrev polled : Shm × (ℕ → ℕ)
polled = get_sub_requests Process.dev_handler (λ i. 0) (Params.get_cmd_map start_shm).0

-- Nothing is asked for, and no ping is due.
idle_round :
    sender_round zeros no_read no_write 5 servo_relay 20 21 quiet
    ≡ done (
        some (record {
          shm = polled.0;
          fd = 0;
          params = λ i. 0;
          sub_map = polled.1;
          last_sent_ping_time = 10;
        }))
unfolding sender_round send_write send_ping send_request has_bit Params.get_cmd_map get_sub_requests
    start_shm start_devices fill_sub_map
idle_round = refl

abbrev koala : DevId
koala = record { type = 6; year = 1; uid = 77 }

abbrev pressed : UserInput
pressed = record { source = source_gamepad; connected = 1; buttons = 5; axes = 1 ∷ 2 ∷ 3 ∷ 4 ∷ [] }

abbrev one_device : Shm
one_device = (device_connect koala polled.0).0

abbrev with_input : Shm
with_input = update_all (pressed ∷ []) one_device

abbrev closed : Shm
closed = tcp_conn_cleanup dawn with_input

Rounds-IsDevShm_example :
    IsDevShm (main_round none (record (start_executor closed) { shm = closed })).shm.dev
Rounds-IsDevShm_example = Rounds-IsDevShm zeros no_protobuf no_read no_write (
    executed none (record (start_executor closed) { shm = closed })
      (net_closed dawn with_input (
        net_inputs (pressed ∷ []) one_device (
          called (dev_sender 5 servo_relay 20 21 quiet _ started (omega arith) idle_round)
            (connect koala)))))

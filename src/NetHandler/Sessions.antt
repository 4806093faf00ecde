-- ===== src/NetHandler/Sessions.antt =====
-- The life of a connection: the rounds of `tcp_process`, starting and stopping it, of
-- net_handler/tcp_conn.c, and the clients that `main` accepts, of net_handler/net_handler.c.
pub mod Ends
pub mod Marks
use c_runtime.Prelude.{
  ℕ, zero, suc, ◌+◌, Bool, true, false, not, ◌&&◌, ◌||◌, List, [], ◌∷◌, ◌++◌, Option, none, some,
}
use c_runtime.Prelude.{Outcome, done, fault, ◌>>=◌, ◌==◌, if◌then◌else◌, length}
use c_runtime.RuntimeUtil.Types.{
  RobotDescField, RobotDescVal, dawn, shepherd, connected, disconnected,
}
use c_runtime.RuntimeUtil.FileIo.{ReadResult, WriteResult}
use c_runtime.Shm.Types.{Shm}
use c_runtime.Shm.Inputs.{robot_desc_read, robot_desc_write, is_disconnected}
use c_runtime.Relay.{◌then◌}
use c_runtime.NetHandler.Protocol.{log_msg, Protobuf}
use c_runtime.NetHandler.TcpConn.{
  Status, processed, closed, bad, same_field, is_connected, tcp_conn_cleanup, send_packed,
  send_challenge_results, recv_new_msg,
}

-- The results of `fgets` on the pipe of the logs: a line, or NULL for one of three reasons.
pub data LogRead : Type 0 where
  line : List ℕ → LogRead
  at_end would_block read_failed : LogRead

abbrev pub max_num_logs : ℕ
max_num_logs = 16

-- The lines that are to be sent, with the calls of `fgets` as the list of their results; `none`
-- where `send_log_msg` returns without sending.
unfoldable pub read_logs : ℕ → List LogRead → List (List ℕ) → Option (List (List ℕ))
read_logs zero reads payload = some payload
read_logs (suc room) [] payload = some payload
read_logs (suc room) (line l ∷ reads) payload = read_logs room reads (payload ++ (l ∷ []))
read_logs (suc room) (at_end ∷ reads) payload = if length payload == 0 then none else some payload
read_logs (suc room) (would_block ∷ reads) payload = some payload
read_logs (suc room) (read_failed ∷ reads) payload = none

-- What `select` reports of the three files, and what there is to read from the two that are not the
-- connection.
pub record Ready : Type 0 where
  pub log_ready : Bool
  pub challenge_ready : Bool
  pub conn_ready : Bool
  pub logs : List LogRead
  pub results : Option (List ℕ)

-- The arguments of the thread.
pub record TcpConn : Type 0 where
  pub client : RobotDescField
  pub send_logs : Bool

module _ {Fd : Type 0} (malloc : ℕ → List ℕ) (protobuf : Protobuf)
    (read_call : Fd → ℕ → ReadResult × Fd) (write_call : Fd → List ℕ → WriteResult × Fd) where
  unfoldable pub send_log_msg : ℕ → List LogRead → Fd → Outcome (Option Fd)
  send_log_msg fuel reads fd = elim (read_logs max_num_logs reads []) [
    | none ↦ done (some fd)
    | some payload ↦
        send_packed malloc protobuf read_call write_call fuel log_msg (protobuf.text_pack payload)
          fd
  ]

  -- One round of the loop of `tcp_process` after `select`; the result says whether it goes on.
  unfoldable pub tcp_round :
      ℕ → TcpConn → (List ℕ → Option ℕ) → ℕ → Ready → Fd → Shm → Outcome (Option (Bool × Fd × Shm))
  tcp_round fuel args sent now ready fd m =
      (if args.send_logs && ready.log_ready
        then send_log_msg fuel ready.logs fd
        else done (some fd))
      then (λ fd1.
          (if ready.challenge_ready
            then send_challenge_results malloc protobuf read_call write_call fuel ready.results fd1
            else done (some fd1))
          then (λ fd2.
              if ready.conn_ready
              then recv_new_msg malloc protobuf read_call write_call fuel
                  (same_field args.client dawn) sent now fd2 m
              then (λ r. elim r.0 [
                | closed ↦ done (some (false, r.1, r.2))
                | processed ↦ done (some (true, r.1, r.2))
                | bad ↦ done (some (true, r.1, r.2))
              ])
              else done (some (true, fd2, m))))

-- The calls of `start_tcp_conn` that can fail.
pub record Setup : Type 0 where
  pub socket_ok : Bool
  pub bind_ok : Bool
  pub open_ok : Bool
  pub fdopen_ok : Bool
  pub thread_ok : Bool

-- The threads of the two clients that run, and the shared memory.
pub record Clients : Type 0 where
  pub dawn_thread : Option TcpConn
  pub shepherd_thread : Option TcpConn
  pub shm : Shm

unfoldable pub put_thread : RobotDescField → Option TcpConn → Clients → Clients
put_thread client thread s =
    if same_field client dawn
    then record s { dawn_thread = thread }
    else record s { shepherd_thread = thread }

-- A client that is neither Dawn nor Shepherd is refused.
abbrev pub is_client : RobotDescField → Bool
is_client client = same_field client dawn || same_field client shepherd

unfoldable pub start_tcp_conn : Setup → RobotDescField → Bool → Clients → Clients
start_tcp_conn setup client send_logs s =
    if is_client client
      && (setup.socket_ok
          && (setup.bind_ok
              && ((not send_logs || (setup.open_ok && setup.fdopen_ok)) && setup.thread_ok)))
    then (let s1 = put_thread client (some (record { client = client; send_logs = send_logs })) s in
        record s1 { shm = robot_desc_write client connected s1.shm })
    else s

-- The end of a thread, by itself or by `pthread_cancel` and `pthread_join`: its cleanup runs.
unfoldable pub end_thread : RobotDescField → Clients → Clients
end_thread client s = elim (if same_field client dawn then s.dawn_thread else s.shepherd_thread) [
  | none ↦ s
  | some args ↦
      let s1 = put_thread client none s in record s1 { shm = tcp_conn_cleanup args.client s1.shm }
]

unfoldable pub stop_tcp_conn : RobotDescField → Clients → Clients
stop_tcp_conn client s = if is_client client then end_thread client s else s

-- The results of `select` with its time-out, and of `read`.
pub data IdRead : Type 0 where
  select_failed timed_out read_failed : IdRead
  no_byte : IdRead
  got_id : ℕ → IdRead

unfoldable pub determine_client : IdRead → ℕ
determine_client select_failed = 255
determine_client timed_out = 254
determine_client read_failed = 253
determine_client no_byte = 255
determine_client (got_id client_id) = client_id

-- A connection for a client: one that is still there is stopped first.
unfoldable pub reconnect : Setup → RobotDescField → Bool → Clients → Clients
reconnect setup client send_logs s =
    let (m1, val) = robot_desc_read client s.shm in
    let s1 = record s { shm = m1 } in
    start_tcp_conn setup client send_logs
      (if is_disconnected val then s1 else stop_tcp_conn client s1)

-- One round of the loop of `main`, where `accept` gave a connection; `is_inet` is whether it is one
-- of IPv4.
unfoldable pub accept_round : Setup → IdRead → Bool → Clients → Clients
accept_round setup id is_inet s =
    let client_id = determine_client id in
    if client_id == 0 && is_inet
    then reconnect setup shepherd false s
    else if client_id == 1 && is_inet
    then reconnect setup dawn true s
    else s

-- `sigint_handler`, after which the process ends.
unfoldable pub sigint_handler : Clients → Clients
sigint_handler s =
    let (m1, val) = robot_desc_read shepherd s.shm in
    let s1 = record s { shm = m1 } in
    let s2 = if is_connected val then stop_tcp_conn shepherd s1 else s1 in
    let (m3, val') = robot_desc_read dawn s2.shm in
    let s3 = record s2 { shm = m3 } in if is_connected val' then stop_tcp_conn dawn s3 else s3

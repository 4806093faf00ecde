-- ===== src/NetHandler/TcpConn/Handlers.antt =====
-- Each message that recv_new_msg processes changes the shared memory as one of its handlers does.
use c_runtime.Prelude.{ℕ, ◌≡◌, refl, sym, ◌∙◌, arith, inl, inr}
use c_runtime.Prelude.{
  Bool, true, false, ◌&&◌, List, Option, none, some, done, ◌==◌, Bool-cases, slice,
}
use mathlib.Core.Path.{subst}
use c_runtime.Prelude.Blocks.{>>=-eq-done}
use c_runtime.RuntimeUtil.FileIo.{ReadResult, WriteResult}
use c_runtime.RuntimeUtil.Types.{
  RobotDescVal, run_mode, shepherd, auto, teleop, idle, poison_ivy, dehydration, hypothermia,
  active, inactive,
}
use c_runtime.Shm.Types.{Shm}
use c_runtime.Shm.Inputs.{robot_desc_read, robot_desc_write}
use c_runtime.NetUtil.{MsgResult, end_of_file, message, parse_msg}
use c_runtime.Relay.Inversion.{then-eq-done}
use c_runtime.NetHandler.Protocol.{
  run_mode_msg, start_pos_msg, challenge_data_msg, device_data_msg, game_state_msg, Mode, Pos,
  State, NetDevice, Protobuf, mode_idle, mode_auto, mode_teleop, mode_estop, mode_other,
  state_poison_ivy, state_dehydration, state_hypothermia_start, state_hypothermia_end, state_other,
}
use c_runtime.NetHandler.TcpConn.{
  Status, is_connected, is_match_mode, enter_mode, recv_challenge, recv_run_mode, recv_start_pos,
  recv_dev_data, recv_game_state, process_msg, recv_parsed, recv_new_msg,
}

-- The two run modes of a match.
abbrev pub is_match_val : RobotDescVal → Bool
is_match_val auto = true
is_match_val teleop = true
is_match_val _ = false

-- What a message about the run mode does to the shared memory: nothing, a refused mode of a match,
-- or a mode that is entered.
pub data ModeWritten (is_dawn : Bool) (m : Shm) : Shm → Type 0 where
  not_unpacked : ModeWritten is_dawn m m
  refused : ModeWritten is_dawn m (robot_desc_read shepherd m).0
  by_dawn :
      (v : RobotDescVal)
      → is_connected (m.fields shepherd) && is_match_val v ≡ false
      → ModeWritten is_dawn m (robot_desc_write run_mode v (robot_desc_read shepherd m).0)
  by_shepherd :
      (v : RobotDescVal) → is_dawn ≡ false → ModeWritten is_dawn m (robot_desc_write run_mode v m)

-- What a message about the state of the game does.
pub data StateWritten (m : Shm) : Shm → Type 0 where
  no_state : StateWritten m m
  ivy : (v : RobotDescVal) → StateWritten m (robot_desc_write poison_ivy v m)
  dry : (v : RobotDescVal) → StateWritten m (robot_desc_write dehydration v m)
  cold : (v : RobotDescVal) → StateWritten m (robot_desc_write hypothermia v m)

pub data Handled (is_dawn : Bool) (m : Shm) : Shm → Type 0 where
  by_challenge : (sent : Option ℕ) → Handled is_dawn m (recv_challenge sent m).0
  by_run_mode : {n : Shm} → ModeWritten is_dawn m n → Handled is_dawn m n
  by_start_pos : (pos : Option Pos) → Handled is_dawn m (recv_start_pos pos m).0
  by_dev_data :
      (devices : Option (List NetDevice)) (r : Shm × Status)
      → recv_dev_data devices m ≡ done r
      → Handled is_dawn m r.0
  by_game_state : {n : Shm} → StateWritten m n → Handled is_dawn m n
  by_none : Handled is_dawn m m

-- Inversion of the switch.
enter_mode_inv :
    (mode : Mode) (m n : Shm)
    → enter_mode mode m ≡ done n
    → (v : RobotDescVal) × (n ≡ robot_desc_write run_mode v m)
      × (is_match_val v ≡ is_match_mode mode)
unfolding enter_mode
enter_mode_inv mode_idle m n e = (idle, ground (arith, e), refl)
enter_mode_inv mode_auto m n e = (auto, ground (arith, e), refl)
enter_mode_inv mode_teleop m n e = (teleop, ground (arith, e), refl)
enter_mode_inv mode_estop m n e = (idle, ground (arith, e), refl)
enter_mode_inv mode_other m n e = absurd (cc e)

recv_run_mode-ModeWritten :
    (is_dawn : Bool) (mode : Option Mode) (m : Shm) (r : Shm × Status)
    → recv_run_mode is_dawn mode m ≡ done r
    → ModeWritten is_dawn m r.0
unfolding recv_run_mode robot_desc_read
recv_run_mode-ModeWritten is_dawn none m r e =
    let same : r.0 ≡ m = ground (arith, e) in subst (ModeWritten is_dawn m) (sym same) not_unpacked
recv_run_mode-ModeWritten false (some mode) m r e =
    let p = >>=-eq-done (enter_mode mode m) _ e in
    let q = enter_mode_inv mode m p.0 p.1 in
    let same : r.0 ≡ p.0 = ground (arith, p.2) in
    subst (ModeWritten false m) (sym (same ∙ q.1)) (by_shepherd q.0 refl)
recv_run_mode-ModeWritten true (some mode) m r e =
    elim (Bool-cases (is_connected (m.fields shepherd) && is_match_mode mode)) [
      | inl f ↦
          let same : r.0 ≡ (robot_desc_read shepherd m).0 = ground (arith, rw f at e) in
          subst (ModeWritten true m) (sym same) refused
      | inr f ↦
          let m1 : Shm = (robot_desc_read shepherd m).0 in
          let p = >>=-eq-done (enter_mode mode m1) _ (rw f at e) in
          let q = enter_mode_inv mode m1 p.0 p.1 in
          let same : r.0 ≡ p.0 = ground (arith, p.2) in
          subst (ModeWritten true m) (sym (same ∙ q.1)) (by_dawn q.0 (rw q.2 f))
    ]

recv_game_state-StateWritten :
    (state : Option State) (m : Shm) (r : Shm × Status)
    → recv_game_state state m ≡ done r
    → StateWritten m r.0
unfolding recv_game_state
recv_game_state-StateWritten none m r e =
    let same : r.0 ≡ m = ground (arith, e) in subst (StateWritten m) (sym same) no_state
recv_game_state-StateWritten (some state_poison_ivy) m r e =
    let same : r.0 ≡ robot_desc_write poison_ivy active m = ground (arith, e) in
    subst (StateWritten m) (sym same) (ivy active)
recv_game_state-StateWritten (some state_dehydration) m r e =
    let same : r.0 ≡ robot_desc_write dehydration active m = ground (arith, e) in
    subst (StateWritten m) (sym same) (dry active)
recv_game_state-StateWritten (some state_hypothermia_start) m r e =
    let same : r.0 ≡ robot_desc_write hypothermia active m = ground (arith, e) in
    subst (StateWritten m) (sym same) (cold active)
recv_game_state-StateWritten (some state_hypothermia_end) m r e =
    let same : r.0 ≡ robot_desc_write hypothermia inactive m = ground (arith, e) in
    subst (StateWritten m) (sym same) (cold inactive)
recv_game_state-StateWritten (some state_other) m r e = absurd (cc e)

module _ {Fd : Type 0} (malloc : ℕ → List ℕ) (protobuf : Protobuf)
    (read_call : Fd → ℕ → ReadResult × Fd) (write_call : Fd → List ℕ → WriteResult × Fd) where
  process_msg-Handled :
      (fuel : ℕ) (is_dawn : Bool) (sent : List ℕ → Option ℕ) (now msg_type : ℕ) (bytes : List ℕ)
      (fd : Fd) (m : Shm) (s : Status) (fd' : Fd) (m' : Shm)
      → process_msg malloc protobuf read_call write_call fuel is_dawn sent now msg_type bytes fd m
        ≡ done (some (s, fd', m'))
      → Handled is_dawn m m'
  unfolding process_msg
  process_msg-Handled fuel is_dawn sent now msg_type bytes fd m s fd' m' e =
      let handled =
        λ (n : Shm) (h : Handled is_dawn m n) (q : m' ≡ n). subst (Handled is_dawn m) (sym q) h in
      elim (Bool-cases (msg_type == challenge_data_msg)) [
        | inl f ↦ handled _ (by_challenge (sent bytes)) (ground (arith, e, f))
        | inr f ↦ elim (Bool-cases (msg_type == run_mode_msg)) [
          | inl g ↦
              let r =
                >>=-eq-done (recv_run_mode is_dawn (protobuf.run_mode_unpack bytes) m) _
                  (rw (f, g) at e) in
              handled _
                (by_run_mode
                  (recv_run_mode-ModeWritten is_dawn (protobuf.run_mode_unpack bytes) m r.0 r.1))
                (ground (arith, r.2))
          | inr g ↦ elim (Bool-cases (msg_type == start_pos_msg)) [
            | inl h ↦
                handled _ (by_start_pos (protobuf.start_pos_unpack bytes))
                  (ground (arith, e, f, g, h))
            | inr h ↦ elim (Bool-cases (msg_type == device_data_msg)) [
              | inl k ↦
                  let r =
                    >>=-eq-done (recv_dev_data (protobuf.dev_data_unpack bytes) m) _
                      (rw (f, g, h, k) at e) in
                  handled _ (by_dev_data (protobuf.dev_data_unpack bytes) r.0 r.1)
                    (ground (arith, r.2))
              | inr k ↦ elim (Bool-cases (msg_type == game_state_msg)) [
                | inl l ↦
                    let r =
                      >>=-eq-done (recv_game_state (protobuf.game_state_unpack bytes) m) _
                        (rw (f, g, h, k, l) at e) in
                    handled _
                      (by_game_state
                        (recv_game_state-StateWritten (protobuf.game_state_unpack bytes) m r.0 r.1))
                      (ground (arith, r.2))
                | inr l ↦ handled m by_none (ground (arith, e, f, g, h, k, l))
              ]
            ]
          ]
        ]
      ]

  recv_parsed-Handled :
      (fuel : ℕ) (is_dawn : Bool) (sent : List ℕ → Option ℕ) (now : ℕ) (r : MsgResult) (fd : Fd)
      (m : Shm) (s : Status) (fd' : Fd) (m' : Shm)
      → recv_parsed malloc protobuf read_call write_call fuel is_dawn sent now r fd m
        ≡ done (some (s, fd', m'))
      → Handled is_dawn m m'
  unfolding recv_parsed
  recv_parsed-Handled fuel is_dawn sent now end_of_file fd m s fd' m' e =
      let same : m' ≡ m = ground (arith, e) in subst (Handled is_dawn m) (sym same) by_none
  recv_parsed-Handled fuel is_dawn sent now (message msg_type len_pb buf) fd m s fd' m' e =
      let p = >>=-eq-done (slice buf 0 len_pb) _ e in
      process_msg-Handled fuel is_dawn sent now msg_type p.0 fd m s fd' m' p.2

  -- What recv_new_msg does to the shared memory is what one of the handlers does, or nothing.
  pub recv_new_msg-Handled :
      (fuel : ℕ) (is_dawn : Bool) (sent : List ℕ → Option ℕ) (now : ℕ) (fd : Fd) (m : Shm)
      (s : Status) (fd' : Fd) (m' : Shm)
      → recv_new_msg malloc protobuf read_call write_call fuel is_dawn sent now fd m
        ≡ done (some (s, fd', m'))
      → Handled is_dawn m m'
  unfolding recv_new_msg
  recv_new_msg-Handled fuel is_dawn sent now fd m s fd' m' e =
      let p = then-eq-done (parse_msg malloc read_call write_call fuel fd) _ e in
      recv_parsed-Handled fuel is_dawn sent now p.0.0 p.0.1 m s fd' m' p.2

-- ===== src/NetHandler/TcpConn/Guards.antt =====
-- What a message from a client can change: the modes that Dawn may not start, and the invariant of
-- the block of the devices.
use c_runtime.Prelude.{ℕ, ◌+◌, ◌*◌, ◌<◌, ◌^◌, ◌%◌, ◌≡◌, refl, sym, ap, ◌∙◌, arith, inl, inr}
use c_runtime.Prelude.{
  Bool, true, not, ◌&&◌, List, [], ◌∷◌, Option, none, some, done, Bool-cases, Option-cases, bit_or,
  ltb,
}
use mathlib.Core.Path.{subst}
use c_runtime.Prelude.Blocks.{>>=-eq-done}
use c_runtime.Prelude.Bits.{bit_or-lt}
use c_runtime.RuntimeUtil.Types.{
  Process, run_mode, shepherd, connected, is_net_handler, is_executor,
}
use c_runtime.RuntimeUtil.FileIo.{ReadResult, WriteResult}
use c_runtime.Shm.Types.{Shm}
use c_runtime.Shm.Devices.{get_dev_ix_from_uid}
use c_runtime.Shm.Inputs.{robot_desc_write, robot_desc_read}
use c_runtime.Shm.Subscriptions.{place_sub_request}
use c_runtime.Shm.Valid.{IsDevShm}
use c_runtime.Shm.Steps.{Step-IsDevShm, subscribe}
use c_runtime.NetHandler.Protocol.{
  pos_left, pos_right, pos_other, Val, no_val, ival, fval, bval, Param, NetDevice, Protobuf,
}
use c_runtime.NetHandler.TcpConn.{
  Status, recv_challenge, recv_start_pos, request_bit, requests_loop, place_requests, recv_dev_data,
  recv_new_msg,
}
use c_runtime.NetHandler.TcpConn.Handlers.{
  ModeWritten, not_unpacked, refused, by_dawn, by_shepherd, no_state, ivy, dry, cold, is_match_val,
  Handled, by_challenge, by_run_mode, by_start_pos, by_dev_data, by_game_state, by_none,
  recv_new_msg-Handled,
}

place_sub_request-fields :
    (uid : ℕ) (process : Process) (p : ℕ) (m : Shm)
    → (place_sub_request uid process p m).0.fields ≡ m.fields
unfolding place_sub_request
place_sub_request-fields uid process p m =
    elim (Bool-cases (not (is_net_handler process) && not (is_executor process))) [
      | inl e ↦ rw e refl
      | inr e ↦ elim (Option-cases (get_dev_ix_from_uid uid m)) [
        | inl n ↦ rw (e, n) refl
        | inr (ix, n) ↦ elim (Bool-cases (is_net_handler process)) [
          | inl f ↦ rw (e, n, f) refl
          | inr f ↦ rw (e, n, f) refl
        ]
      ]
    ]

place_requests-fields :
    (devices : List NetDevice) (m m' : Shm)
    → place_requests devices m ≡ done m'
    → m'.fields ≡ m.fields
unfolding place_requests
place_requests-fields [] m m' e = ground (arith, e)
place_requests-fields (device ∷ devices) m m' e =
    let r = >>=-eq-done (requests_loop 0 device.params 0) _ e in
    place_requests-fields devices _ m' r.2
    ∙ place_sub_request-fields device.uid Process.net_handler r.0 m

pub recv_dev_data-fields :
    (devices : Option (List NetDevice)) (m : Shm) (r : Shm × Status)
    → recv_dev_data devices m ≡ done r
    → r.0.fields ≡ m.fields
unfolding recv_dev_data
recv_dev_data-fields none m r e = ground (arith, e)
recv_dev_data-fields (some devices) m r e =
    let p = >>=-eq-done (place_requests devices m) _ e in
    let same : r.0 ≡ p.0 = ground (arith, p.2) in
    ap (λ (n : Shm). n.fields) same ∙ place_requests-fields devices m p.0 p.1

guarded_mode :
    (m n : Shm)
    → ModeWritten true m n
    → m.fields shepherd ≡ connected
    → is_match_val (n.fields run_mode) ≡ true
    → n.fields run_mode ≡ m.fields run_mode
unfolding robot_desc_write robot_desc_read
guarded_mode m _ not_unpacked c h = refl
guarded_mode m _ refused c h = refl
guarded_mode m _ (by_dawn v g) c h = absurd (ground (arith, rw c at g, h))
guarded_mode m _ (by_shepherd v g) c h = absurd (cc g)

guarded :
    (m m' : Shm)
    → Handled true m m'
    → m.fields shepherd ≡ connected
    → is_match_val (m'.fields run_mode) ≡ true
    → m'.fields run_mode ≡ m.fields run_mode
unfolding recv_challenge recv_start_pos robot_desc_write robot_desc_read
guarded m _ (by_challenge none) c h = refl
guarded m _ (by_challenge (some n)) c h = absurd (ground (arith, h))
guarded m n (by_run_mode w) c h = guarded_mode m n w c h
guarded m _ (by_start_pos none) c h = refl
guarded m _ (by_start_pos (some pos_left)) c h = refl
guarded m _ (by_start_pos (some pos_right)) c h = refl
guarded m _ (by_start_pos (some pos_other)) c h = refl
guarded m _ (by_dev_data devices r e) c h =
    ap (λ f. f run_mode) (recv_dev_data-fields devices m r e)
guarded m _ (by_game_state no_state) c h = refl
guarded m _ (by_game_state (ivy v)) c h = refl
guarded m _ (by_game_state (dry v)) c h = refl
guarded m _ (by_game_state (cold v)) c h = refl
guarded m _ by_none c h = refl

request_bit-lt : (j : ℕ) (val : Val) (bit : ℕ) → request_bit j val ≡ done bit → bit < 2 ^ 32
unfolding request_bit
request_bit-lt j no_val bit e = ground (arith, e)
request_bit-lt j (ival n) bit e = ground (arith, e)
request_bit-lt j (fval n) bit e = ground (arith, e)
request_bit-lt j (bval b) bit e = elim (Bool-cases (ltb j 32)) [
  | inl f ↦
      let same : done bit ≡ done ((b * 2 ^ j) % 2 ^ 32) = sym (rw f at e) in ground (arith, same)
  | inr f ↦ absurd (cc (rw f at e))
]

requests_loop-lt :
    (j : ℕ) (params : List Param) (requests r : ℕ)
    → requests < 2 ^ 32
    → requests_loop j params requests ≡ done r
    → r < 2 ^ 32
unfolding requests_loop
requests_loop-lt j [] requests r small e = ground (arith, small, e)
requests_loop-lt j (param ∷ params) requests r small e =
    let p = >>=-eq-done (request_bit j param.val) _ e in
    requests_loop-lt (j + 1) params (bit_or requests p.0) r
      (bit_or-lt 32 requests p.0 small (request_bit-lt j param.val p.0 p.1)) p.2

place_requests-IsDevShm :
    (devices : List NetDevice) (m m' : Shm)
    → place_requests devices m ≡ done m'
    → IsDevShm m.dev
    → IsDevShm m'.dev
unfolding place_requests
place_requests-IsDevShm [] m m' e v =
    let same : m' ≡ m = ground (arith, e) in subst (λ n. IsDevShm n.dev) (sym same) v
place_requests-IsDevShm (device ∷ devices) m m' e v =
    let r = >>=-eq-done (requests_loop 0 device.params 0) _ e in
    let small = requests_loop-lt 0 device.params 0 r.0 (omega arith) r.1 in
    place_requests-IsDevShm devices _ m' r.2
      (Step-IsDevShm (subscribe device.uid Process.net_handler r.0 small) v)

recv_dev_data-IsDevShm :
    (devices : Option (List NetDevice)) (m : Shm) (r : Shm × Status)
    → recv_dev_data devices m ≡ done r
    → IsDevShm m.dev
    → IsDevShm r.0.dev
unfolding recv_dev_data
recv_dev_data-IsDevShm none m r e v =
    let same : r.0 ≡ m = ground (arith, e) in subst (λ n. IsDevShm n.dev) (sym same) v
recv_dev_data-IsDevShm (some devices) m r e v =
    let p = >>=-eq-done (place_requests devices m) _ e in
    let same : r.0 ≡ p.0 = ground (arith, p.2) in
    subst (λ n. IsDevShm n.dev) (sym same) (place_requests-IsDevShm devices m p.0 p.1 v)

-- A message keeps the invariant of the block of the devices.
pub Handled-IsDevShm :
    (is_dawn : Bool) (m m' : Shm) → Handled is_dawn m m' → IsDevShm m.dev → IsDevShm m'.dev
unfolding recv_challenge recv_start_pos robot_desc_write robot_desc_read
Handled-IsDevShm is_dawn m _ (by_challenge none) v = v
Handled-IsDevShm is_dawn m _ (by_challenge (some n)) v = v
Handled-IsDevShm is_dawn m _ (by_run_mode not_unpacked) v = v
Handled-IsDevShm is_dawn m _ (by_run_mode refused) v = v
Handled-IsDevShm is_dawn m _ (by_run_mode (by_dawn val g)) v = v
Handled-IsDevShm is_dawn m _ (by_run_mode (by_shepherd val g)) v = v
Handled-IsDevShm is_dawn m _ (by_start_pos none) v = v
Handled-IsDevShm is_dawn m _ (by_start_pos (some pos_left)) v = v
Handled-IsDevShm is_dawn m _ (by_start_pos (some pos_right)) v = v
Handled-IsDevShm is_dawn m _ (by_start_pos (some pos_other)) v = v
Handled-IsDevShm is_dawn m _ (by_dev_data devices r e) v = recv_dev_data-IsDevShm devices m r e v
Handled-IsDevShm is_dawn m _ (by_game_state no_state) v = v
Handled-IsDevShm is_dawn m _ (by_game_state (ivy val)) v = v
Handled-IsDevShm is_dawn m _ (by_game_state (dry val)) v = v
Handled-IsDevShm is_dawn m _ (by_game_state (cold val)) v = v
Handled-IsDevShm is_dawn m _ by_none v = v

module _ {Fd : Type 0} (malloc : ℕ → List ℕ) (protobuf : Protobuf)
    (read_call : Fd → ℕ → ReadResult × Fd) (write_call : Fd → List ℕ → WriteResult × Fd) where
  -- While Shepherd is connected, no message from Dawn, of any type and with any contents, brings
  -- the run mode to autonomous or teleop: if it is one of them after the message, it was the same
  -- before.
  pub recv_new_msg-guarded :
      (fuel : ℕ) (sent : List ℕ → Option ℕ) (now : ℕ) (fd fd' : Fd) (m m' : Shm) (s : Status)
      → m.fields shepherd ≡ connected
      → recv_new_msg malloc protobuf read_call write_call fuel true sent now fd m
        ≡ done (some (s, fd', m'))
      → is_match_val (m'.fields run_mode) ≡ true
      → m'.fields run_mode ≡ m.fields run_mode
  recv_new_msg-guarded fuel sent now fd fd' m m' s c e h =
      guarded m m'
        (recv_new_msg-Handled malloc protobuf read_call write_call fuel true sent now fd m s fd' m'
          e)
        c h

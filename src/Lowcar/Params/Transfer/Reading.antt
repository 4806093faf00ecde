-- ===== src/Lowcar/Params/Transfer/Reading.antt =====
-- The payload of a DEVICE_DATA.
use c_runtime.Prelude.{
  ℕ, zero, suc, ◌+◌, ◌/◌, ◌^◌, ◌≤◌, ◌<◌, ◌≡◌, refl, sym, ap, ◌∙◌, arith, List, ◌++◌, done, true,
  false, memcpy, length, length-append, length-drop, drop, replicate,
}
use c_runtime.Prelude.{◌==◌, Bool-cases, inl, inr}
use c_runtime.Prelude.Bits.{has_bit}
use c_runtime.Prelude.Blocks.{memcpy_at}
use c_runtime.RuntimeUtil.Types.{Device, ParamVal, max_params}
use c_runtime.RuntimeUtil.Devices.{param_at}
use c_runtime.Message.Types.{bytes_of_u32}
use c_runtime.Message.Build.{value_bytes}
use c_runtime.Message.Build.Write.{encoded, drop-drop}
use c_runtime.Lowcar.Types.{LowcarMessage, id_device_data}
use c_runtime.Lowcar.Params.{Methods, is_subscribed, read_loop, device_read_params}
use c_runtime.Lowcar.Params.Transfer.{
  shift-lt, encoded-on, encoded-off, is_subscribed_lem, length-encoded_bound,
}
use mathlib.Core.List.{append_assoc, append-nil}

module _ (w : ℕ) {D : Type 0} (methods : Methods D) (p left i : ℕ) (own : D) (msg : LowcarMessage)
    (more : p / 2 ^ i == 0 ≡ false) where
  read_loop_on :
      (own' : D) (bytes block : List ℕ)
      → is_subscribed w p i ≡ done true
      → methods.device_read i own ≡ done (bytes, own')
      → memcpy msg.payload msg.payload_length bytes ≡ done block
      → read_loop w methods p (suc left) i own msg
        ≡ read_loop w methods p left
            (i + 1)
            own'
            (record msg { payload = block; payload_length = msg.payload_length + length bytes })
  unfolding read_loop
  read_loop_on own' bytes block on r m = rw (read_loop, more, on, r, m) refl

  read_loop_off :
      is_subscribed w p i ≡ done false
      → read_loop w methods p (suc left) i own msg ≡ read_loop w methods p left (i + 1) own msg
  unfolding read_loop
  read_loop_off on = rw (read_loop, more, on) refl

module _ (w : ℕ) {D : Type 0} (methods : Methods D) (dev : Device) (values : ℕ → ParamVal) (p : ℕ)
    (own : D) (fits : w ≤ 32) (small : p < 2 ^ w) (low : p < 2 ^ 31)
    (reads : (i : ℕ)
      → i < 32
      → has_bit p i ≡ true
      → methods.device_read i own ≡ done (value_bytes (param_at dev i).type (values i), own)) where
  read_end :
      (left i id : ℕ) (used j : List ℕ)
      → p / 2 ^ i == 0 ≡ true
      → let out = encoded dev values p (suc left) i in
        read_loop w methods p
          (suc left)
          i
          own
          (record { message_id = id; payload_length = length used; payload = used ++ j })
        ≡ done (
          own,
          record {
            message_id = id;
            payload_length = length (used ++ out);
            payload = (used ++ out) ++ drop (length out) j;
          },
        )
  unfolding read_loop encoded
  read_end left i id used j e = rw (read_loop, e, append-nil used) refl

  read_loop_lem :
      (left i id : ℕ) (used j : List ℕ)
      → i + left ≡ 31
      → length (encoded dev values p (suc left) i) ≤ length j
      → let out = encoded dev values p (suc left) i in
        read_loop w methods p
          (suc left)
          i
          own
          (record { message_id = id; payload_length = length used; payload = used ++ j })
        ≡ done (
          own,
          record {
            message_id = id;
            payload_length = length (used ++ out);
            payload = (used ++ out) ++ drop (length out) j;
          },
        )
  read_loop_lem zero i id used j h k = elim (Bool-cases (p / 2 ^ i == 0)) [
    | inl e ↦ read_end 0 i id used j e
    | inr e ↦ absurd (ground (arith, e, shift-lt 31 i p low))
  ]
  read_loop_lem (suc left) i id used j h k =
      let v : List ℕ = value_bytes (param_at dev i).type (values i) in
      let rest : List ℕ = encoded dev values p (suc left) (i + 1) in
      elim (Bool-cases (p / 2 ^ i == 0)) [
        | inl e ↦ read_end (suc left) i id used j e
        | inr e ↦
            let on = is_subscribed_lem w p i fits small (ground (arith, e)) in
            elim (Bool-cases (has_bit p i)) [
              | inl f ↦
                  let out = encoded-on dev values p (suc left) i e f in
                  let size : length v + length rest ≤ length j =
                    omega (arith, ap length out, length-append v rest) in
                  let more =
                    read_loop_lem left (i + 1) id (used ++ v) (drop (length v) j) (omega arith)
                      (omega (arith, length-drop (length v) j)) in
                  read_loop_on w methods p (suc left) i own _ e own v
                    (used ++ (v ++ drop (length v) j)) (on ∙ ap done f) (reads i (omega arith) f)
                    (memcpy_at used j v (length used) refl (omega arith))
                  ∙ rw
                      (
                        sym (length-append used v),
                        sym (append_assoc used v (drop (length v) j)),
                        more,
                        append_assoc used v rest,
                        drop-drop v rest j,
                        sym out,
                      )
                      refl
              | inr f ↦
                  let out = encoded-off dev values p (suc left) i e f in
                  read_loop_off w methods p (suc left) i own _ e (on ∙ ap done f)
                  ∙ rw (sym out) at (
                      read_loop_lem left (i + 1) id used j (omega arith)
                        (omega (arith, ap length out)))
            ]
      ]

  -- The bytes in use of a DEVICE_DATA.
  abbrev pub device_data_bytes : List ℕ
  device_data_bytes = bytes_of_u32 p ++ encoded dev values p max_params 0

  pub device_read_params_lem :
      (junk : List ℕ) × (device_read_params w methods p own
        ≡ done (
          own,
          record {
            message_id = id_device_data;
            payload_length = length device_data_bytes;
            payload = device_data_bytes ++ junk;
          },
        ))
  unfolding device_read_params
  device_read_params_lem =
      let bound = length-encoded_bound dev values p 32 0 in
      let r =
        read_loop_lem 31 0 id_device_data (bytes_of_u32 p) (replicate 128 0) refl
          (ground (arith, bound)) in
      (drop (length (encoded dev values p max_params 0)) (replicate 128 0), r)

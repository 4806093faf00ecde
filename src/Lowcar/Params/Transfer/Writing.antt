-- ===== src/Lowcar/Params/Transfer/Writing.antt =====
-- A DEVICE_WRITE from dev_handler to the parameters of the firmware.
use c_runtime.Prelude.{
  ℕ, zero, suc, ◌+◌, ◌/◌, ◌%◌, ◌^◌, ◌≤◌, ◌<◌, ◌≡◌, refl, sym, ap, ◌∙◌, arith, List, [], ◌++◌, Bool,
  done, some, true, false, if◌then◌else◌, length, length-append, drop, take,
}
use c_runtime.Prelude.{◌==◌, Bool-cases, inl, inr, All}
use c_runtime.Prelude.Bits.{has_bit, has_bit_high}
use c_runtime.Prelude.Blocks.{drop-append_zero, take-append}
use c_runtime.RuntimeUtil.Types.{Device, ParamVal, max_params}
use c_runtime.RuntimeUtil.Devices.{param_at}
use c_runtime.RuntimeUtil.Lookup.{get_device}
use c_runtime.RuntimeUtil.Lookup.Tables.{get_device-IsDevice}
use c_runtime.Message.MessageId
use c_runtime.Message.Types.{Message, max_payload_size, bytes_of_u32, u32_of_bytes}
use c_runtime.Message.Build.{value_bytes, make_device_write}
use c_runtime.Message.Build.Write.{
  encoded, holding, is_written, has_bit-written_params, written_params, make_device_write_lem,
}
use c_runtime.Message.Cobs.Blocks.{IsNonzero}
use c_runtime.Message.Serial.{calc_max_cobs_msg_length, message_to_bytes}
use c_runtime.Lowcar.Types.{LowcarMessage, Port, success, id_device_write}
use c_runtime.Lowcar.Messenger.{read_message}
use c_runtime.Lowcar.Messenger.Ports.{IsPort}
use c_runtime.Lowcar.Messenger.Reading.{read_message-message_to_bytes}
use c_runtime.Lowcar.Params.{Methods, is_subscribed, write_loop, device_write_params}
use c_runtime.Lowcar.Params.Transfer.{
  shift-lt, is_subscribed_lem, length-encoded_bound, encoded-on, encoded-off,
}
use mathlib.Core.List.{append_assoc}

-- Setting the parameters of a bitmap one after the other, from `i` on.
abbrev pub set_all : {D : Type 0} → (ℕ → ParamVal → D → D) → (ℕ → ParamVal) → ℕ → ℕ → ℕ → D → D
set_all set values p zero i own = own
set_all set values p (suc left) i own =
    set_all set values p left (i + 1) (if has_bit p i then set i (values i) own else own)

-- Setting the parameters that pass a test one after the other, from `i` on.
abbrev pub set_where :
    {D : Type 0} → (ℕ → ParamVal → D → D) → (ℕ → ParamVal) → (ℕ → Bool) → ℕ → ℕ → D → D
set_where set values on zero i own = own
set_where set values on (suc left) i own =
    set_where set values on left (i + 1) (if on i then set i (values i) own else own)

set_all-eq-set_where :
    {D : Type 0} (set : ℕ → ParamVal → D → D) (values : ℕ → ParamVal) (p : ℕ) (on : ℕ → Bool)
    (left i : ℕ) (own : D)
    → i + left ≤ 32
    → ((j : ℕ) → j < 32 → has_bit p j ≡ on j)
    → set_all set values p left i own ≡ set_where set values on left i own
set_all-eq-set_where set values p on zero i own h same = refl
set_all-eq-set_where set values p on (suc left) i own h same =
    rw (same i (omega (arith, h)))
      (set_all-eq-set_where set values p on left (i + 1) _ (omega (arith, h)) same)

module _ (w : ℕ) {D : Type 0} (methods : Methods D) (p left i : ℕ) (own : D) (bytes : List ℕ)
    (more : p / 2 ^ i == 0 ≡ false) where
  write_loop_on :
      (own' : D) (n : ℕ)
      → is_subscribed w p i ≡ done true
      → methods.device_write i bytes own ≡ done (n, own')
      → write_loop w methods p (suc left) i bytes own
        ≡ write_loop w methods p left (i + 1) (drop n bytes) own'
  unfolding write_loop
  write_loop_on own' n on r = rw (write_loop, more, on, r) refl

  write_loop_off :
      is_subscribed w p i ≡ done false
      → write_loop w methods p (suc left) i bytes own
        ≡ write_loop w methods p left (i + 1) bytes own
  unfolding write_loop
  write_loop_off on = rw (write_loop, more, on) refl

module _ (w : ℕ) {D : Type 0} (methods : Methods D) (dev : Device) (values : ℕ → ParamVal) (p : ℕ)
    (set : ℕ → ParamVal → D → D) (fits : w ≤ 32) (small : p < 2 ^ w) (low : p < 2 ^ 31)
    (writes : (i : ℕ) (rest : List ℕ) (own : D)
      → i < 32
      → has_bit p i ≡ true
      → methods.device_write i (value_bytes (param_at dev i).type (values i) ++ rest) own
        ≡ done (length (value_bytes (param_at dev i).type (values i)), set i (values i) own)) where
  -- The step of `set_all` on a parameter whose bit is `b`.
  set_all-bit :
      (left i : ℕ) (own : D) (b : Bool)
      → has_bit p i ≡ b
      → set_all set values p (suc left) i own
        ≡ set_all set values p left (i + 1) (if b then set i (values i) own else own)
  set_all-bit left i own b f =
      ap (λ t. set_all set values p left (i + 1) (if t then set i (values i) own else own)) f

  set_all_end :
      (k left i : ℕ) (own : D) → p / 2 ^ k ≡ 0 → k ≤ i → set_all set values p left i own ≡ own
  set_all_end k zero i own e h = refl
  set_all_end k (suc left) i own e h =
      set_all-bit left i own false (has_bit_high k i p e h)
      ∙ set_all_end k left (i + 1) own e (omega arith)

  write_end :
      (left i : ℕ) (bytes : List ℕ) (own : D)
      → p / 2 ^ i == 0 ≡ true
      → write_loop w methods p (suc left) i bytes own ≡ done (set_all set values p (suc left) i own)
  unfolding write_loop
  write_end left i bytes own e =
      rw (write_loop, e, set_all_end i (suc left) i own (ground (arith, e)) (omega arith)) refl

  pub write_loop_lem :
      (left i : ℕ) (junk : List ℕ) (own : D)
      → i + left ≡ 31
      → write_loop w methods p (suc left) i (encoded dev values p (suc left) i ++ junk) own
        ≡ done (set_all set values p (suc left) i own)
  write_loop_lem zero i junk own h = elim (Bool-cases (p / 2 ^ i == 0)) [
    | inl e ↦ write_end 0 i _ own e
    | inr e ↦ absurd (ground (arith, e, shift-lt 31 i p low))
  ]
  write_loop_lem (suc left) i junk own h =
      let v : List ℕ = value_bytes (param_at dev i).type (values i) in
      let rest : List ℕ = encoded dev values p (suc left) (i + 1) in
      elim (Bool-cases (p / 2 ^ i == 0)) [
        | inl e ↦ write_end (suc left) i _ own e
        | inr e ↦
            let on = is_subscribed_lem w p i fits small (ground (arith, e)) in
            elim (Bool-cases (has_bit p i)) [
              | inl f ↦
                  let here : encoded dev values p (suc (suc left)) i ++ junk ≡ v ++ (rest ++ junk) =
                    ap (λ t. t ++ junk) (encoded-on dev values p (suc left) i e f)
                    ∙ append_assoc v rest junk in
                  ap (λ t. write_loop w methods p (suc (suc left)) i t own) here
                  ∙ (write_loop_on w methods p (suc left) i own (v ++ (rest ++ junk)) e
                        (set i (values i) own) (length v) (on ∙ ap done f)
                        (writes i (rest ++ junk) own (omega arith) f)
                      ∙ (ap
                            (λ t.
                              write_loop w methods p (suc left) (i + 1) t (set i (values i) own))
                            (drop-append_zero v (rest ++ junk))
                          ∙ (write_loop_lem left (i + 1) junk (set i (values i) own) (omega arith)
                              ∙ ap done (sym (set_all-bit (suc left) i own true f)))))
              | inr f ↦
                  ap (λ t. write_loop w methods p (suc (suc left)) i (t ++ junk) own)
                    (encoded-off dev values p (suc left) i e f)
                  ∙ (write_loop_off w methods p (suc left) i own (rest ++ junk) e (on ∙ ap done f)
                      ∙ (write_loop_lem left (i + 1) junk own (omega arith)
                          ∙ ap done (sym (set_all-bit (suc left) i own false f))))
            ]
      ]

  pub device_write_params_lem :
      (n : ℕ) (junk payload : List ℕ) (own : D)
      → payload ≡ bytes_of_u32 p ++ (encoded dev values p max_params 0 ++ junk)
      → device_write_params w methods
          (record { message_id = id_device_write; payload_length = n; payload = payload })
          own
        ≡ done (set_all set values p max_params 0 own)
  unfolding device_write_params
  device_write_params_lem n junk payload own e =
      let word : u32_of_bytes (p % 256) (p / 256 % 256) (p / 65536 % 256) (p / 16777216 % 256) ≡ p =
        omega arith in
      rw (e, word) (write_loop_lem 31 0 junk own refl)

module _ {S : Type 0} (port : Port S) (pending sent : S → List ℕ) (law : IsPort port pending sent)
    (garbage malloc : ℕ → List ℕ) (sizes : (n : ℕ) → length (garbage n) ≡ n)
    (sizes' : (n : ℕ) → length (malloc n) ≡ n) (w : ℕ) {D : Type 0} (methods : Methods D)
    (set : ℕ → ParamVal → D → D) (fits : w ≤ 32) where
  -- For a device type that exists, where the parameters to write fit the `int` of the board and
  -- leave the highest bit off, and a firmware device whose `device_write` sets each of them from
  -- the bytes of its value: the bytes that dev_handler makes of `make_device_write`, arriving on
  -- the port behind bytes other than the delimiter, are read, and `device_write_params` sets the
  -- parameters that can be written and were asked for, in their order, to their values. What came
  -- after on the port is left.
  pub device_write_params-make_device_write :
      (dev_type pmap : ℕ) (dev : Device) (values : ℕ → ParamVal) (msg : Message)
      (buf bytes : List ℕ) (n fuel : ℕ) (junk more : List ℕ) (target : LowcarMessage) (s : S)
      (own : D)
      → get_device dev_type ≡ some dev
      → written_params dev pmap < 2 ^ w
      → written_params dev pmap < 2 ^ 31
      → ((i : ℕ) (rest : List ℕ) (own' : D)
          → i < 32
          → is_written dev pmap i ≡ true
          → methods.device_write i (value_bytes (param_at dev i).type (values i) ++ rest) own'
            ≡ done (length (value_bytes (param_at dev i).type (values i)), set i (values i) own'))
      → make_device_write malloc dev_type pmap values ≡ done (some msg)
      → message_to_bytes msg buf ≡ done (some (bytes, n))
      → calc_max_cobs_msg_length msg ≤ length buf
      → length target.payload ≡ max_payload_size
      → length junk < fuel
      → All IsNonzero junk
      → pending s ≡ junk ++ (take n bytes ++ more)
      → (msg' : LowcarMessage) × (s' : S) × (read_message port garbage fuel target s
          ≡ done (some (success, msg', s')))
        × (pending s' ≡ more)
        × (device_write_params w methods msg' own
            ≡ done (set_where set values (is_written dev pmap) max_params 0 own))
  device_write_params-make_device_write dev_type pmap dev values msg buf bytes n fuel junk more
        target s own e small low writes made sent_bytes buf_room room f nz arrived =
      let p : ℕ = written_params dev pmap in
      let out : List ℕ = encoded dev values p max_params 0 in
      let payload : List ℕ = bytes_of_u32 p ++ out in
      let m = make_device_write_lem malloc sizes' dev_type pmap values dev e in
      let bound : length payload ≤ 132 = omega (arith, length-encoded_bound dev values p 32 0) in
      let same : msg ≡ holding MessageId.device_write (length payload) payload [] =
        ground (arith, made, m.0) in
      let len : msg.payload_length ≡ length payload = ap (λ t. t.payload_length) same in
      let block : msg.payload ≡ payload ++ [] = ap (λ t. t.payload) same in
      let id : msg.message_id ≡ id_device_write = ap (λ t. t.message_id) same in
      let r =
        read_message-message_to_bytes port pending sent law garbage sizes fuel msg buf bytes n junk
          more target s sent_bytes buf_room (omega (arith, id)) (omega (arith, len, bound))
          (omega (arith, len, ap length block, length-append payload []))
          (omega (arith, len, bound, room)) f nz arrived in
      let front : take msg.payload_length msg.payload ≡ payload =
        rw (len, block) (take-append payload []) in
      let rest : List ℕ = drop msg.payload_length target.payload in
      let same_bits : (j : ℕ) → j < 32 → has_bit p j ≡ is_written dev pmap j = λ j h.
        has_bit-written_params dev pmap j (get_device-IsDevice dev_type dev e).few_params h in
      (
        record {
          message_id = id_device_write;
          payload_length = msg.payload_length;
          payload = take msg.payload_length msg.payload ++ rest;
        },
        r.0,
        rw (sym id) r.1,
        r.2,
        device_write_params_lem w methods dev values p set fits small low
              (λ i rest own' h on. writes i rest own' h (sym (same_bits i h) ∙ on))
              msg.payload_length rest _ own
              (ap (λ t. t ++ rest) front ∙ append_assoc (bytes_of_u32 p) out rest)
            ∙ ap done (
                set_all-eq-set_where set values p (is_written dev pmap) 32 0 own (omega arith)
                  same_bits),
      )

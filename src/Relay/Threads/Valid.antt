-- ===== src/Relay/Threads/Valid.antt =====
-- The shared memory under the threads of dev_handler and the calls of the other processes.
use c_runtime.Prelude.{ℕ, ◌<◌, ◌+◌, ◌≡◌, ◌⊎◌, sym, arith, List, done, some, Bool-cases, inl, inr}
use mathlib.Core.Path.{subst}
use c_runtime.Prelude.Blocks.{>>=-eq-done}
use c_runtime.Prelude.Bits.{has_bit}
use c_runtime.RuntimeUtil.Types.{ParamVal, Process}
use c_runtime.RuntimeUtil.FileIo.{ReadResult, WriteResult}
use c_runtime.Message.MessageId
use c_runtime.Message.Serial.{payload_bitmap, parse_device_data}
use c_runtime.Prelude.{◌==◌}
use c_runtime.Shm.Types.{Shm, command_stream, data_stream}
use c_runtime.Shm.Params
use c_runtime.Shm.Subscriptions.{get_sub_requests}
use c_runtime.Shm.Start.{start_shm}
use c_runtime.Shm.Valid.{IsDevShm, start_devices-IsDevShm, write_row-IsDevShm}
use c_runtime.Shm.Steps.{Step, read, poll, Step-IsDevShm}
use c_runtime.Relay.{is_received, receive_message}
use c_runtime.Relay.Inversion.{then-eq-done}
use c_runtime.Relay.Threads.{
  Relay, Sender, Receiver, send_write, send_ping, send_request, sender_round, handle_received,
  clear_message, receiver_round,
}

module _ {Fd : Type 0} (malloc : ℕ → List ℕ) (read_call : Fd → ℕ → ReadResult × Fd)
    (write_call : Fd → List ℕ → WriteResult × Fd) (fuel : ℕ) where
  send_write-IsDevShm :
      (relay : Relay) (self self' : Sender Fd)
      → relay.shm_dev_idx < 32
      → send_write malloc read_call write_call fuel relay self ≡ done (some self')
      → IsDevShm self.shm.dev
      → IsDevShm self'.shm.dev
  unfolding send_write Params.get_cmd_map
  send_write-IsDevShm relay self self' below e v =
      let m1 : Shm = (Params.get_cmd_map self.shm).0 in
      let bitmap : ℕ = self.shm.dev.cmd_map (1 + relay.shm_dev_idx) in
      let m2 : Shm =
        (Params.device_read relay.shm_dev_idx Process.dev_handler command_stream bitmap self.params
          m1).0 in
      let r =
        Step-IsDevShm {m = m1}
          (read relay.shm_dev_idx Process.dev_handler command_stream bitmap self.params below) v in
      let same : (self'.shm ≡ m1) ⊎ (self'.shm ≡ m2) = ground (arith, e) in
      elim same [
        | inl q ↦ subst (λ m. IsDevShm m.dev) (sym q) v
        | inr q ↦ subst (λ m. IsDevShm m.dev) (sym q) r
      ]

  send_ping_lem :
      (now after : ℕ) (self self' : Sender Fd)
      → send_ping malloc read_call write_call fuel now after self ≡ done (some self')
      → self'.shm ≡ self.shm
  unfolding send_ping
  send_ping_lem now after self self' e = ground arith

  send_request-IsDevShm :
      (relay : Relay) (self self' : Sender Fd)
      → send_request malloc read_call write_call fuel relay self ≡ done (some self')
      → IsDevShm self.shm.dev
      → IsDevShm self'.shm.dev
  unfolding send_request
  send_request-IsDevShm relay self self' e v =
      let p = Step-IsDevShm {m = self.shm} (poll Process.dev_handler self.sub_map) v in
      let same : self'.shm ≡ (get_sub_requests Process.dev_handler self.sub_map self.shm).0 =
        ground (arith, e) in
      subst (λ m. IsDevShm m.dev) (sym same) p

  pub sender_round-IsDevShm :
      (relay : Relay) (now after : ℕ) (self self' : Sender Fd)
      → relay.shm_dev_idx < 32
      → sender_round malloc read_call write_call fuel relay now after self ≡ done (some self')
      → IsDevShm self.shm.dev
      → IsDevShm self'.shm.dev
  unfolding sender_round
  sender_round-IsDevShm relay now after self self' below e v =
      let a = then-eq-done (send_write malloc read_call write_call fuel relay self) _ e in
      let b = then-eq-done (send_ping malloc read_call write_call fuel now after a.0) _ a.2 in
      let same = send_ping_lem now after a.0 b.0 b.1 in
      send_request-IsDevShm relay b.0 self' b.2
        (subst (λ m. IsDevShm m.dev) (sym same) (send_write-IsDevShm relay self a.0 below a.1 v))

-- dev_handler writes the data of a device.
data_write-IsDevShm :
    (ix p : ℕ) (values : ℕ → ParamVal) (m : Shm)
    → IsDevShm m.dev
    → IsDevShm (Params.device_write ix Process.dev_handler data_stream p values m).0.dev
unfolding Params.device_write Params.device_write_helper
data_write-IsDevShm ix p values m v = elim (Bool-cases (has_bit m.dev.catalog ix)) [
  | inl e ↦ rw e (write_row-IsDevShm m.dev v data_stream ix p values)
  | inr e ↦ rw e v
]

module _ {Fd : Type 0} (malloc : ℕ → List ℕ) (read_call : Fd → ℕ → ReadResult × Fd)
    (write_call : Fd → List ℕ → WriteResult × Fd) (fuel : ℕ) where
  handle_received-IsDevShm :
      (now : ℕ) (self self' : Receiver Fd)
      → handle_received malloc read_call write_call fuel now self ≡ done self'
      → IsDevShm self.shm.dev
      → IsDevShm self'.shm.dev
  unfolding handle_received
  handle_received-IsDevShm now self self' e v =
      elim (Bool-cases (self.msg.message_id == MessageId.device_data)) [
        | inl f ↦
            let a =
              >>=-eq-done (parse_device_data self.relay.dev_id.type self.msg self.vals) _
                (rw f at e) in
            let b = >>=-eq-done (payload_bitmap self.msg) _ a.2 in
            let same : self'.shm
                ≡ (Params.device_write self.relay.shm_dev_idx Process.dev_handler data_stream b.0
                    a.0 self.shm).0 =
              ground (arith, b.2) in
            subst (λ m. IsDevShm m.dev) (sym same)
              (data_write-IsDevShm self.relay.shm_dev_idx b.0 a.0 self.shm v)
        | inr f ↦
            let same : self'.shm ≡ self.shm = ground (arith, e, f) in
            subst (λ m. IsDevShm m.dev) (sym same) v
      ]

  pub receiver_round-IsDevShm :
      (now : ℕ) (self self' : Receiver Fd)
      → receiver_round malloc read_call write_call fuel now self ≡ done (some self')
      → IsDevShm self.shm.dev
      → IsDevShm self'.shm.dev
  unfolding receiver_round
  receiver_round-IsDevShm now self self' e v =
      let r =
        then-eq-done
          (receive_message malloc read_call write_call fuel self.relay.dev_id.uid self.fd self.msg)
          _ e in
      let got = record self { msg = r.0.1; fd = r.0.2 } in
      elim (Bool-cases (is_received r.0.0)) [
        | inl f ↦
            let a =
              >>=-eq-done (handle_received malloc read_call write_call fuel now got) _
                (rw f at r.2) in
            let b = >>=-eq-done (clear_message malloc read_call write_call fuel a.0.msg) _ a.2 in
            let same : self'.shm ≡ a.0.shm = ground (arith, b.2) in
            subst (λ m. IsDevShm m.dev) (sym same) (handle_received-IsDevShm now got a.0 a.1 v)
        | inr f ↦
            let same : self'.shm ≡ self.shm = ground (arith, r.2, f) in
            subst (λ m. IsDevShm m.dev) (sym same) v
      ]

-- Runs in which the threads of dev_handler take their rounds between the calls of the processes.
-- The state of the files and what the threads keep may be any, as other threads change them.
pub data Runs {Fd : Type 0} (malloc : ℕ → List ℕ) (read_call : Fd → ℕ → ReadResult × Fd)
    (write_call : Fd → List ℕ → WriteResult × Fd) : Shm → Type 0 where
  started : Runs malloc read_call write_call start_shm
  called :
      {m n : Shm}
      → Runs malloc read_call write_call m
      → Step m n
      → Runs malloc read_call write_call n
  sent :
      (fuel : ℕ) (relay : Relay) (now after : ℕ) (self self' : Sender Fd)
      → Runs malloc read_call write_call self.shm
      → relay.shm_dev_idx < 32
      → sender_round malloc read_call write_call fuel relay now after self ≡ done (some self')
      → Runs malloc read_call write_call self'.shm
  received :
      (fuel now : ℕ) (self self' : Receiver Fd)
      → Runs malloc read_call write_call self.shm
      → receiver_round malloc read_call write_call fuel now self ≡ done (some self')
      → Runs malloc read_call write_call self'.shm

-- In every state of the shared memory that is reached from the one that shm_start leaves by any
-- sequence of calls that write and of rounds of the threads `sender` and `receiver` that end:
-- every map holds 32-bit words, a command is flagged only for a device in the catalog, and no
-- parameter is pending for a place without a device.
pub Runs-IsDevShm :
    {Fd : Type 0} (malloc : ℕ → List ℕ) (read_call : Fd → ℕ → ReadResult × Fd)
    (write_call : Fd → List ℕ → WriteResult × Fd) {m : Shm}
    → Runs malloc read_call write_call m
    → IsDevShm m.dev
Runs-IsDevShm malloc read_call write_call started = unfold start_shm in start_devices-IsDevShm
Runs-IsDevShm malloc read_call write_call (called r s) =
    Step-IsDevShm s (Runs-IsDevShm malloc read_call write_call r)
Runs-IsDevShm malloc read_call write_call (sent fuel relay now after self self' r below e) =
    sender_round-IsDevShm malloc read_call write_call fuel relay now after self self' below e
      (Runs-IsDevShm malloc read_call write_call r)
Runs-IsDevShm malloc read_call write_call (received fuel now self self' r e) =
    receiver_round-IsDevShm malloc read_call write_call fuel now self self' e
      (Runs-IsDevShm malloc read_call write_call r)

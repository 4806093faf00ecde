-- ===== src/Lowcar/Logs.antt =====
-- The queue of logs of lowcar/devices/Device/Messenger.cpp.
pub mod Flush
use c_runtime.Prelude.{ℕ, ◌+◌, ◌*◌, List, [], ◌∷◌, ◌++◌, Outcome, done, fault, ◌>>=◌, none, memcpy}
use c_runtime.Prelude.{ltb, ◌==◌, if◌then◌else◌, length, u8}
use c_runtime.Lowcar.Types.{LowcarMessage, Port, lowcar_max_payload_size, id_log}
use c_runtime.Lowcar.Messenger.{send_message}

-- The texts that are queued, without their terminators; `num_logs` is their number. `max_size` is
-- a `uint8_t`, and `strings` the number of strings that are allocated.
pub record LogQueue : Type 0 where
  pub max_size : ℕ
  pub strings : ℕ
  pub texts : List (List ℕ)

-- The queue of a new messenger.
unfoldable pub new_queue : LogQueue
new_queue = record { max_size = 10; strings = 10; texts = [] }

-- `Double the queue size if it's full`.
unfoldable pub grow_queue : LogQueue → LogQueue
grow_queue queue =
    if length queue.texts == queue.max_size
    then record {
      max_size = u8 (2 * queue.max_size);
      strings = 2 * queue.max_size;
      texts = queue.texts;
    }
    else queue

-- `text` is what `vsprintf` makes of the arguments. A fault is a string that is not allocated, or
-- a text that is longer than its string. `num_logs` is a `uint8_t`: at 256 the queue is empty.
unfoldable pub lowcar_printf : LogQueue → List ℕ → Outcome LogQueue
lowcar_printf queue text =
    let grown = grow_queue queue in
    if ltb (length grown.texts) grown.strings
    then if ltb (length text) lowcar_max_payload_size
      then done (record grown {
        texts = if u8 (length grown.texts + 1) == 0 then [] else grown.texts ++ (text ∷ []);
      })
      else fault
    else fault

-- Several logs, one after the other.
unfoldable pub print_all : LogQueue → List (List ℕ) → Outcome LogQueue
print_all queue [] = done queue
print_all queue (text ∷ texts) = lowcar_printf queue text >>= (λ queue'. print_all queue' texts)

module _ {S : Type 0} (port : Port S) (garbage : ℕ → List ℕ) where
  -- The loop over the texts; `log` is the local message.
  unfoldable pub flush_loop : List (List ℕ) → LowcarMessage → S → Outcome S
  flush_loop [] log s = done s
  flush_loop (text ∷ texts) log s = memcpy log.payload 0 (text ++ (0 ∷ [])) >>= (λ block.
      send_message port garbage id_log
        (record log { payload_length = u8 (length text + 1); payload = block }) none s
      >>= (λ r. flush_loop texts r.1 r.2))

  -- The local message holds garbage at first.
  unfoldable pub lowcar_flush : LogQueue → S → Outcome (LogQueue × S)
  lowcar_flush queue s =
      if length queue.texts == 0
      then done (queue, s)
      else flush_loop queue.texts
          (record { message_id = 0; payload_length = 0; payload = garbage lowcar_max_payload_size })
          s
        >>= (λ s'. done (record queue { texts = [] }, s'))

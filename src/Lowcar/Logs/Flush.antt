-- ===== src/Lowcar/Logs/Flush.antt =====
-- The queue of logs is kept in order, and is sent whole.
use c_runtime.Prelude.{
  ℕ, ◌+◌, ◌≤◌, ◌<◌, ◌≡◌, ◌⊎◌, refl, sym, ap, arith, List, [], ◌∷◌, ◌++◌, ◌∙◌, done, length,
  length-append, drop, All,
}
use c_runtime.Prelude.Blocks.{memcpy_at}
use c_runtime.Lowcar.Types.{LowcarMessage, Port, id_log, lowcar_max_payload_size}
use c_runtime.Lowcar.Messenger.{send_message, cleared}
use c_runtime.Lowcar.Messenger.Ports.{IsPort}
use c_runtime.Lowcar.Messenger.Sending.{send_built_lem, wire_of}
use c_runtime.Lowcar.Logs.{LogQueue, grow_queue, lowcar_printf, flush_loop, lowcar_flush}
use mathlib.Core.List.{append_assoc, append-nil}

abbrev pub IsShort : List ℕ → Type 0
IsShort text = length text < 132

-- The sizes that a queue is given before its `uint8_t` runs over.
abbrev pub IsSize : ℕ → Type 0
IsSize n = (n ≡ 10) ⊎ ((n ≡ 20) ⊎ ((n ≡ 40) ⊎ ((n ≡ 80) ⊎ (n ≡ 160))))

-- The size is that of the strings allocated, there are no more texts, and each fits its string.
abbrev pub IsQueue : LogQueue → Type 0
IsQueue queue =
    IsSize queue.max_size
    × (queue.strings ≡ queue.max_size)
    × (length queue.texts ≤ queue.max_size)
    × All IsShort queue.texts

All-append :
    (xs : List (List ℕ)) (x : List ℕ) → All IsShort xs → IsShort x → All IsShort (xs ++ (x ∷ []))
All-append [] x h k = (k, h)
All-append (y ∷ xs) x h k = (h.0, All-append xs x h.1 k)

grow_queue_lem :
    (queue : LogQueue)
    → IsQueue queue
    → length queue.texts < 160
    → IsSize (grow_queue queue).max_size
      × ((grow_queue queue).strings ≡ (grow_queue queue).max_size)
      × (length queue.texts < (grow_queue queue).max_size)
      × ((grow_queue queue).texts ≡ queue.texts)
unfolding grow_queue
grow_queue_lem queue h k = (ground (arith, h), ground (arith, h), ground (arith, h), ground arith)

-- On a queue that is in order and has fewer than 160 texts, `lowcar_printf` of a text that fits a
-- string puts it behind the texts queued before, and the queue is in order after.
pub lowcar_printf-IsQueue :
    (queue : LogQueue) (text : List ℕ)
    → IsQueue queue
    → length queue.texts < 160
    → length text < lowcar_max_payload_size
    → (queue' : LogQueue) × (lowcar_printf queue text ≡ done queue')
      × (queue'.texts ≡ queue.texts ++ (text ∷ []))
      × IsQueue queue'
unfolding lowcar_printf
lowcar_printf-IsQueue queue text h few k =
    let grown : LogQueue = grow_queue queue in
    let g = grow_queue_lem queue h few in
    (
      record {
        max_size = grown.max_size;
        strings = grown.strings;
        texts = queue.texts ++ (text ∷ []);
      },
      ground (arith, g, few, k),
      refl,
      (
        g.0,
        g.1,
        omega (arith, length-append queue.texts (text ∷ []), g.2),
        All-append queue.texts text h.3 k,
      ),
    )

-- What stands on the wire for the texts.
unfoldable pub log_bytes : List (List ℕ) → List ℕ
log_bytes [] = []
log_bytes (text ∷ texts) = wire_of id_log (text ++ (0 ∷ [])) ++ log_bytes texts

module _ {S : Type 0} (port : Port S) (pending sent : S → List ℕ) (law : IsPort port pending sent)
    (garbage : ℕ → List ℕ) (sizes : (n : ℕ) → length (garbage n) ≡ n) where
  flush_loop_lem :
      (texts : List (List ℕ)) (log : LowcarMessage) (s : S)
      → All IsShort texts
      → length log.payload ≡ 132
      → (s' : S) × (flush_loop port garbage texts log s ≡ done s')
        × (sent s' ≡ sent s ++ log_bytes texts)
  unfolding flush_loop send_message log_bytes
  flush_loop_lem [] log s h full = (s, refl, sym (append-nil (sent s)))
  flush_loop_lem (text ∷ texts) log s h full =
      let line : List ℕ = text ++ (0 ∷ []) in
      let len : length line ≡ length text + 1 = omega (arith, length-append text (0 ∷ [])) in
      let junk : List ℕ = drop (length line) log.payload in
      let r =
        send_built_lem port pending sent law garbage sizes
          (record { message_id = id_log; payload_length = length line; payload = line ++ junk })
          line junk s (omega arith) (omega (arith, len, h.0)) refl refl in
      let more = flush_loop_lem texts cleared r.0 h.1 refl in
      (
        more.0,
        ground (
          arith,
          h.0,
          len,
          memcpy_at [] log.payload line 0 refl (omega (arith, len, h.0)),
          r.1,
          more.1,
        ),
        more.2
            ∙ (ap (λ t. t ++ log_bytes texts) r.2
                ∙ append_assoc (sent s) (wire_of id_log line) (log_bytes texts)),
      )

  flush_texts :
      (n m : ℕ) (texts : List (List ℕ)) (s : S)
      → All IsShort texts
      → (s' : S) × (lowcar_flush port garbage
            (record { max_size = n; strings = m; texts = texts })
            s
          ≡ done (record { max_size = n; strings = m; texts = [] }, s'))
        × (sent s' ≡ sent s ++ log_bytes texts)
  unfolding lowcar_flush log_bytes
  flush_texts n m [] s h = (s, refl, sym (append-nil (sent s)))
  flush_texts n m (text ∷ texts) s h =
      let log : LowcarMessage = record {
        message_id = 0;
        payload_length = 0;
        payload = garbage 132;
      } in
      let r = flush_loop_lem (text ∷ texts) log s h (sizes 132) in (r.0, ground (arith, r.1), r.2)

  -- From a queue that is in order, `lowcar_flush` writes each text with its terminator as the
  -- payload of a LOG, in the order in which they were queued, and leaves the queue empty and in
  -- order.
  pub lowcar_flush-IsQueue :
      (queue : LogQueue) (s : S)
      → IsQueue queue
      → (s' : S) × (lowcar_flush port garbage queue s ≡ done (record queue { texts = [] }, s'))
        × (sent s' ≡ sent s ++ log_bytes queue.texts)
        × IsQueue (record queue { texts = [] })
  unfolding lowcar_flush
  lowcar_flush-IsQueue queue s h =
      let r = flush_texts queue.max_size queue.strings queue.texts s h.3 in
      (r.0, r.1, r.2, (h.0, h.1, omega arith, tt))

-- ===== src/Message/Serial/Status.antt =====
-- The status codes of `parse_message`, and what it needs of the lengths that a message declares.
use c_runtime.Prelude.{ℕ, ◌+◌, ◌≤◌, ◌<◌, ◌≡◌, ◌≢◌, refl, ◌∙◌, arith}
use c_runtime.Prelude.{
  Bool, Bool-cases, ◌⊎◌, inl, inr, not, List, [], ◌∷◌, ◌++◌, done, fault, ltb, if◌then◌else◌,
}
use c_runtime.Prelude.{length, length-take, read, slice, memcpy, drop}
use c_runtime.Prelude.Blocks.{length-memcpy, length-slice, >>=-eq-done}
use c_runtime.Message.Types.{Message}
use c_runtime.Message.Payload.{append_payload, checksum}
use c_runtime.Message.Cobs.RoundTrip.{length-cobs_encode}
use c_runtime.Message.Serial.RoundTrip.{parse_message_frame}
use c_runtime.Message.Cobs.{cobs_encode, cobs_decode, decoded, bad_packet, stuck, Decoded}
use c_runtime.Message.Serial.{
  ParseStatus, parsed, bad_checksum, payload_too_small, invalid_length, verify_checksum,
  fill_message, parse_decoded, parse_message,
}

-- A message whose lengths agree with its block, which has `size` bytes.
pub record IsMessage (size : ℕ) (m : Message) : Type 0 where
  pub allocated : length m.payload ≡ size
  pub complete : m.payload_length ≡ m.max_payload_length
  pub within : m.payload_length ≤ size

append_payload_inv :
    (m : Message) (d : List ℕ) (r : Bool × Message)
    → append_payload m d ≡ done r
    → (length r.1.payload ≡ length m.payload)
      × (m.payload_length + length d ≤ length m.payload)
      × (r.1.payload_length ≡ m.payload_length + length d)
      × (r.1.max_payload_length ≡ m.max_payload_length)
      × (r.0 ≡ not (ltb m.max_payload_length (m.payload_length + length d)))
unfolding append_payload
append_payload_inv m d r e =
    let h = >>=-eq-done (memcpy m.payload m.payload_length d) _ e in
    let k = length-memcpy m.payload m.payload_length d h.0 h.1 in ground (arith, h.2, k)

verify_checksum_inv :
    (block : List ℕ) (m : Message) (s : ParseStatus) (r : Message)
    → verify_checksum block m ≡ done (s, r)
    → (r ≡ m) × (s ≢ payload_too_small) × (s ≢ invalid_length)
unfolding verify_checksum
verify_checksum_inv block m s r e =
    let h0 = >>=-eq-done (slice block 0 _) _ e in
    let h1 = >>=-eq-done (checksum h0.0) _ h0.2 in
    let h2 = >>=-eq-done (read block _) _ h1.2 in ground (arith, h2.2)

-- The end of `fill_message`, where `d` is a payload of the declared length.
fill_message_end :
    (block d : List ℕ) (id size : ℕ) (m : Message) (a : Bool × Message) (s : ParseStatus)
    (r : Message)
    → length d ≡ size
    → append_payload (record m { message_id = id; payload_length = 0; max_payload_length = size }) d
      ≡ done a
    → (if a.0 then verify_checksum block a.1 else done (payload_too_small, a.1)) ≡ done (s, r)
    → IsMessage (length m.payload) r × (s ≢ payload_too_small) × (s ≢ invalid_length)
fill_message_end block d id size m a s r l e f = ground (
  arith,
  append_payload_inv (record m { message_id = id; payload_length = 0; max_payload_length = size }) d
      a e,
  verify_checksum_inv block a.1 s r,
)

fill_message_inv :
    (block : List ℕ) (m : Message) (s : ParseStatus) (r : Message)
    → fill_message block m ≡ done (s, r)
    → IsMessage (length m.payload) r × (s ≢ payload_too_small) × (s ≢ invalid_length)
unfolding fill_message
fill_message_inv block m s r e =
    let h0 = >>=-eq-done (read block 0) _ e in
    let h1 = >>=-eq-done (read block 1) _ h0.2 in
    let h2 = >>=-eq-done (slice block 2 h1.0) _ h1.2 in
    let h3 = >>=-eq-done (append_payload _ h2.0) _ h2.2 in
    let l = length-slice block 2 h1.0 h2.0 h2.1 in
    fill_message_end block h2.0 h0.0 h1.0 m h3.0 s r l.0 h3.1 h3.2

-- The outcomes of `parse_message` on `m`.
abbrev pub Returned : Message → ParseStatus → Message → Type 0
Returned m s r =
    ((s ≡ invalid_length) × (r ≡ m))
    ⊎ (((s ≡ parsed) ⊎ (s ≡ bad_checksum)) × IsMessage (length m.payload) r)

filled :
    (m : Message) (s : ParseStatus) (r : Message)
    → IsMessage (length m.payload) r × (s ≢ payload_too_small) × (s ≢ invalid_length)
    → Returned m s r
filled m parsed r h = inr (inl refl, h.0)
filled m bad_checksum r h = inr (inr refl, h.0)
filled m payload_too_small r h = absurd (h.1 refl)
filled m invalid_length r h = absurd (h.2 refl)

fill_message_overrun :
    (id declared : ℕ) (rest : List ℕ) (target : Message)
    → length target.payload < declared
    → fill_message (id ∷ declared ∷ rest) target ≡ fault
unfolding fill_message append_payload
fill_message_overrun id declared rest target over = ground (arith, length-take declared rest)

module _ (malloc : ℕ → List ℕ) where
  parse_decoded_inv :
      (n : ℕ) (out : List ℕ) (m : Message) (s : ParseStatus) (r : Message)
      → parse_decoded malloc n out m ≡ done (s, r)
      → Returned m s r
  unfolding parse_decoded
  parse_decoded_inv n out m s r e = elim (Bool-cases (ltb (length out) 3)) [
    | inl p ↦ inl (ground (arith, e, p))
    | inr p ↦ elim (Bool-cases (ltb 135 (length out))) [
      | inl q ↦ inl (ground (arith, e, p, q))
      | inr q ↦
          let h =
            >>=-eq-done (memcpy (malloc n) 0 out) (λ block. fill_message block m)
              (rw (p, q) at e) in
          filled m s r (fill_message_inv h.0 m s r h.2)
    ]
  ]

  decoded_inv :
      (n : ℕ) (d : Decoded) (m : Message) (s : ParseStatus) (r : Message)
      → (elim d [
        | decoded out ↦ parse_decoded malloc n out m
        | bad_packet ↦ parse_decoded malloc n [] m
        | stuck ↦ fault
      ])
        ≡ done (s, r)
      → Returned m s r
  decoded_inv n (decoded out) m s r e = parse_decoded_inv n out m s r e
  decoded_inv n bad_packet m s r e = parse_decoded_inv n [] m s r e
  decoded_inv n stuck m s r e = cc

  -- `parse_message` never returns 2: the length that it would find too small for the payload is
  -- the one that it copied by. It returns 3 with the message untouched, or it returns 0 or 1 with
  -- a message whose payload has the declared length and lies within the block it was given.
  pub parse_message_status :
      (input : List ℕ) (m : Message) (s : ParseStatus) (r : Message)
      → parse_message malloc input m ≡ done (s, r)
      → Returned m s r
  unfolding parse_message
  parse_message_status input m s r e =
      let h0 = >>=-eq-done (read input 1) _ e in
      let h1 = >>=-eq-done (slice input 2 h0.0) _ h0.2 in
      decoded_inv h0.0 (cobs_decode h1.0) m s r h1.2

-- A message that arrives whole, with a number of bytes that `parse_message` accepts, but declares
-- a payload longer than the block of the message that is filled in, makes `parse_message` copy
-- past that block, whatever its checksum is. Fresh blocks have the size asked for.
pub parse_message_overrun :
    (malloc : ℕ → List ℕ)
    → ((n : ℕ) → length (malloc n) ≡ n)
    → (id declared : ℕ) (rest junk : List ℕ) (target : Message) → 1 ≤ length rest
    → length rest ≤ 133
    → length target.payload < declared
    → let enc = cobs_encode (id ∷ declared ∷ rest) in
      parse_message malloc (0 ∷ enc.1 ∷ (enc.0 ++ junk)) target ≡ fault
parse_message_overrun malloc sizes id declared rest junk target lo hi over =
    let src : List ℕ = id ∷ declared ∷ rest in
    let size = length-cobs_encode src in
    parse_message_frame malloc sizes src junk (cobs_encode src).1 target size.0 (omega arith)
      (omega arith)
    ∙ fill_message_overrun id declared (rest ++ drop (length src) (malloc (cobs_encode src).1))
        target over

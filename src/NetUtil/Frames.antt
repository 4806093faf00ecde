-- ===== src/NetUtil/Frames.antt =====
-- What parse_msg reads is what make_buf framed.
use c_runtime.Prelude.{
  ℕ, zero, suc, ◌+◌, ◌*◌, ◌/◌, ◌%◌, ◌≤◌, ◌<◌, ◌^◌, ◌≡◌, refl, sym, ap, ◌∙◌, arith,
}
use c_runtime.Prelude.{
  List, [], ◌∷◌, ◌++◌, some, done, ◌>>=◌, memcpy, u8, length, take, drop, length-append,
  length-drop,
}
use c_runtime.Prelude.Blocks.{take-append, drop-append_zero, memcpy_at}
use c_runtime.RuntimeUtil.FileIo.{ReadResult, WriteResult, readn}
use c_runtime.RuntimeUtil.FileIo.Streams.{IsStream, readn_lem}
use c_runtime.Message.Types.{bytes_of_u16}
use c_runtime.NetUtil.{make_buf, buffer_offset, message, parse_msg}
use mathlib.Core.List.{append-nil}

-- A message on the wire: its type, its length and its bytes.
abbrev pub framed : ℕ → List ℕ → List ℕ
framed msg_type bytes = u8 msg_type ∷ (bytes_of_u16 (length bytes) ++ bytes)

drop_past : (n : ℕ) (xs : List ℕ) → length xs ≤ n → drop n xs ≡ []
drop_past zero [] h = refl
drop_past zero (x ∷ xs) h = absurd (omega arith)
drop_past (suc n) [] h = refl
drop_past (suc n) (x ∷ xs) h = drop_past n xs (omega (arith, h))

pub make_buf-framed :
    (malloc : ℕ → List ℕ) (msg_type : ℕ) (bytes : List ℕ)
    → length (malloc (length bytes + 3)) ≡ length bytes + 3
    → (make_buf malloc msg_type (length bytes) >>= (λ buf. memcpy buf buffer_offset bytes))
      ≡ done (framed msg_type bytes)
unfolding make_buf
make_buf-framed malloc msg_type bytes h =
    let header : List ℕ = u8 msg_type ∷ bytes_of_u16 (length bytes) in
    let block : List ℕ = malloc (length bytes + 3) in
    let left : length (drop 3 block) ≡ length bytes = omega (arith, length-drop 3 block, h) in
    let first = memcpy_at [] block header 0 refl (omega (arith, h)) in
    let second = memcpy_at header (drop 3 block) bytes 3 refl (omega (arith, left)) in
    let end = drop_past (length bytes) (drop 3 block) (omega (arith, left)) in
    rw first (second ∙ rw (end, append-nil bytes) refl)

-- Reading what is next on a stream into a block of its size.
readn_next :
    {Fd : Type 0} (read_call : Fd → ℕ → ReadResult × Fd) (pending : Fd → List ℕ)
    (s : IsStream read_call pending) (fuel n : ℕ) (now later block : List ℕ) (fd : Fd)
    → length now ≡ n
    → length block ≡ n
    → n < fuel
    → n < 2 ^ 16
    → pending fd ≡ now ++ later
    → (fd' : Fd) × (readn read_call fuel fd block 0 n ≡ done (some (n, now, fd')))
      × (pending fd' ≡ later)
readn_next read_call pending s fuel n now later block fd size room f small p =
    let avail : length (pending fd) ≡ n + length later =
      ap length p ∙ length-append now later ∙ omega (arith, size) in
    let r =
      readn_lem read_call pending s fuel n [] block fd f small (omega (arith, avail))
        (omega (arith, room)) in
    let taken : take n (pending fd) ≡ now = rw (p, sym size) (take-append now later) in
    let kept : drop n (pending fd) ≡ later = rw (p, sym size) (drop-append_zero now later) in
    let end : drop n block ≡ [] = drop_past n block (omega (arith, room)) in
    let bytes : take n (pending fd) ++ drop n block ≡ now = rw (taken, end) (append-nil now) in
    (r.0, r.1 ∙ ap (λ b. done (some (n, b, r.0))) bytes, r.2 ∙ kept)

-- A message with a type of one byte and fewer than 2 ^ 16 bytes that make_buf and the packing
-- framed, next on a stream, is read by parse_msg, with enough fuel, memory of the sizes asked for
-- and whatever pieces read gives: the type and the bytes are those of the message, and what came
-- after it is left on the stream.
pub parse_msg-make_buf :
    {Fd : Type 0} (malloc : ℕ → List ℕ) (read_call : Fd → ℕ → ReadResult × Fd)
    (write_call : Fd → List ℕ → WriteResult × Fd) (pending : Fd → List ℕ)
    (s : IsStream read_call pending) (fuel msg_type : ℕ) (bytes buf rest : List ℕ) (fd : Fd)
    → ((n : ℕ) → length (malloc n) ≡ n)
    → msg_type < 256
    → length bytes < 2 ^ 16
    → length bytes + 3 ≤ fuel
    → (make_buf malloc msg_type (length bytes) >>= (λ b. memcpy b buffer_offset bytes)) ≡ done buf
    → pending fd ≡ buf ++ rest
    → (fd' : Fd) × (parse_msg malloc read_call write_call fuel fd
        ≡ done (some (message msg_type (length bytes) bytes, fd')))
      × (pending fd' ≡ rest)
unfolding parse_msg
parse_msg-make_buf malloc read_call write_call pending s fuel msg_type bytes buf rest fd sizes t l f
      made p =
    let framing = make_buf-framed malloc msg_type bytes (sizes (length bytes + 3)) in
    let same : buf ≡ framed msg_type bytes = ground (arith, made, framing) in
    let wire : pending fd ≡ framed msg_type bytes ++ rest = p ∙ ap (λ b. b ++ rest) same in
    let n : ℕ = length bytes in
    let r1 =
      readn_next read_call pending s fuel 1 (u8 msg_type ∷ []) (bytes_of_u16 n ++ (bytes ++ rest))
        (malloc 1) fd refl (sizes 1) (omega (arith, f)) (omega arith) wire in
    let r2 =
      readn_next read_call pending s fuel 2 (bytes_of_u16 n) (bytes ++ rest) (malloc 2) r1.0 refl
        (sizes 2) (omega (arith, f)) (omega arith) r1.2 in
    let r3 =
      readn_next read_call pending s fuel n bytes rest (malloc n) r2.0 refl (sizes n)
        (omega (arith, f)) l r2.2 in
    let low : u8 msg_type ≡ msg_type = omega (arith, t) in
    let word : n % 256 + 2 ^ 8 * (n / 256 % 256) ≡ n = omega (arith, l) in
    (r3.0, rw (r1.1, r2.1, word, r3.1) (ap (λ t. done (some (message t n bytes, r3.0))) low), r3.2)

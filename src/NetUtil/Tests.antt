-- ===== src/NetUtil/Tests.antt =====
-- The framing of messages at concrete streams.
use c_runtime.Prelude.{ℕ, ◌≡◌, refl, arith}
use c_runtime.Prelude.{List, [], ◌∷◌, some, done, take, drop, replicate, length-replicate}
use c_runtime.RuntimeUtil.FileIo.{ReadResult, got, WriteResult, took}
use c_runtime.RuntimeUtil.FileIo.Streams.{IsStream}
use c_runtime.NetUtil.{make_buf, message, parse_msg}
use c_runtime.NetUtil.Frames.{parse_msg-make_buf}

-- A stream that gives one byte at a time.
abbrev one_byte : List ℕ → ℕ → ReadResult × List ℕ
one_byte fd n = (got (take 1 fd), drop 1 fd)

one_byte-IsStream : IsStream one_byte (λ fd. fd)
one_byte-IsStream = record { piece = λ fd n h k. (1, omega arith, h, k, refl, refl) }

abbrev no_write : List ℕ → List ℕ → WriteResult × List ℕ
no_write fd bytes = (took 0, fd)

abbrev zeros : ℕ → List ℕ
zeros n = replicate n 0

parse_msg-make_buf_example :
    (fd' : List ℕ) × (parse_msg zeros one_byte no_write 9 (4 ∷ 2 ∷ 0 ∷ 7 ∷ 8 ∷ 5 ∷ [])
      ≡ done (some (message 4 2 (7 ∷ 8 ∷ []), fd')))
    × (fd' ≡ 5 ∷ [])
unfolding make_buf
parse_msg-make_buf_example =
    parse_msg-make_buf zeros one_byte no_write (λ fd. fd) one_byte-IsStream 9 4 (7 ∷ 8 ∷ [])
      (4 ∷ 2 ∷ 0 ∷ 7 ∷ 8 ∷ []) (5 ∷ []) (4 ∷ 2 ∷ 0 ∷ 7 ∷ 8 ∷ 5 ∷ []) (λ n. length-replicate n 0)
      (omega arith) (omega arith) (omega arith) refl refl

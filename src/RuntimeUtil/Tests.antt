-- ===== src/RuntimeUtil/Tests.antt =====
-- The properties of the lookups of runtime_util/runtime_util.c at concrete devices and keys.
use c_runtime.Prelude.{◌≡◌, refl, arith, some, done}
use c_runtime.Prelude.{ℕ, List, [], ◌∷◌, take, drop}
use c_runtime.RuntimeUtil.FileIo.{ReadResult, got, readn}
use c_runtime.RuntimeUtil.FileIo.Streams.{IsStream, readn_lem}

-- A descriptor that gives one byte at a time.
abbrev one_byte : List ℕ → ℕ → ReadResult × List ℕ
one_byte fd n = (got (take 1 fd), drop 1 fd)

one_byte-IsStream : IsStream one_byte (λ fd. fd)
one_byte-IsStream = record { piece = λ fd n h k. (1, omega arith, h, k, refl, refl) }

readn_lem_example :
    (fd' : List ℕ) × (readn one_byte 3 (7 ∷ 8 ∷ 9 ∷ []) (1 ∷ 0 ∷ 0 ∷ []) 1 2
      ≡ done (some (2, 1 ∷ 7 ∷ 8 ∷ [], fd')))
    × (fd' ≡ 9 ∷ [])
readn_lem_example =
    readn_lem one_byte (λ fd. fd) one_byte-IsStream 3 2 (1 ∷ []) (0 ∷ 0 ∷ []) (7 ∷ 8 ∷ 9 ∷ [])
      (omega arith) (omega arith) (omega arith) (omega arith)

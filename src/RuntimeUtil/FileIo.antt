-- ===== src/RuntimeUtil/FileIo.antt =====
-- `readn` and `writen` of runtime_util/runtime_util.c, over the calls of the system.
pub mod Streams
use c_runtime.Prelude.{ℕ, zero, suc, ◌+◌, ◌-◌, ◌^◌, List, true, false, Option, none, some}
use c_runtime.Prelude.{Outcome, done, ◌>>=◌, slice, memcpy, ◌==◌, u16, length}

-- What `read` gives: bytes (none at the end of the file), or -1.
pub data ReadResult : Type 0 where
  got : List ℕ → ReadResult
  read_error : ReadResult

-- What `write` gives: the number of bytes taken, or -1.
pub data WriteResult : Type 0 where
  took : ℕ → WriteResult
  write_error : WriteResult

-- The results as they are stored in a `uint16_t`, so that no test for `< 0` ever holds.
abbrev pub n_read : ReadResult → ℕ
n_read (got bytes) = u16 (length bytes)
n_read read_error = 2 ^ 16 - 1

abbrev pub n_written : WriteResult → ℕ
n_written (took n) = u16 n
n_written write_error = 2 ^ 16 - 1

-- What the call leaves in the buffer.
abbrev pub store_read : ReadResult → ℕ → List ℕ → Outcome (List ℕ)
store_read (got bytes) curr buf = memcpy buf curr bytes
store_read read_error curr buf = done buf

-- `Fd` is the state of what the file descriptor stands for.
module _ {Fd : Type 0} (read_call : Fd → ℕ → ReadResult × Fd) where
  -- The result, the buffer and the descriptor; `none` means that the fuel ran out.
  unfoldable pub readn_loop :
      ℕ → (n n_remain curr : ℕ) → List ℕ → Fd → Outcome (Option (ℕ × List ℕ × Fd))
  readn_loop zero n n_remain curr buf fd = done none
  readn_loop (suc fuel) n n_remain curr buf fd = elim (n_remain == 0) [
    | true ↦ done (some (n - n_remain, buf, fd))
    | false ↦
        let r = (read_call fd n_remain).0 in
        let fd' = (read_call fd n_remain).1 in
        store_read r curr buf >>= (λ buf'. elim (n_read r == 0) [
          | true ↦ done (some (0, buf', fd'))
          | false ↦
              readn_loop fuel n (u16 (n_remain + 2 ^ 16 - n_read r)) (curr + n_read r) buf' fd'
        ])
  ]

  -- `readn` into the buffer from index `at` on.
  unfoldable pub readn : ℕ → Fd → List ℕ → ℕ → ℕ → Outcome (Option (ℕ × List ℕ × Fd))
  readn fuel fd buf at n = readn_loop fuel n n at buf fd

module _ {Fd : Type 0} (write_call : Fd → List ℕ → WriteResult × Fd) where
  -- The inner `none` is -1.
  unfoldable pub writen_loop :
      ℕ → (n n_remain curr : ℕ) → List ℕ → Fd → Outcome (Option (Option ℕ × Fd))
  writen_loop zero n n_remain curr buf fd = done none
  writen_loop (suc fuel) n n_remain curr buf fd = elim (n_remain == 0) [
    | true ↦ done (some (some n, fd))
    | false ↦ slice buf curr n_remain >>= (λ bytes.
        let r = (write_call fd bytes).0 in
        let fd' = (write_call fd bytes).1 in
        elim (n_written r == 0) [
          | true ↦ done (some (none, fd'))
          | false ↦
              writen_loop fuel n (u16 (n_remain + 2 ^ 16 - n_written r)) (curr + n_written r) buf
                fd'
        ])
  ]

  unfoldable pub writen : ℕ → Fd → List ℕ → ℕ → Outcome (Option (Option ℕ × Fd))
  writen fuel fd buf n = writen_loop fuel n n 0 buf fd

-- ===== src/Logger/Outputs.antt =====
-- Which outputs a message goes to.
use c_runtime.Prelude.{ℕ, ◌≡◌}
use c_runtime.Prelude.{
  Bool, true, false, not, ◌&&◌, List, ◌∷◌, Option, some, Outcome, done, length, u16, ltb,
  if◌then◌else◌,
}
use c_runtime.RuntimeUtil.FileIo.{WriteResult, writen}
use c_runtime.Relay.{◌then◌}
use c_runtime.Logger.{LogLevel, level_index, Config, Sinks}

-- An output is to take a message if it is used and the level of the message is not below its own.
abbrev pub takes : Bool → LogLevel → LogLevel → Bool
takes used least level = used && not (ltb (level_index level) (level_index least))

-- The message is added to an output that is to take it, and to no other.
abbrev pub added : Bool → List ℕ → List (List ℕ) → List (List ℕ)
added wanted message texts = if wanted then message ∷ texts else texts

module _ {Fd : Type 0} (open_call : Fd → Bool × Fd) (write_call : Fd → List ℕ → WriteResult × Fd)
    (raised : Fd → Bool) (fuel : ℕ) where
  -- What is left of the outputs with this state of the pipe.
  abbrev pub local : Config → LogLevel → List ℕ → Sinks Fd → Fd → Bool → Sinks Fd
  local c level message s fifo up = record {
    stdout = added (takes c.to_stdout c.stdout_level level) message s.stdout;
    file = added (takes c.to_file c.file_level level) message s.file;
    fifo = fifo;
    fifo_up = up;
  }

  -- The whole message written to the pipe in this state, which stays up unless SIGPIPE is raised.
  abbrev pub sent : Config → LogLevel → List ℕ → Sinks Fd → Fd → Outcome (Option (Sinks Fd))
  sent c level message s fifo =
      writen write_call fuel fifo message (u16 (length message))
      then (λ r. done (some (local c level message s r.1 (not (raised r.1)))))

  -- The result of emitting a message, by what happens to the pipe.
  pub data IsEmitted (c : Config) (level : LogLevel) (message : List ℕ) (s : Sinks Fd)
      : Outcome (Option (Sinks Fd)) → Type 0 where
    not_for_network :
        takes c.to_network c.network_level level ≡ false
        → IsEmitted c level message s (done (some (local c level message s s.fifo s.fifo_up)))
    no_reader :
        takes c.to_network c.network_level level ≡ true
        → s.fifo_up ≡ false
        → (open_call s.fifo).0 ≡ false
        → IsEmitted c level message s
            (done (some (local c level message s (open_call s.fifo).1 false)))
    opened :
        takes c.to_network c.network_level level ≡ true
        → s.fifo_up ≡ false
        → (open_call s.fifo).0 ≡ true
        → IsEmitted c level message s (sent c level message s (open_call s.fifo).1)
    was_up :
        takes c.to_network c.network_level level ≡ true
        → s.fifo_up ≡ true
        → IsEmitted c level message s (sent c level message s s.fifo)

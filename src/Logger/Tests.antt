-- ===== src/Logger/Tests.antt =====
-- The messages of the logger at concrete configurations.
use c_runtime.Prelude.{ℕ, ◌<◌, ◌≡◌, ◌⊎◌, arith}
use c_runtime.Prelude.{Bool, ◌++◌, true, false, List, [], ◌∷◌, done, length}
use c_runtime.RuntimeUtil.Types.{executor}
use c_runtime.RuntimeUtil.FileIo.{WriteResult, took}
use c_runtime.Logger.{
  Config, Sinks, debug, warn, error, fatal, level_index, build_msg, ends_in_newline,
}
use c_runtime.Logger.Bounds.{build_msg_bounds}

-- Standard output takes warnings, the network every message, and there is no file.
abbrev config : Config
config = record {
  to_stdout = true;
  to_file = false;
  to_network = true;
  stdout_level = warn;
  file_level = fatal;
  network_level = debug;
  log_file_path = "";
}

-- The pipe is the bytes that were written to it.
abbrev empty : Sinks (List ℕ)
empty = record { stdout = []; file = []; fifo = []; fifo_up = false }

abbrev open_always : List ℕ → Bool × List ℕ
open_always fifo = (true, fifo)

abbrev write_all : List ℕ → List ℕ → WriteResult × List ℕ
write_all fifo bytes = (took (length bytes), fifo ++ bytes)

build_msg_bounds_example :
    (message : List ℕ) × (build_msg error executor (48 ∷ 10 ∷ []) (104 ∷ 105 ∷ []) ≡ done message)
    × (length message < 512)
    × ((level_index error ≡ 3) ⊎ (ends_in_newline message ≡ done true))
build_msg_bounds_example =
    build_msg_bounds error executor (48 ∷ 10 ∷ []) (104 ∷ 105 ∷ []) (omega arith) (omega arith)
      (omega arith)

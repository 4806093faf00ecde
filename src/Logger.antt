-- ===== src/Logger.antt =====
-- logger/logger.c: the levels and outputs of the configuration file, and emitting a message. Texts
-- are lists of bytes without the closing zero; the files, the clock and `sscanf` are parameters.
pub mod Outputs
pub mod Bounds
mod Tests
use c_runtime.Prelude.{
  ℕ, zero, suc, ◌+◌, ◌-◌, Bool, true, false, not, ◌&&◌, ◌||◌, List, [], ◌∷◌, ◌++◌, Option, none,
  some,
}
use c_runtime.Prelude.{
  Outcome, done, fault, ◌>>=◌, ◌==◌, ltb, leb, if◌then◌else◌, length, take, get_or, u16,
}
use c_runtime.RuntimeUtil.Types.{Process}
use c_runtime.RuntimeUtil.FileIo.{WriteResult, writen}
use c_runtime.Relay.{◌then◌}
use Prim.Native.String.{String}
use text.Mathlib.Text.{◌==◌ as str_eq}

-- `log_level_t`, in the order of the enum.
pub data LogLevel : Type 0 where
  debug info warn python error fatal : LogLevel

abbrev pub level_index : LogLevel → ℕ
level_index debug = 0
level_index info = 1
level_index warn = 2
level_index python = 3
level_index error = 4
level_index fatal = 5

-- The flags of `OUTPUTS`, the level of each output, and the path of the file.
pub record Config : Type 0 where
  pub to_stdout : Bool
  pub to_file : Bool
  pub to_network : Bool
  pub stdout_level : LogLevel
  pub file_level : LogLevel
  pub network_level : LogLevel
  pub log_file_path : String

-- The global variables before the configuration is read.
abbrev pub start_config : Config
start_config = record {
  to_stdout = false;
  to_file = false;
  to_network = false;
  stdout_level = debug;
  file_level = debug;
  network_level = debug;
  log_file_path = "";
}

-- A name that is not one of the five leaves the level as it is.
unfoldable pub set_log_level : LogLevel → String → LogLevel
set_log_level level important =
    if str_eq important "DEBUG"
    then debug
    else if str_eq important "INFO"
    then info
    else if str_eq important "WARN"
    then warn
    else if str_eq important "ERROR"
    then error
    else if str_eq important "FATAL"
    then fatal
    else level

-- The next line that is neither blank nor a comment, and the lines after it; `none` is the end of
-- the file, after which the process exits.
unfoldable pub next_line : List (List ℕ) → Option (List ℕ × List (List ℕ))
next_line [] = none
next_line (line ∷ lines) =
    let rest = next_line lines in
    if get_or line 0 0 == 10 || (get_or line 0 0 == 47 && get_or line 1 0 == 47)
    then rest
    else some (line, lines)

-- The two variables that `sscanf` fills in; it leaves them as they are when the line does not
-- match.
pub record Scanned : Type 0 where
  pub important_char : ℕ
  pub important : String

-- What `sscanf` finds with the format of a case, in a line.
pub record Scanf : Type 0 where
  pub scan_char : ℕ → List ℕ → Option ℕ
  pub scan_string : ℕ → List ℕ → Option String

abbrev pub or_char : Option ℕ → ℕ → ℕ
or_char none c = c
or_char (some c') c = c'

abbrev pub or_string : Option String → String → String
or_string none s = s
or_string (some s') s = s'

-- 'Y' or 'y'.
abbrev pub is_yes : ℕ → Bool
is_yes c = c == 89 || c == 121

-- The switch on the number of the configuration line.
unfoldable pub configure : ℕ → Scanned → Config → Config
configure i v c =
    if i == 0
    then (if is_yes v.important_char then record c { to_stdout = true } else c)
    else if i == 1
    then (if is_yes v.important_char then record c { to_file = true } else c)
    else if i == 2
    then (if is_yes v.important_char then record c { to_network = true } else c)
    else if i == 3
    then record c { stdout_level = set_log_level c.stdout_level v.important }
    else if i == 4
    then record c { file_level = set_log_level c.file_level v.important }
    else if i == 5
    then record c { network_level = set_log_level c.network_level v.important }
    else if i == 6
    then record c { log_file_path = v.important }
    else c

-- The loop over the configuration lines, from `i` on.
unfoldable pub config_loop : Scanf → ℕ → ℕ → List (List ℕ) → Scanned → Config → Option Config
config_loop scanf zero i lines v c = some c
config_loop scanf (suc left) i lines v c = elim (next_line lines) [
  | none ↦ none
  | some next ↦
      let v1 : Scanned = record {
        important_char =
            if ltb i 3
            then or_char (scanf.scan_char i next.0) v.important_char
            else v.important_char;
        important =
            if ltb i 3 then v.important else or_string (scanf.scan_string i next.0) v.important;
      } in
      config_loop scanf left (i + 1) next.1 v1 (configure i v1 c)
]

abbrev pub num_configs : ℕ
num_configs = 7

-- The level of an output that is not used is set to FATAL. `stack` is what the variables hold
-- before.
unfoldable pub read_config_file : Scanf → List (List ℕ) → Scanned → Config → Option Config
read_config_file scanf lines stack c = elim (config_loop scanf num_configs 0 lines stack c) [
  | none ↦ none
  | some c1 ↦ some (record c1 {
    stdout_level = if c1.to_stdout then c1.stdout_level else fatal;
    file_level = if c1.to_file then c1.file_level else fatal;
    network_level = if c1.to_network then c1.network_level else fatal;
  })
]

-- The names of the levels and of the processes.
abbrev pub level_str : LogLevel → List ℕ
level_str debug = 68 ∷ 69 ∷ 66 ∷ 85 ∷ 71 ∷ []
level_str info = 73 ∷ 78 ∷ 70 ∷ 79 ∷ []
level_str warn = 87 ∷ 65 ∷ 82 ∷ 78 ∷ []
level_str python = 80 ∷ 89 ∷ 84 ∷ 72 ∷ 79 ∷ 78 ∷ []
level_str error = 69 ∷ 82 ∷ 82 ∷ 79 ∷ 82 ∷ []
level_str fatal = 70 ∷ 65 ∷ 84 ∷ 65 ∷ 76 ∷ []

abbrev pub process_str : Process → List ℕ
process_str Process.dev_handler = 68 ∷ 69 ∷ 86 ∷ 95 ∷ 72 ∷ 65 ∷ 78 ∷ 68 ∷ 76 ∷ 69 ∷ 82 ∷ []
process_str Process.executor = 69 ∷ 88 ∷ 69 ∷ 67 ∷ 85 ∷ 84 ∷ 79 ∷ 82 ∷ []
process_str Process.net_handler = 78 ∷ 69 ∷ 84 ∷ 95 ∷ 72 ∷ 65 ∷ 78 ∷ 68 ∷ 76 ∷ 69 ∷ 82 ∷ []
process_str Process.shm = 83 ∷ 72 ∷ 77 ∷ []
process_str Process.test = 84 ∷ 69 ∷ 83 ∷ 84 ∷ []

abbrev pub max_log_len : ℕ
max_log_len = 512

-- The text without its last byte if that is a newline; the last byte of an empty text is out of
-- bounds.
unfoldable pub ends_in_newline : List ℕ → Outcome Bool
ends_in_newline [] = fault
ends_in_newline (c ∷ []) = done (c == 10)
ends_in_newline (c ∷ d ∷ cs) = ends_in_newline (d ∷ cs)

unfoldable pub trim_newline : List ℕ → Outcome (List ℕ)
trim_newline cs = ends_in_newline cs >>= (λ e. done (if e then take (length cs - 1) cs else cs))

-- `"%s @ %s\t(%s) %s"`.
unfoldable pub header : LogLevel → Process → List ℕ → List ℕ
header level process time_str =
    level_str level ++ (32 ∷ 64 ∷ 32 ∷ process_str process ++ (9 ∷ 40 ∷ time_str ++ (41 ∷ 32 ∷ [])))

-- `final_msg`; `formatted` is the whole text of the caller, which `vsnprintf` cuts to its buffer,
-- and `now` what `ctime` returns.
unfoldable pub build_msg : LogLevel → Process → List ℕ → List ℕ → Outcome (List ℕ)
build_msg level process now formatted =
    let msg = take (max_log_len - 100 - 1) formatted in
    if level_index level == 3
    then done msg
    else trim_newline now >>= (λ time_str.
      ends_in_newline msg
      >>= (λ e. done (header level process time_str ++ (if e then msg else msg ++ (10 ∷ [])))))

-- What was written to standard output and to the file, the state of the pipe, and whether it is
-- open for writing.
pub record Sinks (Fd : Type 0) : Type 0 where
  pub stdout : List (List ℕ)
  pub file : List (List ℕ)
  pub fifo : Fd
  pub fifo_up : Bool

-- A message of a level goes to an output that is used and has at most this level.
abbrev pub is_wanted : Bool → LogLevel → LogLevel → Bool
is_wanted used least level = used && leb (level_index least) (level_index level)

unfoldable pub put_stdout : {Fd : Type 0} → Bool → List ℕ → Sinks Fd → Sinks Fd
put_stdout wanted final_msg s = if wanted then record s { stdout = final_msg ∷ s.stdout } else s

unfoldable pub put_file : {Fd : Type 0} → Bool → List ℕ → Sinks Fd → Sinks Fd
put_file wanted final_msg s = if wanted then record s { file = final_msg ∷ s.file } else s

-- `open_call` is `open` on the pipe, `write_call` is `write`, and `raised` tells whether the calls
-- so far raised SIGPIPE, whose handler marks the pipe as down.
module _ {Fd : Type 0} (open_call : Fd → Bool × Fd) (write_call : Fd → List ℕ → WriteResult × Fd)
    (raised : Fd → Bool) (fuel : ℕ) where
  -- Opening the pipe if it is down.
  unfoldable pub open_fifo : Sinks Fd → Sinks Fd
  open_fifo s =
      if s.fifo_up
      then s
      else record s { fifo = (open_call s.fifo).1; fifo_up = (open_call s.fifo).0 }

  -- The output to the network. `writen` takes an error for bytes written, so its result -1 is only
  -- that of a write of no bytes, which is logged; `none` means that its fuel ran out.
  unfoldable pub send_fifo : List ℕ → Sinks Fd → Outcome (Option (Sinks Fd))
  send_fifo final_msg s =
      let s1 = open_fifo s in
      if s1.fifo_up
      then writen write_call fuel s1.fifo final_msg (u16 (length final_msg))
      then (λ r. done (some (record s1 { fifo = r.1; fifo_up = not (raised r.1) })))
      else done (some s1)

  unfoldable pub put_network : Bool → List ℕ → Sinks Fd → Outcome (Option (Sinks Fd))
  put_network wanted final_msg s = if wanted then send_fifo final_msg s else done (some s)

  unfoldable pub emit : Config → LogLevel → List ℕ → Sinks Fd → Outcome (Option (Sinks Fd))
  emit c level final_msg s =
      let s1 = put_stdout (is_wanted c.to_stdout c.stdout_level level) final_msg s in
      let s2 = put_file (is_wanted c.to_file c.file_level level) final_msg s1 in
      put_network (is_wanted c.to_network c.network_level level) final_msg s2

  unfoldable pub log_printf :
      Config
      → Process
      → LogLevel
      → (now formatted : List ℕ) → Sinks Fd
      → Outcome (Option (Sinks Fd))
  log_printf c process level now formatted s =
      let built = build_msg level process now formatted in
      if ltb (level_index level) (level_index c.network_level)
        && (ltb (level_index level) (level_index c.file_level)
            && ltb (level_index level) (level_index c.stdout_level))
      then done (some s)
      else built >>= (λ final_msg. emit c level final_msg s)

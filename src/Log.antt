-- ===== src/Log.antt =====
-- common/log/log.go and log_std.go. `V` is what a caller passes as an argument, `O` what a handler writes.
-- A `Logger` is the part of `*slog.Logger` that the package uses.
pub mod Android
use Prim.Native.String.{String}
use localdns_go.Prelude.{Bool, List, [], if◌then◌else◌}
use localdns_go.Prelude.Ints.{ℤ, pos, negsuc}

-- slog.LevelDebug, LevelInfo, LevelWarn, LevelError
abbrev pub level_debug : ℤ
level_debug = negsuc 3

abbrev pub level_info : ℤ
level_info = pos 0

abbrev pub level_warn : ℤ
level_warn = pos 4

abbrev pub level_error : ℤ
level_error = pos 8

-- slog.Record, without its time and its program counter
pub record LogRecord (V : Type 0) : Type 0 where
  pub level : ℤ
  pub message : String
  pub args : List V

-- slog.Handler: whether it is enabled for a level, and what it writes.
pub record Logger (V O : Type 0) : Type 0 where
  pub enabled : ℤ → Bool
  pub handle : LogRecord V → List O

-- `init` of log_std.go: `new_text_handler` is slog's text handler on the standard error.
abbrev pub std_logger : {V O : Type 0} → (ℤ → Logger V O) → Logger V O
std_logger new_text_handler = new_text_handler level_warn

module _ {V O : Type 0} (logger : Logger V O) where
  -- `logger.Log` hands a record to the handler if that is enabled for the level.
  unfoldable pub log_at : ℤ → String → List V → List O
  log_at level message args =
      if logger.enabled level
      then logger.handle (record { level = level; message = message; args = args })
      else []

  unfoldable pub debug : String → List V → List O
  unfolding log_at
  debug message args = log_at level_debug message args

  unfoldable pub info : String → List V → List O
  unfolding log_at
  info message args = log_at level_info message args

  unfoldable pub warn : String → List V → List O
  unfolding log_at
  warn message args = log_at level_warn message args

  unfoldable pub error : String → List V → List O
  unfolding log_at
  error message args = log_at level_error message args

  -- The functions with a format; `sprintf` is fmt.Sprintf.
  module _ (sprintf : String → List V → String) where
    unfoldable pub debugf : String → List V → List O
    unfolding log_at
    debugf format args = log_at level_debug (sprintf format args) []

    unfoldable pub infof : String → List V → List O
    unfolding log_at
    infof format args = log_at level_info (sprintf format args) []

    unfoldable pub warnf : String → List V → List O
    unfolding log_at
    warnf format args = log_at level_warn (sprintf format args) []

    unfoldable pub errorf : String → List V → List O
    unfolding log_at
    errorf format args = log_at level_error (sprintf format args) []

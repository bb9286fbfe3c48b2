-- ===== src/Main/Logging.antt =====
-- internal/logging: the level of the default logger, and the logger of a request's context.
use policy_manager.Base.{ℕ, Bool, true, false, String, Option, none, some, ◌==◌, if◌then◌else◌}

-- slog.Level
pub data Level : Type 0 where
  debug info warn error : Level

-- The number of a level, from that of Debug.
abbrev pub severity : Level → ℕ
severity debug = 0
severity info = 4
severity warn = 8
severity error = 12

-- The switch of `Init` over `strings.ToLower(level)`: the level, and `unrecognizedLevel`.
unfoldable pub level_of : String → Level × Bool
level_of lower =
    if lower == "debug"
    then (debug, false)
    else if lower == "warn"
    then (warn, false)
    else if lower == "warning"
    then (warn, false)
    else if lower == "error"
    then (error, false)
    else (info, true)

-- `Init`: the level of the handler that it installs, and whether it warns of an unrecognized level.
unfoldable pub init : (String → String) → String → Level × Bool
init to_lower level = level_of (to_lower level)

module _ {G : Type 0} where
  -- `WithLogger` and `FromContext`, on the value that a context holds at the key.
  unfoldable pub with_logger : Option G → G → Option G
  with_logger ctx logger = some logger

  unfoldable pub from_context : G → Option G → G
  from_context default_logger none = default_logger
  from_context default_logger (some logger) = logger

  -- `RequestLogger`: the context that the next handler gets; `with_attribute` is (*slog.Logger).With.
  unfoldable pub request_logger :
      (String → String → G → G) → (default_logger : G) → (request_id : String) → Option G → Option G
  request_logger with_attribute default_logger request_id ctx =
      with_logger ctx (with_attribute "request_id" request_id default_logger)

-- ===== src/Logging/Logger.antt =====
-- logging/logger.go: levels and the logger.
use distributed_event_bus.Prelude.{
  ℕ, ◌+◌, Bool, true, false, ◌&&◌, ◌||◌, List, [], ◌∷◌, ◌++◌, Text, Option, none, some, ltb, leb,
  if◌then◌else◌, text_eq,
}

-- The values of `Level`.
abbrev pub level_error : ℕ
level_error = 0

abbrev pub level_warn : ℕ
level_warn = 1

abbrev pub level_info : ℕ
level_info = 2

abbrev pub level_debug : ℕ
level_debug = 3

-- "error"
abbrev pub error_name : Text
error_name = 101 ∷ 114 ∷ 114 ∷ 111 ∷ 114 ∷ []

-- "warn"
abbrev pub warn_name : Text
warn_name = 119 ∷ 97 ∷ 114 ∷ 110 ∷ []

-- "warning"
abbrev pub warning_name : Text
warning_name = 119 ∷ 97 ∷ 114 ∷ 110 ∷ 105 ∷ 110 ∷ 103 ∷ []

-- "info"
abbrev pub info_name : Text
info_name = 105 ∷ 110 ∷ 102 ∷ 111 ∷ []

-- "debug"
abbrev pub debug_name : Text
debug_name = 100 ∷ 101 ∷ 98 ∷ 117 ∷ 103 ∷ []

-- "ERROR"
abbrev pub error_tag : Text
error_tag = 69 ∷ 82 ∷ 82 ∷ 79 ∷ 82 ∷ []

-- "WARN"
abbrev pub warn_tag : Text
warn_tag = 87 ∷ 65 ∷ 82 ∷ 78 ∷ []

-- "INFO"
abbrev pub info_tag : Text
info_tag = 73 ∷ 78 ∷ 70 ∷ 79 ∷ []

-- "DEBUG"
abbrev pub debug_tag : Text
debug_tag = 68 ∷ 69 ∷ 66 ∷ 85 ∷ 71 ∷ []

-- `strings.ToLower` on a text without bytes above 127.
unfoldable pub lower_byte : ℕ → ℕ
lower_byte b = if leb 65 b && leb b 90 then b + 32 else b

unfoldable pub lower : Text → Text
unfolding lower_byte
lower [] = []
lower (b ∷ bs) = lower_byte b ∷ lower bs

unfoldable pub is_ascii : Text → Bool
is_ascii [] = true
is_ascii (b ∷ bs) = ltb b 128 && is_ascii bs

-- What `strings.ToLower` does with other texts, by the tables of Unicode, is an argument.
module _ (unicode_lower : Text → Text) where
  unfoldable pub to_lower : Text → Text
  unfolding lower is_ascii
  to_lower value = if is_ascii value then lower value else unicode_lower value

  -- `ParseLevel`
  unfoldable pub parse_level : Text → ℕ × Bool
  unfolding to_lower
  parse_level value =
      let name = to_lower value in
      if text_eq name error_name
      then (level_error, true)
      else if text_eq name warn_name || text_eq name warning_name
      then (level_warn, true)
      else if text_eq name info_name
      then (level_info, true)
      else if text_eq name debug_name
      then (level_debug, true)
      else (level_info, false)

-- A `Logger` writes lines, each behind the time that the log package puts there.
pub record Logger : Type 0 where
  pub level : ℕ
  pub lines : List Text

-- `New`
unfoldable pub new : ℕ → Logger
new level = record { level = level; lines = [] }

-- `logf`, on the text that the format and its arguments make. A nil logger is `none`.
unfoldable pub logf : ℕ → Text → Text → Option Logger → Option Logger
logf level name message none = none
logf level name message (some l) =
    if ltb l.level level
    then some l
    else some
        (record l { lines = l.lines ++ (((91 ∷ []) ++ name ++ (93 ∷ 32 ∷ []) ++ message) ∷ []) })

-- The methods that log.
pub data Severity : Type 0 where
  as_error as_warn as_info as_debug : Severity

abbrev pub level_of : Severity → ℕ
level_of as_error = level_error
level_of as_warn = level_warn
level_of as_info = level_info
level_of as_debug = level_debug

-- `Errorf`, `Warnf`, `Infof` and `Debugf`
unfoldable pub log : Severity → Text → Option Logger → Option Logger
unfolding logf
log as_error message l = logf level_error error_tag message l
log as_warn message l = logf level_warn warn_tag message l
log as_info message l = logf level_info info_tag message l
log as_debug message l = logf level_debug debug_tag message l

-- One call after another.
unfoldable pub log_all : List (Severity × Text) → Option Logger → Option Logger
unfolding log
log_all [] l = l
log_all ((severity, message) ∷ calls) l = log_all calls (log severity message l)

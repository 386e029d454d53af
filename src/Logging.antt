-- ===== src/Logging.antt =====
-- plugin.go: which log lines are written. A logger is its level; none is one without an output.
use traefik_plugin_ipgeoloca.Base.{
  ℕ, ◌≤◌, ◌≡◌, ◌++◌, ◌||◌, Option, none, some, ltb, ◌==◌, if◌then◌else◌, length, arith,
}
use traefik_plugin_ipgeoloca.Base.Text.{Str, codes, str_eq, to_lower, trim_space}

abbrev pub level_error : ℕ
level_error = 0

abbrev pub level_warn : ℕ
level_warn = 1

abbrev pub level_info : ℕ
level_info = 2

abbrev pub level_debug : ℕ
level_debug = 3

-- The level that `newLogger` reads; any other text is the default.
unfoldable pub new_logger : Str → ℕ
new_logger text =
    let level = to_lower (trim_space text) in
    if str_eq level (codes "error")
    then level_error
    else if str_eq level (codes "warn") || str_eq level (codes "warning")
    then level_warn
    else if str_eq level (codes "info") || length level == 0
    then level_info
    else if str_eq level (codes "debug")
    then level_debug
    else level_info

-- `printf`: the format that reaches the output.
unfoldable pub printf : Option ℕ → ℕ → Str → Option Str
printf none level format = none
printf (some limit) level format = if ltb limit level then none else some format

unfoldable pub errorf : Option ℕ → Str → Option Str
errorf l format = printf l level_error (codes "ERROR " ++ format)

unfoldable pub warnf : Option ℕ → Str → Option Str
warnf l format = printf l level_warn (codes "WARN " ++ format)

unfoldable pub infof : Option ℕ → Str → Option Str
infof l format = printf l level_info (codes "INFO " ++ format)

unfoldable pub debugf : Option ℕ → Str → Option Str
debugf l format = printf l level_debug (codes "DEBUG " ++ format)

-- A logger with an output writes every error, whatever its level, and each logger that writes a
-- level writes the more serious ones.
pub printf_levels :
    (text format format' : Str) (limit level level' : ℕ)
    → (errorf (some (new_logger text)) format ≡ some (codes "ERROR " ++ format))
      × (level' ≤ level
          → printf (some limit) level format ≡ some format
          → printf (some limit) level' format' ≡ some format')
unfolding printf errorf
printf_levels text format format' limit level level' =
    (ground arith, λ below shown. ground (arith, below, shown))

-- ===== src/NetLog.antt =====
-- ocean_net/src/log.cpp, log.h: the loggers of the network library.
-- An appender is shared, so it is a number in a store. What the format items write is not modelled,
-- since `format` throws it away; YAML is not modelled.
pub mod Pattern
pub mod Hangs
pub mod Appenders
mod Tests
use cpp_server.Prelude.{
  ℕ, zero, suc, ◌+◌, Bool, true, false, Option, none, some, List, [], ◌∷◌, ◌++◌, leb, ◌==◌,
  if◌then◌else◌,
}
use cpp_server.CString.{codes}
use cpp_server.Http.State.{Run, ok, undefined, ◌>>=◌}

pub data Level : Type 0 where
  unknown debug info warn error fatal : Level

abbrev pub rank : Level → ℕ
rank unknown = 0
rank debug = 1
rank info = 2
rank warn = 3
rank error = 4
rank fatal = 5

-- `LogLevel::ToString`
unfoldable pub level_to_string : Level → List ℕ
level_to_string unknown = codes "UNKNOWN"
level_to_string debug = codes "DEBUG"
level_to_string info = codes "INFO"
level_to_string warn = codes "WARN"
level_to_string error = codes "ERROR"
level_to_string fatal = codes "FATAL"

-- A formatter, as far as `format` looks at it. `is_error` is never set to true.
pub record Formatter : Type 0 where
  pub pattern : List ℕ
  pub is_error : Bool

abbrev pub new_formatter : List ℕ → Formatter
new_formatter pattern = record { pattern = pattern; is_error = false }

-- Where an appender writes; a file has its name.
pub data Target : Type 0 where
  to_stdout : Target
  to_file : List ℕ → Target

pub record Appender : Type 0 where
  pub target : Target
  pub level : Level
  pub formatter : Option Formatter
  pub has_formatter : Bool

abbrev pub new_appender : Target → Appender
new_appender t = record { target = t; level = debug; formatter = none; has_formatter = false }

abbrev pub Store : Type 0
Store = ℕ → Appender

abbrev pub put : Store → ℕ → Appender → Store
put st i a j = if j == i then a else st j

-- `m_level` has no initial value, so it is an argument of the constructor.
pub record Logger : Type 0 where
  pub name : List ℕ
  pub level : Level
  pub appenders : List ℕ
  pub formatter : Option Formatter

-- The constructor does not store its argument.
unfoldable pub new_logger : List ℕ → Level → Logger
new_logger given garbage = record { name = []; level = garbage; appenders = []; formatter = none }

-- A shared pointer that is set where it is null.
abbrev pub or_else : Option Formatter → Option Formatter → Option Formatter
or_else none f = f
or_else (some g) f = some g

unfoldable pub add_appender : Logger → Store → ℕ → Logger × Store
add_appender l st i = (
  record l { appenders = l.appenders ++ i ∷ [] },
  put st i (record (st i) { formatter = or_else (st i).formatter l.formatter }),
)

abbrev pub erase_first : ℕ → List ℕ → List ℕ
erase_first i [] = []
erase_first i (j ∷ js) = let rest = erase_first i js in if j == i then js else j ∷ rest

unfoldable pub del_appender : Logger → ℕ → Logger
del_appender l i = record l { appenders = erase_first i l.appenders }

abbrev pub with_formatter : Option Formatter → Appender → Appender
with_formatter f a = if a.has_formatter then a else record a { formatter = f }

-- The loop of `setLogFormatter`.
unfoldable pub give_formatter : Option Formatter → List ℕ → Store → Store
give_formatter f [] st = st
give_formatter f (i ∷ is) st = give_formatter f is (put st i (with_formatter f (st i)))

unfoldable pub set_log_formatter : Logger → Store → Option Formatter → Logger × Store
set_log_formatter l st f = (record l { formatter = f }, give_formatter f l.appenders st)

-- `setLogFormatter` of a pattern.
unfoldable pub set_pattern : Logger → Store → List ℕ → Logger × Store
set_pattern l st pattern =
    let f = new_formatter pattern in if f.is_error then (l, st) else set_log_formatter l st (some f)

-- `LogAppender::setLogFormatter`
unfoldable pub set_own_formatter : Store → ℕ → Option Formatter → Store
set_own_formatter st i f = put st i (record (st i) { formatter = f })

-- `LogFormatter::format` returns the empty string whatever its items have written.
unfoldable pub format : Formatter → Level → List ℕ
format f level = []

-- `log` of an appender: what it writes, and where. A null formatter is used all the same.
unfoldable pub append_log : Appender → Level → Run (List (Target × List ℕ))
append_log a level =
    if leb (rank a.level) (rank level)
    then elim a.formatter [ none ↦ undefined | some f ↦ ok ((a.target, format f level) ∷ []) ]
    else ok []

abbrev pub log_all : Store → Level → List ℕ → Run (List (Target × List ℕ))
log_all st level [] = ok []
log_all st level (i ∷ is) =
    append_log (st i) level >>= λ out. log_all st level is >>= λ more. ok (out ++ more)

-- `Logger::log`; debug, info, warn, error and fatal call it with their level.
unfoldable pub log : Logger → Store → Level → Run (List (Target × List ℕ))
log l st level = if leb (rank l.level) (rank level) then log_all st level l.appenders else ok []

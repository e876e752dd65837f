-- ===== src/NetLog/Tests.antt =====
-- A logger with two appenders.
use cpp_server.Prelude.{zero, suc, ◌≡◌, ◌++◌, refl, some, none, [], ◌∷◌, arith}
use cpp_server.CString.{codes, is_space}
use cpp_server.Http.State.{ok, undefined, out_of_fuel}
use cpp_server.NetLog.{
  debug, warn, error, Formatter, new_formatter, to_stdout, to_file, new_appender, Store, Logger,
  set_log_formatter, log, new_logger, add_appender, append_log,
}
use cpp_server.NetLog.Pattern.{init, init_from, flush, scan_format, scan_round, end_format}
use cpp_server.NetLog.Hangs.{init_hangs, init_plain}
use cpp_server.NetLog.Appenders.{NoneOwn, All, log-set_log_formatter}

abbrev own : Formatter
own = new_formatter (codes "%p")

abbrev other : Formatter
other = new_formatter (codes "%m")

-- The first has a formatter and takes errors only.
abbrev store : Store
store zero = record (new_appender (to_file (codes "a.log"))) { formatter = some own; level = error }
store (suc n) = new_appender to_stdout

abbrev logger : Logger
logger = record { name = []; level = debug; appenders = 0 ∷ 1 ∷ []; formatter = none }

store-NoneOwn : NoneOwn store
store-NoneOwn zero = refl
store-NoneOwn (suc n) = refl

log-set_log_formatter_example :
    All
      (λ i. ((set_log_formatter logger store (some other)).1 i).formatter ≡ some other)
      logger.appenders
    × (log
          (set_log_formatter logger store (some other)).0
          (set_log_formatter logger store (some other)).1
          warn
        ≡ ok ((to_stdout, []) ∷ []))
log-set_log_formatter_example =
    log-set_log_formatter logger store other warn store-NoneOwn (omega arith)

-- Without a formatter the first call is undefined.
log_null :
    log
      (add_appender (new_logger [] debug) store 1).0
      (add_appender (new_logger [] debug) store 1).1
      warn
    ≡ undefined
unfolding log add_appender new_logger append_log
log_null = refl

init_hangs_example : init 1000 (codes "[" ++ b'%' ∷ b'd' ∷ codes "] %m%n") ≡ out_of_fuel
init_hangs_example =
    init_hangs 1000 (codes "[") b'd' (codes "] %m%n") (omega arith, tt)
      (record {
        no_space = unfold is_space in refl;
        no_brace = omega arith;
        no_percent = omega arith;
      })

init_of_text : init 6 (codes "ready") ≡ ok (flush (codes "ready") [])
init_of_text =
    init_plain 6 (codes "ready")
      (omega arith, (omega arith, (omega arith, (omega arith, (omega arith, tt))))) (omega arith)

-- A '%' that is doubled is taken twice: once as itself, and once in front of what follows.
init_doubled :
    init 9 (codes "a%%")
    ≡ ok (
        record { str = codes "a%"; fmt = []; type = 0 }
        ∷ record { str = []; fmt = []; type = 1 }
        ∷ record { str = codes "a%"; fmt = []; type = 0 }
        ∷ [])
unfolding init init_from scan_format scan_round end_format
init_doubled = refl

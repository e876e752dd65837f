-- ===== src/Config.antt =====
-- ocean_http/config.cpp and config.h: the options of the command line.
-- What `getopt` returns is an argument: each option's letter with `optarg`, in order.
pub mod Last
mod Tests
use cpp_server.Prelude.{ℕ, ◌+◌, ◌-◌, ◌%◌, ◌^◌, List, [], ◌∷◌, ℤ, pos, negsuc, ◌==◌, if◌then◌else◌}
use cpp_server.CString.{atol}
use cpp_server.Http.Response.{to_int}

-- `atoi`: the 32 bits at the end of what `strtol` gives.
abbrev pub to_int32 : ℤ → ℤ
to_int32 (pos n) = to_int n
to_int32 (negsuc n) = to_int (2 ^ 32 - (n + 1) % 2 ^ 32)

unfoldable pub atoi : List ℕ → ℤ
atoi s = to_int32 (atol s)

pub record Config : Type 0 where
  pub port : ℤ
  pub log_write : ℤ
  pub trig_mode : ℤ
  pub listen_trig_mode : ℤ
  pub conn_trig_mode : ℤ
  pub opt_linger : ℤ
  pub sql_num : ℤ
  pub thread_num : ℤ
  pub close_log : ℤ
  pub actor_model : ℤ

abbrev pub new_config : Config
new_config = record {
  port = pos 9006;
  log_write = pos 0;
  trig_mode = pos 0;
  listen_trig_mode = pos 0;
  conn_trig_mode = pos 0;
  opt_linger = pos 0;
  sql_num = pos 8;
  thread_num = pos 8;
  close_log = pos 0;
  actor_model = pos 0;
}

-- The `switch`; 'a' falls through to `default`, which does nothing.
unfoldable pub set_option : ℕ → List ℕ → Config → Config
set_option opt optarg c =
    if opt == b'p'
    then record c { port = atoi optarg }
    else if opt == b'l'
    then record c { log_write = atoi optarg }
    else if opt == b'm'
    then record c { trig_mode = atoi optarg }
    else if opt == b'o'
    then record c { opt_linger = atoi optarg }
    else if opt == b's'
    then record c { sql_num = atoi optarg }
    else if opt == b't'
    then record c { thread_num = atoi optarg }
    else if opt == b'c'
    then record c { close_log = atoi optarg }
    else if opt == b'a'
    then record c { actor_model = atoi optarg }
    else c

unfoldable pub parse_arg : List (ℕ × List ℕ) → Config → Config
parse_arg [] c = c
parse_arg ((opt, optarg) ∷ opts) c = parse_arg opts (set_option opt optarg c)

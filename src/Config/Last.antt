-- ===== src/Config/Last.antt =====
-- Each setting is that of the last option with its letter.
use cpp_server.Prelude.{ℕ, ◌≡◌, refl, ap, ◌∙◌, List, [], ◌∷◌, ℤ, pos, arith, ◌==◌, if◌then◌else◌}
use cpp_server.Config.{Config, new_config, set_option, parse_arg, atoi}

-- What the last option with the letter says; `d` where there is none.
abbrev pub last_value : ℕ → ℤ → List (ℕ × List ℕ) → ℤ
last_value letter d [] = d
last_value letter d ((opt, optarg) ∷ opts) =
    last_value letter (if opt == letter then atoi optarg else d) opts

-- `set_option` sets the field for this letter, and for no other.
abbrev pub Letter : (Config → ℤ) → ℕ → Type 0
Letter field letter =
    (opt : ℕ) (optarg : List ℕ) (c : Config)
    → field (set_option opt optarg c) ≡ (if opt == letter then atoi optarg else field c)

parse_arg-Letter :
    (field : Config → ℤ) (letter : ℕ) (k : Letter field letter) (opts : List (ℕ × List ℕ))
    (c : Config)
    → field (parse_arg opts c) ≡ last_value letter (field c) opts
unfolding parse_arg
parse_arg-Letter field letter k [] c = refl
parse_arg-Letter field letter k ((opt, optarg) ∷ opts) c =
    parse_arg-Letter field letter k opts (set_option opt optarg c)
    ∙ ap (λ d. last_value letter d opts) (k opt optarg c)

port-Letter : Letter (λ c. c.port) b'p'
unfolding set_option
port-Letter opt optarg c = ground arith

log_write-Letter : Letter (λ c. c.log_write) b'l'
unfolding set_option
log_write-Letter opt optarg c = ground arith

trig_mode-Letter : Letter (λ c. c.trig_mode) b'm'
unfolding set_option
trig_mode-Letter opt optarg c = ground arith

opt_linger-Letter : Letter (λ c. c.opt_linger) b'o'
unfolding set_option
opt_linger-Letter opt optarg c = ground arith

sql_num-Letter : Letter (λ c. c.sql_num) b's'
unfolding set_option
sql_num-Letter opt optarg c = ground arith

thread_num-Letter : Letter (λ c. c.thread_num) b't'
unfolding set_option
thread_num-Letter opt optarg c = ground arith

close_log-Letter : Letter (λ c. c.close_log) b'c'
unfolding set_option
close_log-Letter opt optarg c = ground arith

actor_model-Letter : Letter (λ c. c.actor_model) b'a'
unfolding set_option
actor_model-Letter opt optarg c = ground arith

parse_arg_leaves :
    (opts : List (ℕ × List ℕ)) (c : Config)
    → ((parse_arg opts c).listen_trig_mode ≡ c.listen_trig_mode)
      × ((parse_arg opts c).conn_trig_mode ≡ c.conn_trig_mode)
unfolding parse_arg set_option
parse_arg_leaves [] c = (refl, refl)
parse_arg_leaves ((opt, optarg) ∷ opts) c =
    let (l, r) = parse_arg_leaves opts (set_option opt optarg c) in
    (l ∙ ground arith, r ∙ ground arith)

-- For every sequence of options, letters that mean nothing included, each setting of the result is
-- what the last option with its letter says, or its default where there is none; the trigger modes of
-- the listener and of the connections have no letter and keep their default.
pub parse_arg-last_value :
    (opts : List (ℕ × List ℕ))
    → let c = parse_arg opts new_config in
      (c.port ≡ last_value b'p' (pos 9006) opts)
      × (c.log_write ≡ last_value b'l' (pos 0) opts)
      × (c.trig_mode ≡ last_value b'm' (pos 0) opts)
      × (c.opt_linger ≡ last_value b'o' (pos 0) opts)
      × (c.sql_num ≡ last_value b's' (pos 8) opts)
      × (c.thread_num ≡ last_value b't' (pos 8) opts)
      × (c.close_log ≡ last_value b'c' (pos 0) opts)
      × (c.actor_model ≡ last_value b'a' (pos 0) opts)
      × (c.listen_trig_mode ≡ pos 0)
      × (c.conn_trig_mode ≡ pos 0)
parse_arg-last_value opts = (
  parse_arg-Letter (λ c. c.port) _ port-Letter opts new_config,
  parse_arg-Letter (λ c. c.log_write) _ log_write-Letter opts new_config,
  parse_arg-Letter (λ c. c.trig_mode) _ trig_mode-Letter opts new_config,
  parse_arg-Letter (λ c. c.opt_linger) _ opt_linger-Letter opts new_config,
  parse_arg-Letter (λ c. c.sql_num) _ sql_num-Letter opts new_config,
  parse_arg-Letter (λ c. c.thread_num) _ thread_num-Letter opts new_config,
  parse_arg-Letter (λ c. c.close_log) _ close_log-Letter opts new_config,
  parse_arg-Letter (λ c. c.actor_model) _ actor_model-Letter opts new_config,
  (parse_arg_leaves opts new_config).0,
  (parse_arg_leaves opts new_config).1,
)

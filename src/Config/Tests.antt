-- ===== src/Config/Tests.antt =====
-- The options -p 80 -t 4 -x -p 8080.
use cpp_server.Prelude.{ℕ, ◌≡◌, refl, List, [], ◌∷◌, pos}
use cpp_server.CString.{codes, atol}
use cpp_server.Http.Response.{to_int}
use cpp_server.Config.{new_config, parse_arg, atoi}
use cpp_server.Config.Last.{last_value, parse_arg-last_value}

abbrev options : List (ℕ × List ℕ)
options = (b'p', codes "80") ∷ (b't', codes "4") ∷ (b'?', []) ∷ (b'p', codes "8080") ∷ []

last_port : last_value b'p' (pos 9006) options ≡ pos 8080
unfolding atoi atol to_int
last_port = refl

parse_arg-last_value_example :
    let c = parse_arg options new_config in
    (c.port ≡ last_value b'p' (pos 9006) options)
    × (c.log_write ≡ last_value b'l' (pos 0) options)
    × (c.trig_mode ≡ last_value b'm' (pos 0) options)
    × (c.opt_linger ≡ last_value b'o' (pos 0) options)
    × (c.sql_num ≡ last_value b's' (pos 8) options)
    × (c.thread_num ≡ last_value b't' (pos 8) options)
    × (c.close_log ≡ last_value b'c' (pos 0) options)
    × (c.actor_model ≡ last_value b'a' (pos 0) options)
    × (c.listen_trig_mode ≡ pos 0)
    × (c.conn_trig_mode ≡ pos 0)
parse_arg-last_value_example = parse_arg-last_value options

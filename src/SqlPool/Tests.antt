-- ===== src/SqlPool/Tests.antt =====
-- A pool of two connections and three threads.
use cpp_server.Prelude.{
  List, get_elem?, ℕ, ◌≡◌, ◌≢◌, ◌≤◌, ◌+◌, ◌+ℤ◌, refl, some, [], ◌∷◌, arith, pos, replicate,
}
use cpp_server.SqlPool.{
  SqlPool, new_pool, idle, checked, holding, System, calm, init, run, step, next_move,
  take_connection,
}
use cpp_server.SqlPool.Inv.{IsValid, copies}
use cpp_server.SqlPool.Init.{names, init-IsValid}
use cpp_server.SqlPool.Threads.{Stays, run-Stays, run_exclusive}
use cpp_server.SqlPool.Progress.{checked-holding}

abbrev pool : SqlPool
pool = record {
  max_conn = pos 2;
  cur_conn = pos 0;
  free_conn = pos 2;
  conn_list = 5 ∷ 6 ∷ [];
  reserve = 2;
}

abbrev system : System
system = record { pool = pool; threads = idle ∷ idle ∷ idle ∷ [] }

system-IsValid : IsValid system
system-IsValid = record { listed = refl; counted_free = refl; counted_used = refl }

init-IsValid_example :
    (p : SqlPool) × (init (λ i. some (i + 5)) 2 new_pool ≡ some p)
    × (p.conn_list ≡ names (λ i. i + 5) 0 2)
    × IsValid (record { pool = p; threads = replicate 3 idle })
init-IsValid_example = init-IsValid (λ i. some (i + 5)) (λ i. i + 5) 2 3 (λ j. refl)

run-Stays_example :
    (s : System) × (run system (calm (0 ∷ 1 ∷ 1 ∷ 2 ∷ 0 ∷ 1 ∷ 0 ∷ [])) ≡ some s) × Stays system s
run-Stays_example = run-Stays system (0 ∷ 1 ∷ 1 ∷ 2 ∷ 0 ∷ 1 ∷ 0 ∷ []) system-IsValid

once : (c : ℕ) → copies c system ≤ 1
once c = ground arith

-- The threads 0 and 1 have a connection each.
abbrev later : System
later = record {
  pool = record {
    max_conn = pos 2;
    cur_conn = pos 2;
    free_conn = pos 0;
    conn_list = [];
    reserve = 0;
  };
  threads = holding (some 6) ∷ holding (some 5) ∷ idle ∷ [];
}

runs : run system (calm (0 ∷ 1 ∷ 1 ∷ 0 ∷ 1 ∷ 0 ∷ [])) ≡ some later
unfolding run step next_move take_connection ◌+ℤ◌
runs = refl

run_exclusive_example : ◌≢◌ {A = ℕ} 6 5
run_exclusive_example =
    run_exclusive system later (calm (0 ∷ 1 ∷ 1 ∷ 0 ∷ 1 ∷ 0 ∷ [])) 0 1 6 5 once runs (omega arith)
      refl refl

-- Thread 0 has the only connection; thread 1 waits for it.
abbrev starved : System
starved = record {
  pool = record {
    max_conn = pos 1;
    cur_conn = pos 1;
    free_conn = pos 0;
    conn_list = [];
    reserve = 0;
  };
  threads = holding (some 5) ∷ checked ∷ [];
}

checked-holding_example :
    (steps : List ℕ) × (c : ℕ) × (t : System) × (run starved (calm steps) ≡ some t)
    × (get_elem? t.threads 1 ≡ some (holding (some c)))
checked-holding_example =
    checked-holding starved 1 (record { listed = refl; counted_free = refl; counted_used = refl })
      refl (omega arith)

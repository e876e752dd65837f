-- ===== src/ThreadPool/Tests.antt =====
-- A pool for two requests, and two workers.
use cpp_server.Prelude.{refl, some, true, false, [], ◌∷◌, pos, arith, List}
use cpp_server.ThreadPool.{ThreadPool, to_size}
use cpp_server.ThreadPool.Workers.{Shop, waiting, Turn, offers, posts, works, run}
use cpp_server.ThreadPool.Queue.{Delivers, run-Delivers}

abbrev pool : ThreadPool
pool = record {
  thread_number = pos 8;
  max_requests = pos 2;
  actor_model = pos 0;
  conn_pool = some 1;
  workqueue = 4 ∷ [];
  queuestat = 1;
}

abbrev shop : Shop
shop = record {
  pool = pool;
  posting = 0;
  workers = waiting ∷ waiting ∷ [];
  accepted = 4 ∷ [];
  served = [];
}

shop-Delivers : Delivers shop
unfolding to_size
shop-Delivers = record { in_order = refl; bounded = omega arith; remembered = omega arith }

abbrev turns : List Turn
turns =
    offers 5
    ∷ works 0 false
    ∷ works 1 true
    ∷ works 1 false
    ∷ posts
    ∷ works 0 false
    ∷ works 1 true
    ∷ works 1 false
    ∷ []

run-Delivers_example : Delivers (run shop turns)
run-Delivers_example = run-Delivers shop turns shop-Delivers

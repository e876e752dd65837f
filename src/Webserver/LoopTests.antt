-- ===== src/Webserver/LoopTests.antt =====
-- A server that takes a connection and loses it again.
use cpp_server.Prelude.{ℕ, ◌≡◌, Bool, true, false, none, some, List, [], ◌∷◌, arith}
use cpp_server.Http.Process.{Recv}
use cpp_server.Timers.Chain.{Entry}
use cpp_server.Webserver.{Server, set_timer}
use cpp_server.Webserver.Loop.{Flags, Event}
use cpp_server.Webserver.Tests.{server, entry, server-IsValid}
use cpp_server.Webserver.Accept.{entry as new_entry}
use cpp_server.Webserver.Valid.{IsValid}
use cpp_server.Webserver.Reuse.{Within, timer_handler-set_timer}
use cpp_server.Webserver.Loop.{timer_handler}
use cpp_server.Http.State.{ok, Effect, closes}
use cpp_server.Prelude.{pos, ◌++◌}
use cpp_server.Webserver.Listen.{recv_signals}
use cpp_server.Webserver.Loop.{dealwithsignal}
use cpp_server.Webserver.Wired.{delivered, dealwithsignal-delivered}
use cpp_server.Webserver.Rounds.{Round}

-- No connection yet.
abbrev started : Server
started = record server {
  timers = record { heap = λ i. none; head = none; tail = none };
  fresh = 0;
}

abbrev running : Flags
running = record { timeout = false; stop_server = false }

abbrev event : ℕ → Bool → List ℕ → Event
event fd hangs_up fds = record {
  work = λ w. w;
  fd = fd;
  hangs_up = hangs_up;
  readable = false;
  writable = false;
  fds = fds;
  signals = Recv.closed;
  recvs = [];
  seen = [];
}

-- The listener is descriptor 3, the pipe 4.
abbrev rounds : List Round
rounds = some (100, event 3 false (9 ∷ []) ∷ []) ∷ some (105, event 9 true [] ∷ []) ∷ []

-- The timer of the connection.
abbrev taken : Entry
taken = record { id = 0; expire = 115; user_data = 9 }

timer_handler-set_timer_example :
    (s1 s2 : Server) × (left : List Entry) × (set_timer 3 10 server 8 ≡ ok s1)
    × (timer_handler 3 20 s1 ≡ ok s2)
    × IsValid s2 left
    × Within (new_entry 10 server 8) left
    × (before after : List Effect) × (s2.shared.effects
        ≡ s1.shared.effects ++ (before ++ closes (pos 8) ∷ after))
timer_handler-set_timer_example =
    timer_handler-set_timer 3 10 20 server [] entry [] server-IsValid (omega arith) (omega arith)
      (omega arith) (omega arith)

dealwithsignal-delivered_example :
    dealwithsignal (recv_signals (delivered (14 ∷ 15 ∷ 14 ∷ []) [])) running
    ≡ (true, record { timeout = true; stop_server = true })
dealwithsignal-delivered_example =
    dealwithsignal-delivered 14 (15 ∷ 14 ∷ []) running (omega arith) (omega arith)

-- ===== src/Log/Tests.antt =====
-- A log with two places in its queue, lines of 100 bytes and files of three lines.
use mathlib.Core.List.Perm
use cpp_server.Prelude.{
  ℕ, ◌≡◌, ◌≤◌, refl, some, true, false, Bool, List, [], ◌∷◌, ◌++◌, ℤ, pos, negsuc, arith, replicate,
  length, take,
}
use cpp_server.CString.{codes, find_last_char, until_nul}
use cpp_server.CString.Decimal.{print_nat, print_padded}
use cpp_server.CString.Buffers.{NoNul}
use cpp_server.BlockQueue.{BlockQueue}
use cpp_server.BlockQueue.Refine.{Holds}
use cpp_server.Http.State.{ok}
use cpp_server.Log.{
  Log, Time, new_log, init, rotate, deliver, line_head, level_name, day_file, date_prefix,
}
use cpp_server.Log.Format.{length-line_head, IsClock, Fits}
use cpp_server.Log.Rotate.{Named, SameDate, Rotated, rotate-Named}
use cpp_server.Log.Deliver.{deliver_lost}
use cpp_server.Log.Thread.{Event, Call, System, resting, calls, goes, drains, run}
use cpp_server.Log.Writes.{Ready}
use cpp_server.Log.Order.{AllFit, Logged, run-Logged}
use cpp_server.Log.Start.{Path2, first_file, init-Ready}

abbrev noon : Time
noon = record { year = 2023; mon = 11; mday = 26; hour = 12; min = 5; sec = 9; usec = 42 }

abbrev next_noon : Time
next_noon = record noon { mday = 27 }

noon-IsClock : IsClock noon
noon-IsClock = record {
  year_in = omega arith;
  mon_in = omega arith;
  mday_in = omega arith;
  hour_in = omega arith;
  min_in = omega arith;
  sec_in = omega arith;
  usec_in = omega arith;
}

abbrev all_open : List ℕ → Bool
all_open name = true

abbrev queue : BlockQueue (List ℕ)
queue = record { array = [] ∷ [] ∷ []; size = 0; max_size = 2; front = negsuc 0; back = negsuc 0 }

queue-Holds : Holds queue []
queue-Holds = record {
  valid = record {
    room = omega arith;
    storage = omega arith;
    size_in = omega arith;
    front_in = tt;
    back_in = tt;
    used = λ lt. absurd (omega arith);
    linked = refl;
  };
  counted = refl;
  window = tt;
}

abbrev log : Log
log = record new_log {
  split_lines = 3;
  log_buf_size = 100;
  buf = replicate 100 0;
  today = 26;
  fp = some (codes "2023_11_26_");
  log_queue = some queue;
  is_async = true;
}

log-Ready : Ready log 100 2 []
log-Ready = record {
  open_file = (codes "2023_11_26_", refl);
  splits = omega arith;
  buffer = refl;
  sized = refl;
  queues = record {
    async = refl;
    queue = queue;
    queue_at = refl;
    holds = queue-Holds;
    places = refl;
  };
}

abbrev call : ℤ → List ℕ → Call
call level text = record { time = noon; level = level; text = text }

-- Three calls, with steps of the other thread in between.
abbrev events : List Event
events =
    calls 0 (call (pos 1) (codes "one"))
    ∷ goes 0
    ∷ drains
    ∷ goes 0
    ∷ goes 0
    ∷ calls 0 (call (pos 3) (codes "two"))
    ∷ goes 0
    ∷ goes 0
    ∷ drains
    ∷ goes 0
    ∷ calls 0 (call (pos 9) (codes "three"))
    ∷ goes 0
    ∷ []

abbrev system : System
system = record { log = log; callers = resting ∷ []; begun = [] }

short_Fits : (level : ℤ) (text : List ℕ) → NoNul text → length text ≤ 50 → Fits 100 noon level text
short_Fits level text clean short = record {
  clock = noon-IsClock;
  no_nul = clean;
  room = omega (arith, short, length-line_head noon level noon-IsClock);
}

events-AllFit : AllFit 100 events
events-AllFit = (
  short_Fits (pos 1) (codes "one") (ground arith) (omega arith),
  (
    short_Fits (pos 3) (codes "two") (ground arith) (omega arith),
    (short_Fits (pos 9) (codes "three") (ground arith) (omega arith), tt),
  ),
)

system-Logged : Logged 100 2 0 [] system
system-Logged = record {
  stage = resting;
  waiting = [];
  finished = [];
  one_caller = refl;
  all_calls = refl;
  at = record {
    ready = log-Ready;
    none_lost = Perm.rfl;
    in_order = λ le. refl;
    longest = omega arith;
    knows = tt;
  };
}

run-Logged_example : (y : System) × (run all_open events system ≡ ok y) × Logged 100 2 0 [] y
run-Logged_example =
    run-Logged all_open events system 100 2 0 [] (λ name. refl) events-AllFit system-Logged

log-Named : Named log noon
unfolding day_file date_prefix print_nat print_padded until_nul
log-Named = record { open_file = refl; day = refl; splits = omega arith }

next_day : noon.mday ≡ next_noon.mday → SameDate noon next_noon
next_day e = absurd (omega arith)

rotate-Named_example :
    (s' : Log) × (rotate all_open next_noon log ≡ ok s')
    × Named s' next_noon
    × (s'.count ≡ 0)
    × Rotated log s'
rotate-Named_example = rotate-Named all_open log noon next_noon (λ name. refl) log-Named next_day

abbrev full_queue : BlockQueue (List ℕ)
full_queue = record {
  array = codes "a" ∷ codes "b" ∷ [];
  size = 2;
  max_size = 2;
  front = negsuc 0;
  back = pos 1;
}

full_queue-Holds : Holds full_queue (codes "a" ∷ codes "b" ∷ [])
full_queue-Holds = record {
  valid = record {
    room = omega arith;
    storage = omega arith;
    size_in = omega arith;
    front_in = tt;
    back_in = omega arith;
    used = λ lt. omega arith;
    linked = refl;
  };
  counted = refl;
  window = (refl, (refl, tt));
}

abbrev full_log : Log
full_log = record log { log_queue = some full_queue }

deliver_lost_example : deliver (λ s. ok full_log) (codes "c") log ≡ ok full_log
deliver_lost_example =
    deliver_lost log full_log (λ s. ok full_log) (codes "c") 2 [] (codes "a" ∷ codes "b" ∷ [])
      log-Ready.queues (omega arith) refl
      (record {
        async = refl;
        queue = full_queue;
        queue_at = refl;
        holds = full_queue-Holds;
        places = refl;
      })
      (omega arith)

length-head : length (line_head noon (pos 1)) ≡ 35
unfolding line_head print_nat print_padded level_name
length-head = refl

place-Path2 : Path2 (codes ".") (codes "serverlog")
unfolding find_last_char
place-Path2 = record {
  dir_clean = ground arith;
  base_clean = ground arith;
  no_slash = refl;
  dir_room = omega arith;
  base_room = omega arith;
}

init-Ready_example :
    (s : Log) × (init all_open noon
        (codes "." ++ b'/' ∷ codes "serverlog")
        (pos 0)
        2000
        800000
        (pos 800)
        new_log
      ≡ ok (false, s))
    × Ready s 2000 800 []
    × (s.fp ≡ some (first_file (codes ".") (codes "serverlog") noon))
    × (day_file s next_noon
        ≡ take 254
            ((codes "." ++ b'/' ∷ []) ++ (take 15 (date_prefix next_noon) ++ codes "serverlog")))
init-Ready_example =
    init-Ready all_open noon next_noon (codes ".") (codes "serverlog") (pos 0) 2000 800000 799
      (λ name. refl) place-Path2 (omega arith)

-- ===== src/Log/Thread.antt =====
-- `async_write_log`: the thread that empties the queue, and the threads that call
-- `write_log`, whose locked parts, test and `push` are steps of their own.
use cpp_server.Prelude.{
  none, some, List, [], ◌∷◌, ◌++◌, ℕ, Bool, true, false, ℤ, get_elem?, set, if◌then◌else◌,
}
use cpp_server.BlockQueue.{is_full, pop, Got, got, refused, blocked, fault}
use cpp_server.Http.State.{Run, ok, undefined, ◌>>=◌}
use cpp_server.Log.{Log, Time, fputs, push_line, rotate, format_line}

abbrev pub popped : Log → Got (List ℕ) → Run Log
popped s (got line q) = ok (record s { log_queue = some q; single_log = some line })
popped s (refused q) = ok (record s { log_queue = some q })
popped s (blocked q) = ok (record s { log_queue = some q })
popped s fault = undefined

-- One step of `async_write_log`: the thread writes what it has taken, or takes the next string; it
-- waits while the queue is empty.
unfoldable pub async_step : Log → Run Log
async_step s = elim s.single_log [
  | some line ↦ fputs line (record s { single_log = none })
  | none ↦ elim s.log_queue [ none ↦ undefined | some q ↦ popped s (pop [] q) ]
]

-- Where a thread stands that calls `write_log`: in no call; behind the first locked part; behind the
-- second one, with `log_str`; or behind the test of `full()`.
pub data Stage : Type 0 where
  resting : Stage
  opened : Time → ℤ → List ℕ → Stage
  printed has_room no_room : List ℕ → Stage

-- `m_is_async && !m_log_queue->full()`
unfoldable pub test_room : List ℕ → Log → Run Stage
test_room line s = elim s.is_async [
  | false ↦ ok (no_room line)
  | true ↦ elim s.log_queue [
    | none ↦ undefined
    | some q ↦ ok (if is_full q then no_room line else has_room line)
  ]
]

-- The next step of a thread in a call of `write_log`: a locked part, the test, or `push`.
unfoldable pub advance : Stage → Log → Run (Stage × Log)
advance resting s = ok (resting, s)
advance (opened t level text) s = do p ← format_line t level text s; ok (printed p.0, p.1)
advance (printed line) s = do st ← test_room line s; ok (st, s)
advance (has_room line) s = do s' ← push_line line s; ok (resting, s')
advance (no_room line) s = do s' ← fputs line s; ok (resting, s')

-- A call of `write_log`: its time, its level and its text.
pub record Call : Type 0 where
  pub time : Time
  pub level : ℤ
  pub text : List ℕ

-- The log, the threads that call `write_log`, and the calls that they have begun.
pub record System : Type 0 where
  pub log : Log
  pub callers : List Stage
  pub begun : List Call

-- A thread that is in no call begins one, up to the end of the first locked part; a thread that is in
-- a call takes its next step; or the thread that empties the queue does.
pub data Event : Type 0 where
  calls : ℕ → Call → Event
  goes : ℕ → Event
  drains : Event

abbrev begin : (List ℕ → Bool) → ℕ → Call → Stage → System → Run System
begin opens i k resting y = do
  s ← rotate opens k.time y.log
  ok (record {
    log = s;
    callers = set y.callers i (opened k.time k.level k.text);
    begun = y.begun ++ k ∷ [];
  })
begin opens i k _ y = ok y

unfoldable pub step : (List ℕ → Bool) → Event → System → Run System
step opens drains y = do s ← async_step y.log; ok (record y { log = s })
step opens (calls i k) y = elim (get_elem? y.callers i) [
  | none ↦ ok y
  | some st ↦ begin opens i k st y
]
step opens (goes i) y = elim (get_elem? y.callers i) [
  | none ↦ ok y
  | some st ↦ do p ← advance st y.log; ok (record y { log = p.1; callers = set y.callers i p.0 })
]

unfoldable pub run : (List ℕ → Bool) → List Event → System → Run System
run opens [] y = ok y
run opens (e ∷ es) y = step opens e y >>= run opens es

-- ===== src/Timers/Tests.antt =====
-- Lists of timers at concrete heaps.
use cpp_server.Prelude.{
  ℕ, zero, suc, ◌+◌, ◌≡◌, refl, Option, none, some, List, [], ◌∷◌, ◌++◌, arith, map,
}
use cpp_server.Http.State.{ok}
use cpp_server.Timers.{Timer, TimerList, add_timer, adjust_timer, del_timer, tick}
use cpp_server.Timers.Chain.{Entry, Lists, timer_of}
use cpp_server.Timers.Insert.{insert}
use cpp_server.Timers.Order.{AllUpTo, AllFrom, Sorted, add_timer-Sorted}
use cpp_server.Timers.Adjust.{adjust_timer-Lists}
use cpp_server.Timers.Unlink.{del_timer-Lists}
use cpp_server.Timers.Remove.{tick-Lists, AllFreed}

abbrev entry : ℕ → ℕ → Entry
entry i e = record { id = i; expire = e; user_data = i + 100 }

-- Timers 0 and 1 in the list, and a new timer 2.
abbrev heap : ℕ → Option Timer
heap zero = some (timer_of (entry 0 15) none (some 1))
heap (suc zero) = some (timer_of (entry 1 30) (some 0) none)
heap (suc (suc zero)) = some (timer_of (entry 2 15) none none)
heap (suc (suc (suc n))) = none

abbrev timers : TimerList
timers = record { heap = heap; head = some 0; tail = some 1 }

abbrev entries : List Entry
entries = entry 0 15 ∷ entry 1 30 ∷ []

timers-Lists : Lists timers entries
timers-Lists = record {
  from_head = refl;
  to_tail = refl;
  chain = (refl, (refl, tt));
  distinct = ((omega arith, tt), (tt, tt));
}

entries-Sorted : Sorted entries
entries-Sorted = ((omega arith, tt), (tt, tt))

add_timer-Sorted_example :
    (k : TimerList) × (add_timer 2 timers (some 2) ≡ ok k)
    × Lists k (insert (entry 2 15) entries)
    × Sorted (insert (entry 2 15) entries)
add_timer-Sorted_example =
    add_timer-Sorted 2 timers (entry 2 15) entries timers-Lists entries-Sorted
      (omega arith, (omega arith, tt)) refl (omega arith)

tick-Lists_example :
    (gone left : List Entry) × (k : TimerList) × (tick 3 20 timers
      ≡ ok (k, map (λ (e : Entry). e.user_data) gone))
    × Lists k left
    × (entries ≡ gone ++ left)
    × AllUpTo 20 gone
    × AllFrom (20 + 1) left
    × AllFreed k.heap gone
tick-Lists_example = tick-Lists 3 20 timers entries timers-Lists entries-Sorted (omega arith)

del_timer-Lists_example :
    (k : TimerList) × (del_timer timers (some 1) ≡ ok k)
    × Lists k (entry 0 15 ∷ [])
    × (k.heap 1 ≡ none)
del_timer-Lists_example = del_timer-Lists timers (entry 0 15 ∷ []) (entry 1 30) [] timers-Lists

-- Timer 0 has been put off to 40.
abbrev later_heap : ℕ → Option Timer
later_heap zero = some (timer_of (entry 0 40) none (some 1))
later_heap (suc zero) = some (timer_of (entry 1 30) (some 0) none)
later_heap (suc (suc n)) = none

abbrev later : TimerList
later = record { heap = later_heap; head = some 0; tail = some 1 }

later-Lists : Lists later (entry 0 40 ∷ entry 1 30 ∷ [])
later-Lists = record {
  from_head = refl;
  to_tail = refl;
  chain = (refl, (refl, tt));
  distinct = ((omega arith, tt), (tt, tt));
}

adjust_timer-Lists_example :
    (k : TimerList) × (adjust_timer 1 later (some 0) ≡ ok k)
    × Lists k (insert (entry 0 40) (entry 1 30 ∷ []))
adjust_timer-Lists_example =
    adjust_timer-Lists 1 later [] (entry 0 40) (entry 1 30 ∷ []) later-Lists (omega arith)

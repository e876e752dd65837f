-- ===== src/Webserver/Rounds.antt =====
-- The rounds of the event loop, with the workers' steps between the events.
use cpp_server.Prelude.{ℕ, ◌+◌, ◌≤◌, ◌≡◌, false, Option, none, some, List, [], ◌∷◌, length}
use cpp_server.Http.State.{Run, ok, undefined, out_of_fuel}
use cpp_server.Webserver.{Server}
use cpp_server.Webserver.Loop.{Flags, Event, after_work, handle_event, handle_events, end_round}
use cpp_server.Webserver.Events.{Arrives, Looped}

-- `P` of what the loop goes on with, if it goes on.
abbrev pub Then : Run (Option Looped) → (Server → Flags → Type 0) → Type 0
Then undefined P = Unit
Then out_of_fuel P = Unit
Then (ok none) P = Unit
Then (ok (some (s, fl))) P = P s fl

abbrev pub Ended : Run Looped → (Server → Flags → Type 0) → Type 0
Ended undefined P = Unit
Ended out_of_fuel P = Unit
Ended (ok (s, fl)) P = P s fl

abbrev pub Round : Type 0
Round = Option (ℕ × List Event)

-- The connections that wait in some events, and in some rounds.
abbrev pub newcomers : List Event → ℕ
newcomers [] = 0
newcomers (e ∷ evs) = length e.fds + newcomers evs

abbrev pub all_newcomers : List Round → ℕ
all_newcomers [] = 0
all_newcomers (none ∷ rounds) = 0
all_newcomers (some (now, evs) ∷ rounds) = newcomers evs + all_newcomers rounds

module _ (f listenfd pipefd : ℕ) where
  -- Each event can be reported of the server that the events before it, and the workers, have left.
  abbrev pub AllArrive : ℕ → Server → Flags → List Event → Type 0
  AllArrive now s fl [] = Unit
  AllArrive now s fl (e ∷ evs) =
      Arrives listenfd pipefd (after_work e.work s) e
      × Then (handle_event f now listenfd pipefd (after_work e.work s) fl e)
          (λ s' fl'. AllArrive now s' fl' evs)

  -- Likewise for the rounds, on a clock that does not go back.
  abbrev pub AllRounds : ℕ → Server → Flags → List Round → Type 0
  AllRounds clock s fl [] = Unit
  AllRounds clock s fl (none ∷ rounds) = Unit
  AllRounds clock s fl (some (now, evs) ∷ rounds) =
      fl.stop_server ≡ false
      → (clock ≤ now)
        × AllArrive now s fl evs
        × Then (handle_events f now listenfd pipefd s fl evs)
            (λ s' fl'. Ended (end_round f now s' fl') (λ s2 fl2. AllRounds now s2 fl2 rounds))

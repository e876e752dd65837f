-- ===== src/Log/Order.antt =====
-- No line is lost, and none is written twice, while one thread calls `write_log` and the other one
-- empties the queue.
use mathlib.Core.List.{map-append}
use cpp_server.Prelude.{
  ℕ, zero, suc, ◌≡◌, Bool, refl, sym, ap, ◌∙◌, none, some, List, [], ◌∷◌, ◌++◌, map, append_nil,
  get_elem?, set,
}
use cpp_server.Http.State.{ok}
use cpp_server.Log.{Log}
use cpp_server.Log.Format.{Fits}
use cpp_server.Log.Rotate.{AllOpen}
use cpp_server.Log.Thread.{
  Event, calls, goes, drains, step, run, Stage, resting, opened, printed, has_room, no_room,
  advance, Call, System,
}
use cpp_server.Log.Writes.{Line}
use cpp_server.Log.Calls.{
  call_line, pending, At, drain-At, rotate-At, print-At, test-At, push-At, file-At,
}

abbrev pub AllFit : ℕ → List Event → Type 0
AllFit size [] = Unit
AllFit size (calls i k ∷ es) = Fits size k.time k.level k.text × AllFit size es
AllFit size (goes i ∷ es) = AllFit size es
AllFit size (drains ∷ es) = AllFit size es

-- One thread calls `write_log`, and the lines of its calls that have come to their end are in the
-- files, with the thread that empties the queue, or in the queue.
pub record Logged (size m n : ℕ) (old : List Line) (y : System) : Type 0 where
  pub stage : Stage
  pub waiting : List Line
  pub finished : List Line
  pub one_caller : y.callers ≡ stage ∷ []
  pub all_calls : map call_line y.begun ≡ finished ++ pending stage
  pub at : At size m n old y.log stage finished waiting

-- What a step of the thread leaves, the line of its call included.
abbrev Advanced : ℕ → ℕ → ℕ → List Line → Log → Stage → List Line → Type 0
Advanced size m n old s st fin =
    (st' : Stage) × (s' : Log) × (fin' : List Line) × (vs' : List Line) × (advance st s
      ≡ ok (st', s'))
    × At size m n old s' st' fin' vs'
    × (fin' ++ pending st' ≡ fin ++ pending st)

module _ (size m n : ℕ) (old : List Line) where
  advance-At :
      (s : Log) (st : Stage) (fin vs : List Line)
      → At size m n old s st fin vs
      → Advanced size m n old s st fin
  unfolding advance
  advance-At s resting fin vs a = (resting, s, fin, vs, refl, a, refl)
  advance-At s (opened t level text) fin vs a =
      let (s', e, a') = print-At size m n old t level text s fin vs a in
      (_, s', fin, vs, e, a', refl)
  advance-At s (printed line) fin vs a =
      let (st, e, same, a') = test-At size m n old line s fin vs a in
      (st, s, fin, vs, e, a', ap (λ z. fin ++ z) same)
  advance-At s (has_room line) fin vs a =
      let (s', vs', e, a') = push-At size m n old line s fin vs a in
      (resting, s', fin ++ line ∷ [], vs', e, a', append_nil (fin ++ line ∷ []))
  advance-At s (no_room line) fin vs a =
      let (s', e, a') = file-At size m n old line s fin vs a in
      (resting, s', fin ++ line ∷ [], vs, e, a', append_nil (fin ++ line ∷ []))

  drains-Logged :
      (opens : List ℕ → Bool) (y : System)
      → Logged size m n old y
      → (y' : System) × (step opens drains y ≡ ok y') × Logged size m n old y'
  unfolding step
  drains-Logged opens y v =
      let (s', vs', e, a) = drain-At size m n old y.log v.stage v.finished v.waiting v.at in
      (
        record y { log = s' },
        rw (e, step) refl,
        record {
          stage = v.stage;
          waiting = vs';
          finished = v.finished;
          one_caller = v.one_caller;
          all_calls = v.all_calls;
          at = a;
        },
      )

  goes-Logged :
      (opens : List ℕ → Bool) (i : ℕ) (y : System)
      → Logged size m n old y
      → (y' : System) × (step opens (goes i) y ≡ ok y') × Logged size m n old y'
  unfolding step
  goes-Logged opens (suc i) y v =
      let nobody : get_elem? y.callers (suc i) ≡ none =
        ap (λ z. get_elem? z (suc i)) v.one_caller in
      (y, rw (nobody, step) refl, v)
  goes-Logged opens zero y v =
      let (st', s', fin', vs', e, a, same) = advance-At y.log v.stage v.finished v.waiting v.at in
      let here : get_elem? y.callers 0 ≡ some v.stage = ap (λ z. get_elem? z 0) v.one_caller in
      (
        record y { log = s'; callers = set y.callers 0 st' },
        rw (here, step) (rw e refl),
        record {
          stage = st';
          waiting = vs';
          finished = fin';
          one_caller = ap (λ z. set z 0 st') v.one_caller;
          all_calls = v.all_calls ∙ sym same;
          at = a;
        },
      )

  begins-Logged :
      (opens : List ℕ → Bool) (k : Call) (y : System) (st : Stage) (fin vs : List Line)
      → AllOpen opens
      → Fits size k.time k.level k.text
      → y.callers ≡ st ∷ []
      → map call_line y.begun ≡ fin ++ pending st
      → At size m n old y.log st fin vs
      → (y' : System) × (step opens (calls 0 k) y ≡ ok y') × Logged size m n old y'
  unfolding step
  begins-Logged opens k y resting fin vs all fits one begun a =
      let (s', e, a') = rotate-At size m n old opens k y.log fin vs all fits a in
      let st' = opened k.time k.level k.text in
      let here : get_elem? y.callers 0 ≡ some resting = ap (λ z. get_elem? z 0) one in
      (
        record { log = s'; callers = set y.callers 0 st'; begun = y.begun ++ k ∷ [] },
        rw (here, step) (rw e refl),
        record {
          stage = st';
          waiting = vs;
          finished = fin;
          one_caller = ap (λ z. set z 0 st') one;
          all_calls =
              map-append call_line y.begun (k ∷ [])
              ∙ ap (λ z. z ++ call_line k ∷ []) (begun ∙ append_nil fin);
          at = a';
        },
      )
  begins-Logged opens k y st fin vs all fits one begun a = (
    y,
    (let here : get_elem? y.callers 0 ≡ some st = ap (λ z. get_elem? z 0) one in
        rw (here, step) refl),
    record {
      stage = st;
      waiting = vs;
      finished = fin;
      one_caller = one;
      all_calls = begun;
      at = a;
    },
  )

  step-Logged :
      (opens : List ℕ → Bool) (e : Event) (y : System)
      → AllOpen opens
      → AllFit size (e ∷ [])
      → Logged size m n old y
      → (y' : System) × (step opens e y ≡ ok y') × Logged size m n old y'
  unfolding step
  step-Logged opens drains y all fits v = drains-Logged opens y v
  step-Logged opens (goes i) y all fits v = goes-Logged opens i y v
  step-Logged opens (calls (suc i) k) y all fits v =
      let nobody : get_elem? y.callers (suc i) ≡ none =
        ap (λ z. get_elem? z (suc i)) v.one_caller in
      (y, rw (nobody, step) refl, v)
  step-Logged opens (calls zero k) y all fits v =
      begins-Logged opens k y v.stage v.finished v.waiting all fits.0 v.one_caller v.all_calls v.at

first_fits : (size : ℕ) (e : Event) (es : List Event) → AllFit size (e ∷ es) → AllFit size (e ∷ [])
first_fits size (calls i k) es f = (f.0, tt)
first_fits size (goes i) es f = tt
first_fits size drains es f = tt

others_fit : (size : ℕ) (e : Event) (es : List Event) → AllFit size (e ∷ es) → AllFit size es
others_fit size (calls i k) es f = f.1
others_fit size (goes i) es f = f
others_fit size drains es f = f

-- However the steps of one thread that calls `write_log`, from lock to lock and with the test and the
-- `push` apart, and the steps of the thread that empties the queue follow one another, while `fopen`
-- succeeds and the lines fit: every step goes through; what is in the files, with the second thread
-- and in the queue is, up to the order, what was there and the lines of the calls that have come to
-- their end, none lost and none twice; at most one more call has been begun; and the lines are in the
-- order of the calls where the queue has had room for all of them.
pub run-Logged :
    (opens : List ℕ → Bool) (es : List Event) (y : System) (size m n : ℕ) (old : List Line)
    → AllOpen opens
    → AllFit size es
    → Logged size m n old y
    → (y' : System) × (run opens es y ≡ ok y') × Logged size m n old y'
unfolding run
run-Logged opens [] y size m n old all fits v = (y, refl, v)
run-Logged opens (e ∷ es) y size m n old all fits v =
    let (y1, e1, v1) = step-Logged size m n old opens e y all (first_fits size e es fits) v in
    let (y2, e2, v2) = run-Logged opens es y1 size m n old all (others_fit size e es fits) v1 in
    (y2, rw (e1, run) e2, v2)

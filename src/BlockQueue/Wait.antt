-- ===== src/BlockQueue/Wait.antt =====
-- The operations of block_queue in sequence, and `pop` while other threads run, against the
-- bounded first-in first-out list.
use mathlib.Core.Path.{subst}
use cpp_server.Prelude.{
  ℕ, ◌+◌, ◌*◌, ◌%◌, ◌^◌, ◌<◌, ◌≡◌, refl, inl, inr, true, false, Option, some, List, [], ◌∷◌, ◌++◌,
  arith, ltb, ◌==◌, if◌then◌else◌, Bool-cases, length, ltb→lt, ltb→le,
}
use cpp_server.BlockQueue.{
  BlockQueue, Got, got, refused, blocked, Op, pushes, takes, clears, Wake, fails, wakes, clear,
  take_next, take_or_refuse, step, run, pop, pop_timed, deadline,
}
use cpp_server.BlockQueue.Refine.{
  Holds, push-room, push-full, take_next-oldest, clear-Holds, clear-max_size,
}

-- What a wait for an element comes to.
pub data Waited {ℓ} (A : Type ℓ) : Type ℓ where
  gets : A → List A → Waited A
  refuses : List A → Waited A
  blocks : List A → Waited A

module _ {ℓ} {A : Type ℓ} where
  unfoldable pub fifo_step : ℕ → List A → Op A → List A
  fifo_step n vs (pushes a) = if ltb (length vs) n then vs ++ a ∷ [] else vs
  fifo_step n [] takes = []
  fifo_step n (v ∷ vs) takes = vs
  fifo_step n vs clears = []

  unfoldable pub fifo_run : ℕ → List A → List (Op A) → List A
  fifo_run n vs [] = vs
  fifo_run n vs (o ∷ os) = fifo_run n (fifo_step n vs o) os

  -- The oldest element as soon as there is one.
  unfoldable pub fifo_pop : ℕ → List (Wake A) → List A → Waited A
  fifo_pop n ws (v ∷ vs) = gets v vs
  fifo_pop n [] [] = blocks []
  fifo_pop n (fails ∷ ws) [] = refuses []
  fifo_pop n (wakes os ∷ ws) [] = fifo_pop n ws (fifo_run n [] os)

  abbrev pub first_or_refuse : List A → Waited A
  first_or_refuse [] = refuses []
  first_or_refuse (v ∷ vs) = gets v vs

  unfoldable pub fifo_pop_timed : ℕ → Wake A → List A → Waited A
  fifo_pop_timed n w (v ∷ vs) = gets v vs
  fifo_pop_timed n fails [] = refuses []
  fifo_pop_timed n (wakes os) [] = first_or_refuse (fifo_run n [] os)

  -- The same outcome, and a queue that stands for the list; a fault agrees with nothing.
  pub data Agrees : Got A → Waited A → Type ℓ where
    both_get : (a : A) {q : BlockQueue A} {vs : List A} → Holds q vs → Agrees (got a q) (gets a vs)
    both_refuse : {q : BlockQueue A} {vs : List A} → Holds q vs → Agrees (refused q) (refuses vs)
    both_block : {q : BlockQueue A} {vs : List A} → Holds q vs → Agrees (blocked q) (blocks vs)

  abbrev pub Reaches : ℕ → Option (BlockQueue A) → List A → Type ℓ
  Reaches n o vs = (q : BlockQueue A) × (o ≡ some q) × Holds q vs × (q.max_size ≡ n)

  step-Reaches :
      {q : BlockQueue A} {vs : List A} (o : Op A)
      → Holds q vs
      → Reaches q.max_size (step q o) (fifo_step q.max_size vs o)
  unfolding step fifo_step
  step-Reaches {q} {vs} (pushes a) h = elim (Bool-cases (ltb (length vs) q.max_size)) [
    | inl room ↦
        let (q', e, h', n) = push-room h a (ltb→lt _ _ room) in rw (room, e) (q', refl, h', n)
    | inr full ↦ rw (full, push-full h a (ltb→le _ _ full)) (q, refl, h, refl)
  ]
  step-Reaches {q} {vs = []} takes h =
      let none_left : (q.size == 0) ≡ true = ground (arith, h.counted) in
      rw none_left (q, refl, h, refl)
  step-Reaches {q} {vs = v ∷ vs} takes h =
      let (q', e, h', n) = take_next-oldest h v vs refl in
      let more : (q.size == 0) ≡ false = ground (arith, h.counted) in rw (more, e) (q', refl, h', n)
  step-Reaches {q} {vs} clears h = (clear q, refl, clear-Holds h, clear-max_size h)

  step_at :
      (n : ℕ) (o : Op A) {q : BlockQueue A} {vs : List A}
      → q.max_size ≡ n
      → Holds q vs
      → Reaches n (step q o) (fifo_step n vs o)
  step_at n o {q} {vs} e h =
      subst (λ k. Reaches k (step q o) (fifo_step k vs o)) e (step-Reaches o h)

  run_at :
      (n : ℕ) (os : List (Op A)) {q : BlockQueue A} {vs : List A}
      → q.max_size ≡ n
      → Holds q vs
      → Reaches n (run q os) (fifo_run n vs os)
  unfolding run fifo_run
  run_at n [] {q} {vs} e h = (q, refl, h, e)
  run_at n (o ∷ os) {q} {vs} e h =
      let (q', e', h', n') = step_at n o e h in rw (e', run) (run_at n os n' h')

  -- Every sequence of calls runs without leaving the array, and leaves the elements that the
  -- bounded list has.
  pub run-Reaches :
      {q : BlockQueue A} {vs : List A} (os : List (Op A))
      → Holds q vs
      → Reaches q.max_size (run q os) (fifo_run q.max_size vs os)
  run-Reaches {q} os h = run_at q.max_size os refl h

  take_next-Agrees :
      {q : BlockQueue A} {v : A} {vs : List A} → Holds q (v ∷ vs) → Agrees (take_next q) (gets v vs)
  take_next-Agrees {v} {vs} h =
      let (q', e, h', n) = take_next-oldest h v vs refl in rw e (both_get v h')

  none_left : {q : BlockQueue A} → Holds q [] → (q.size == 0) ≡ true
  none_left h = ground (arith, h.counted)

  some_left : {q : BlockQueue A} {v : A} {vs : List A} → Holds q (v ∷ vs) → (q.size == 0) ≡ false
  some_left h = ground (arith, h.counted)

  pop_at :
      (n : ℕ) (ws : List (Wake A)) {q : BlockQueue A} {vs : List A}
      → q.max_size ≡ n
      → Holds q vs
      → Agrees (pop ws q) (fifo_pop n ws vs)
  unfolding pop fifo_pop
  pop_at n [] {vs = []} e h = rw (none_left h) (both_block h)
  pop_at n [] {vs = v ∷ vs} e h = rw (some_left h) (take_next-Agrees h)
  pop_at n (fails ∷ ws) {vs = []} e h = rw (none_left h) (both_refuse h)
  pop_at n (fails ∷ ws) {vs = v ∷ vs} e h = rw (some_left h) (take_next-Agrees h)
  pop_at n (wakes os ∷ ws) {vs = []} e h =
      let (q', e', h', n') = run_at n os e h in
      rw (none_left h, pop) (rw (e', pop) (pop_at n ws n' h'))
  pop_at n (wakes os ∷ ws) {vs = v ∷ vs} e h = rw (some_left h, pop) (take_next-Agrees h)

  -- `pop` on a valid queue never leaves the array: it waits exactly while the queue is empty,
  -- gives up exactly where a wait fails, and hands out the oldest element.
  pub pop-Agrees :
      (ws : List (Wake A)) {q : BlockQueue A} {vs : List A}
      → Holds q vs
      → Agrees (pop ws q) (fifo_pop q.max_size ws vs)
  pop-Agrees ws {q} h = pop_at q.max_size ws refl h

  take_or_refuse-Agrees :
      {q : BlockQueue A} {vs : List A} → Holds q vs → Agrees (take_or_refuse q) (first_or_refuse vs)
  take_or_refuse-Agrees {vs = []} h = rw (none_left h) (both_refuse h)
  take_or_refuse-Agrees {vs = v ∷ vs} h = rw (some_left h) (take_next-Agrees h)

  -- The timed `pop` waits once at most.
  pub pop_timed-Agrees :
      (w : Wake A) {q : BlockQueue A} {vs : List A}
      → Holds q vs
      → Agrees (pop_timed w q) (fifo_pop_timed q.max_size w vs)
  unfolding pop_timed fifo_pop_timed
  pop_timed-Agrees fails {vs = []} h = rw (none_left h) (both_refuse h)
  pop_timed-Agrees fails {vs = v ∷ vs} h = rw (some_left h) (take_next-Agrees h)
  pop_timed-Agrees (wakes os) {vs = []} h =
      let (q', e, h', n) = run-Reaches os h in
      rw (none_left h, pop_timed) (rw (e, pop_timed) (take_or_refuse-Agrees h'))
  pop_timed-Agrees (wakes os) {vs = v ∷ vs} h = rw (some_left h, pop_timed) (take_next-Agrees h)

-- The timed `pop` asks for an instant before the one that is `ms_timeout` milliseconds on.
pub deadline_early :
    (sec ms : ℕ)
    → 0 < ms % 1000
    → (deadline sec ms).tv_sec * 10 ^ 9 + (deadline sec ms).tv_nsec < sec * 10 ^ 9 + ms * 10 ^ 6
unfolding deadline
deadline_early sec ms h = omega arith

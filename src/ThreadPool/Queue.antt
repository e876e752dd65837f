-- ===== src/ThreadPool/Queue.antt =====
-- The queue of requests: its bound, its order, and the semaphore that counts it.
use mathlib.Core.List.{append_assoc}
use cpp_server.Prelude.{
  ℕ, zero, suc, ◌+◌, ◌≤◌, ◌<◌, ◌≡◌, refl, sym, ap, ◌∙◌, inl, inr, Bool, true, false, Option, some,
  List, [], ◌∷◌, ◌++◌, ℤ, pos, arith, leb_ℤ, leb, length, length-append, Bool-cases, leb→le,
  get_elem?, set, Option-cases,
}
use cpp_server.ThreadPool.{
  ThreadPool, Memory, construct, to_size, push_request, post, append_p, take_request,
}
use cpp_server.ThreadPool.Workers.{
  Stage, waiting, woken, Shop, Turn, offers, posts, works, taken, work, turn, run,
}

-- The semaphore counts the queue, and the queue is not longer than it may be.
pub record IsValid (p : ThreadPool) : Type 0 where
  pub counted : p.queuestat ≡ length p.workqueue
  pub bounded : length p.workqueue ≤ to_size p.max_requests

not_full :
    (p : ThreadPool)
    → leb (to_size p.max_requests) (length p.workqueue) ≡ false
    → length p.workqueue < to_size p.max_requests
not_full p h = ground arith

-- `append_p` refuses a request exactly where the queue is full, and then changes nothing; otherwise
-- the request is the last one. The queue stays valid.
pub append_p-IsValid :
    (p : ThreadPool) (r : ℕ)
    → IsValid p
    → let (done, q) = append_p p r in
      IsValid q
      × (done ≡ true
          → (q.workqueue ≡ p.workqueue ++ r ∷ []) × (length p.workqueue < to_size p.max_requests))
      × (done ≡ false → (q ≡ p) × (length p.workqueue ≡ to_size p.max_requests))
unfolding append_p push_request post
append_p-IsValid p r v = elim (Bool-cases (leb (to_size p.max_requests) (length p.workqueue))) [
  | inl full ↦
      rw (full, push_request)
        (v, (λ e. absurd (cc)), λ e. (refl, omega (arith, v.bounded, leb→le _ _ full)))
  | inr room ↦
      rw (room, push_request)
        (
          record {
            counted = omega (arith, v.counted, length-append p.workqueue (r ∷ []));
            bounded = omega (arith, not_full p room, length-append p.workqueue (r ∷ []));
          },
          (λ e. (refl, not_full p room)),
          λ e. absurd (cc),
        )
]

abbrev pub awake : List Stage → ℕ
awake [] = 0
awake (woken ∷ ws) = suc (awake ws)
awake (waiting ∷ ws) = awake ws

awake-woken :
    (ws : List Stage) (i : ℕ)
    → get_elem? ws i ≡ some waiting
    → awake (set ws i woken) ≡ awake ws + 1
awake-woken [] i e = absurd (cc)
awake-woken (waiting ∷ ws) zero e = omega arith
awake-woken (woken ∷ ws) zero e = absurd (cc)
awake-woken (waiting ∷ ws) (suc i) e = awake-woken ws i e
awake-woken (woken ∷ ws) (suc i) e = omega (arith, awake-woken ws i e)

awake-waiting :
    (ws : List Stage) (i : ℕ)
    → get_elem? ws i ≡ some woken
    → awake (set ws i waiting) + 1 ≡ awake ws
awake-waiting [] i e = absurd (cc)
awake-waiting (woken ∷ ws) zero e = omega arith
awake-waiting (waiting ∷ ws) zero e = absurd (cc)
awake-waiting (waiting ∷ ws) (suc i) e = awake-waiting ws i e
awake-waiting (woken ∷ ws) (suc i) e = omega (arith, awake-waiting ws i e)

-- What was taken and what is in the queue are what was put into it, in its order; the queue keeps its
-- bound; and for each request in the queue there is a count of the semaphore, a post to come, or a
-- worker that has woken.
pub record Delivers (s : Shop) : Type 0 where
  pub in_order : s.accepted ≡ s.served ++ s.pool.workqueue
  pub bounded : length s.pool.workqueue ≤ to_size s.pool.max_requests
  pub remembered : length s.pool.workqueue ≤ s.pool.queuestat + s.posting + awake s.workers

take-Delivers :
    (s : Shop) (i : ℕ) (rs : List ℕ)
    → s.pool.workqueue ≡ rs
    → get_elem? s.workers i ≡ some woken
    → Delivers s
    → Delivers (taken s i (take_request s.pool))
unfolding take_request
take-Delivers s i [] e at v =
    rw (e, take_request)
      (record {
        in_order = v.in_order;
        bounded = v.bounded;
        remembered = omega (arith, ap length e);
      })
take-Delivers s i (r ∷ rs) e at v =
    rw (e, take_request)
      (record {
        in_order = v.in_order ∙ ap (λ q. s.served ++ q) e ∙ sym (append_assoc s.served (r ∷ []) rs);
        bounded = omega (arith, v.bounded, ap length e);
        remembered = omega (arith, v.remembered, ap length e, awake-waiting s.workers i at);
      })

wait-Delivers :
    (s : Shop) (i n : ℕ)
    → s.pool.queuestat ≡ n
    → get_elem? s.workers i ≡ some waiting
    → Delivers s
    → Delivers (work false s i waiting)
unfolding work
wait-Delivers s i zero e at v = rw (e, work) v
wait-Delivers s i (suc n) e at v =
    rw (e, work)
      (record {
        in_order = v.in_order;
        bounded = v.bounded;
        remembered = omega (arith, v.remembered, awake-woken s.workers i at);
      })

work-Delivers :
    (fails : Bool) (s : Shop) (i : ℕ) (st : Stage)
    → get_elem? s.workers i ≡ some st
    → Delivers s
    → Delivers (work fails s i st)
unfolding work
work-Delivers fails s i woken at v = take-Delivers s i s.pool.workqueue refl at v
work-Delivers false s i waiting at v = wait-Delivers s i s.pool.queuestat refl at v
work-Delivers true s i waiting at v = record {
  in_order = v.in_order;
  bounded = v.bounded;
  remembered = omega (arith, v.remembered, awake-woken s.workers i at);
}

post-Delivers : (s : Shop) (n : ℕ) → s.posting ≡ n → Delivers s → Delivers (turn s posts)
unfolding turn post
post-Delivers s zero e v = rw (e, turn) v
post-Delivers s (suc n) e v =
    rw (e, turn)
      (record {
        in_order = v.in_order;
        bounded = v.bounded;
        remembered = omega (arith, v.remembered);
      })

turn-Delivers : (s : Shop) (t : Turn) → Delivers s → Delivers (turn s t)
unfolding turn push_request
turn-Delivers s posts v = post-Delivers s s.posting refl v
turn-Delivers s (works i fails) v = elim (Option-cases (get_elem? s.workers i)) [
  | inl e ↦ rw (e, turn) v
  | inr (st, e) ↦ rw (e, turn) (work-Delivers fails s i st e v)
]
turn-Delivers s (offers r) v =
    elim (Bool-cases (leb (to_size s.pool.max_requests) (length s.pool.workqueue))) [
      | inl full ↦ rw (full, push_request) v
      | inr room ↦
          let len = length-append s.pool.workqueue (r ∷ []) in
          rw (room, push_request)
            (record {
              in_order =
                  ap (λ z. z ++ r ∷ []) v.in_order
                  ∙ append_assoc s.served s.pool.workqueue (r ∷ []);
              bounded = omega (arith, not_full s.pool room, len);
              remembered = omega (arith, v.remembered, len);
            })
    ]

-- However the threads that offer requests, their posts and the workers follow one another, and
-- whichever waits of the workers fail: the requests that were put into the queue are taken in their
-- order, each once and none lost; the queue never grows beyond its bound; and no request is
-- forgotten, since for each that is in the queue there is a count of the semaphore, a post to come,
-- or a worker that has woken.
pub run-Delivers : (s : Shop) (ts : List Turn) → Delivers s → Delivers (run s ts)
unfolding run
run-Delivers s [] v = v
run-Delivers s (t ∷ ts) v = run-Delivers (turn s t) ts (turn-Delivers s t v)

positive : (n : ℕ) → leb_ℤ (pos (suc n)) (pos 0) ≡ false
positive n = ground arith

-- The constructor does not look at the bound that it is given, beyond its sign, nor at the model and
-- the pool of connections: two calls that differ in these alone make the same pool.
pub construct_blind :
    (starts : ℕ → Bool) (m : Memory) (model model' : ℤ) (con con' : Option ℕ) (number : ℤ)
    (n n' : ℕ)
    → construct starts m model con number (pos (suc n))
      ≡ construct starts m model' con' number (pos (suc n'))
unfolding construct
construct_blind starts m model model' con con' number n n' =
    rw (positive n, construct) (rw (positive n', construct) refl)

-- ===== src/SqlPool/Progress.antt =====
-- A thread that waits for a connection can always still be served.
use mathlib.Core.Path.{subst}
use mathlib.Core.Option.{some-injective}
use cpp_server.Prelude.{
  ℕ, zero, suc, ◌+◌, ◌≢◌, ◌<◌, ◌≡◌, refl, sym, ap, ◌∙◌, inl, inr, none, some, List, [], ◌∷◌, ◌++◌,
  arith, length, ltb, ltb→lt, ltb→le, Bool-cases, get_elem?, set,
}
use cpp_server.SqlPool.{
  SqlPool, Phase, idle, checked, granted, returning, holding, System, calm, run,
}
use cpp_server.SqlPool.Inv.{IsValid, total, owed, held}
use cpp_server.SqlPool.Threads.{owed_in}
use cpp_server.SqlPool.Frees.{
  run-append, step_by, now_at, Frees, step-IsValid, gives_returning, gives_holding, gives_granted,
  takes, acquires,
}

-- A thread that owes a connection, or has one.
find_busy :
    (ps : List Phase)
    → 0 < total owed ps + total held ps
    → (j : ℕ) × (ph : Phase) × (get_elem? ps j ≡ some ph) × (0 < owed ph + held ph)
find_busy [] lt = absurd (omega arith)
find_busy (ph ∷ ps) lt = elim (Bool-cases (ltb 0 (owed ph + held ph))) [
  | inl yes_busy ↦ (0, ph, refl, ltb→lt _ _ yes_busy)
  | inr idle_here ↦
      let (j, ph', e, b) = find_busy ps (omega (arith, ltb→le _ _ idle_here)) in (suc j, ph', e, b)
]

gives_by :
    (s : System) (i j : ℕ) (ph : Phase)
    → IsValid s
    → get_elem? s.threads i ≡ some checked
    → j ≢ i
    → get_elem? s.threads j ≡ some ph
    → 0 < owed ph + held ph
    → Frees s i
gives_by s i j idle v wait ne e b = absurd (omega arith)
gives_by s i j checked v wait ne e b = absurd (omega arith)
gives_by s i j granted v wait ne e b = gives_granted s i j v wait ne e
gives_by s i j returning v wait ne e b = gives_returning s i j v wait ne e
gives_by s i j (holding none) v wait ne e b = absurd (omega arith)
gives_by s i j (holding (some c)) v wait ne e b = gives_holding s i j c v wait ne e

checked_idle :
    (ps : List Phase) (i j : ℕ) (ph : Phase)
    → j ≡ i
    → get_elem? ps i ≡ some checked
    → get_elem? ps j ≡ some ph
    → owed ph + held ph ≡ 0
checked_idle ps i j ph eq wait e =
    let e' : get_elem? ps i ≡ some ph = subst (λ k. get_elem? ps k ≡ some ph) eq e in
    ap (λ z. owed z + held z) (some-injective _ _ (sym e' ∙ wait))

-- A thread that has passed the semaphore's test takes it, and then a connection.
serve :
    (s : System) (i n : ℕ)
    → IsValid s
    → get_elem? s.threads i ≡ some checked
    → s.pool.reserve ≡ n
    → 0 < n
    → (c : ℕ) × (t : System) × (run s (calm (i ∷ i ∷ [])) ≡ some t)
      × (get_elem? t.threads i ≡ some (holding (some c)))
unfolding run
serve s i zero v wait eq lt = absurd (omega arith)
serve s i (suc n) v wait eq lt =
    let p1 : SqlPool = record s.pool { reserve = n } in
    let t1 : System = record { pool = p1; threads = set s.threads i granted } in
    let go1 = step_by s i checked granted p1 wait (acquires s.pool n eq) in
    let v1 : IsValid t1 = step-IsValid s t1 i v go1 in
    let at1 = now_at s.threads i checked granted wait in
    let (c, p2, m) =
      takes p1 p1.conn_list refl (omega (arith, owed_in t1.threads i at1, v1.listed)) in
    let go2 = step_by t1 i granted (holding (some c)) p2 at1 m in
    (
      c,
      record { pool = p2; threads = set t1.threads i (holding (some c)) },
      rw (go1, run) (rw (go2, run) (unfold run in refl)),
      now_at t1.threads i granted (holding (some c)) at1,
    )

gives_one :
    (s : System) (i : ℕ)
    → IsValid s
    → get_elem? s.threads i ≡ some checked
    → 0 < length s.pool.conn_list + total held s.threads
    → Frees s i
gives_one s i v wait some_conn = elim (Bool-cases (ltb 0 s.pool.reserve)) [
  | inl ready ↦ record {
    steps = [];
    after = s;
    runs = unfold run in refl;
    valid = v;
    ready = ltb→lt _ _ ready;
    waits = wait;
  }
  | inr dry ↦
      let (j, ph, e, b) = find_busy s.threads (omega (arith, v.listed, ltb→le _ _ dry)) in
      gives_by s i j ph v wait
        (λ same. absurd (omega (arith, checked_idle s.threads i j ph same wait e))) e b
]

-- Where there is a connection at all, in the list or with a thread, a thread that waits for one can
-- still be served: some order of steps, in which no wait fails, leads to a state in which it holds a
-- connection.
pub checked-holding :
    (s : System) (i : ℕ)
    → IsValid s
    → get_elem? s.threads i ≡ some checked
    → 0 < length s.pool.conn_list + total held s.threads
    → (steps : List ℕ) × (c : ℕ) × (t : System) × (run s (calm steps) ≡ some t)
      × (get_elem? t.threads i ≡ some (holding (some c)))
checked-holding s i v wait some_conn =
    let f = gives_one s i v wait some_conn in
    let (c, t, ran, has_it) = serve f.after i f.after.pool.reserve f.valid f.waits refl f.ready in
    (f.steps ++ i ∷ i ∷ [], c, t, run-append s f.after f.steps (i ∷ i ∷ []) f.runs ∙ ran, has_it)

-- ===== src/SqlPool/Frees.antt =====
-- ocean_http/cgimysql/sql_connection_pool.cpp: the steps of the threads that give connections back.
use mathlib.Core.Path.{subst}
use mathlib.Core.Option.{some-injective}
use cpp_server.Prelude.{
  ℕ, zero, suc, ◌+◌, negsuc, pos, ◌+ℤ◌, ◌≢◌, ◌<◌, ◌≡◌, refl, sym, ap, ◌∙◌, inl, inr, Option-cases,
  none, some, List, [], ◌∷◌, ◌++◌, arith, length, get_elem?, false, set, get_elem?-set_ne,
}
use cpp_server.SqlPool.{
  SqlPool, Phase, idle, checked, granted, returning, holding, System, calm, moves, next_move, step,
  run, take_connection, give_back,
}
use cpp_server.SqlPool.Inv.{IsValid}
use cpp_server.SqlPool.Threads.{step-Stays, owed_in}

pub run-append :
    (s t : System) (is js : List ℕ)
    → run s (calm is) ≡ some t
    → run s (calm (is ++ js)) ≡ run t (calm js)
unfolding run
run-append s t [] js e = ap (λ z. run z (calm js)) (some-injective _ _ e)
run-append s t (i ∷ is) js e = elim (Option-cases (step s (i, false))) [
  | inl stuck ↦ let bad : none ≡ some t = rw (stuck, run) at e in absurd (cc)
  | inr (u, go) ↦ rw (go, run) (run-append u t is js (rw (go, run) at e))
]

-- A thread whose next move is known makes it.
pub step_by :
    (s : System) (i : ℕ) (ph ph' : Phase) (p' : SqlPool)
    → get_elem? s.threads i ≡ some ph
    → next_move false s.pool ph ≡ moves p' ph'
    → step s (i, false) ≡ some (record { pool = p'; threads = set s.threads i ph' })
unfolding step
step_by s i ph ph' p' e m = rw (e, step) (rw m refl)

-- The thread is there after its step, in its new phase.
pub now_at :
    {A : Type 0} (xs : List A) (i : ℕ) (a b : A)
    → get_elem? xs i ≡ some a
    → get_elem? (set xs i b) i ≡ some b
now_at [] i a b e = absurd (cc)
now_at (x ∷ xs) zero a b e = refl
now_at (x ∷ xs) (suc i) a b e = now_at xs i a b e

-- After some steps of others one more connection is ready, and thread `i` stands where it was.
pub record Frees (s : System) (i : ℕ) : Type 0 where
  pub steps : List ℕ
  pub after : System
  pub runs : run s (calm steps) ≡ some after
  pub valid : IsValid after
  pub ready : 0 < after.pool.reserve
  pub waits : get_elem? after.threads i ≡ some checked

-- One step of thread `j`, before steps that free a connection.
first_step :
    (s : System) (i j : ℕ) (ph ph' : Phase) (p' : SqlPool)
    → get_elem? s.threads j ≡ some ph
    → next_move false s.pool ph ≡ moves p' ph'
    → Frees (record { pool = p'; threads = set s.threads j ph' }) i
    → Frees s i
unfolding run
first_step s i j ph ph' p' e m f = record {
  steps = j ∷ f.steps;
  after = f.after;
  runs = rw (step_by s j ph ph' p' e m, run) f.runs;
  valid = f.valid;
  ready = f.ready;
  waits = f.waits;
}

pub step-IsValid : (s t : System) (j : ℕ) → IsValid s → step s (j, false) ≡ some t → IsValid t
step-IsValid s t j v e =
    let (u, e', k) = step-Stays s j v in subst IsValid (some-injective _ _ (sym e' ∙ e)) k.valid

module _ (s : System) (i j : ℕ) (v : IsValid s) (wait : get_elem? s.threads i ≡ some checked)
    (ne : j ≢ i) where
  pub gives_returning : get_elem? s.threads j ≡ some returning → Frees s i
  unfolding next_move
  gives_returning e =
      let p' : SqlPool = record s.pool { reserve = s.pool.reserve + 1 } in
      let t : System = record { pool = p'; threads = set s.threads j idle } in
      let go : step s (j, false) ≡ some t = step_by s j returning idle p' e refl in
      first_step s i j returning idle p' e refl (record {
        steps = [];
        after = t;
        runs = unfold run in refl;
        valid = step-IsValid s t j v go;
        ready = omega arith;
        waits = get_elem?-set_ne s.threads j i idle ne ∙ wait;
      })

pub gives_holding :
    (s : System) (i j c : ℕ)
    → IsValid s
    → get_elem? s.threads i ≡ some checked
    → j ≢ i
    → get_elem? s.threads j ≡ some (holding (some c))
    → Frees s i
unfolding next_move
gives_holding s i j c v wait ne e =
    let p' = give_back s.pool c in
    let t : System = record { pool = p'; threads = set s.threads j returning } in
    let go : step s (j, false) ≡ some t = step_by s j (holding (some c)) returning p' e refl in
    first_step s i j (holding (some c)) returning p' e refl (
      gives_returning t i j (step-IsValid s t j v go)
        (get_elem?-set_ne s.threads j i returning ne ∙ wait) ne
        (now_at s.threads j (holding (some c)) returning e))

abbrev after_take : SqlPool → List ℕ → SqlPool
after_take p cs = record p {
  conn_list = cs;
  free_conn = p.free_conn +ℤ negsuc 0;
  cur_conn = p.cur_conn +ℤ pos 1;
}

takes_front :
    (p : SqlPool) (c : ℕ) (cs : List ℕ)
    → p.conn_list ≡ c ∷ cs
    → next_move false p granted ≡ moves (after_take p cs) (holding (some c))
unfolding next_move take_connection
takes_front p c cs e = simp (e, next_move, take_connection) refl

pub acquires :
    (p : SqlPool) (n : ℕ)
    → p.reserve ≡ suc n
    → next_move false p checked ≡ moves (record p { reserve = n }) granted
unfolding next_move
acquires p n e = simp (e, next_move) refl

-- A thread that has waited finds a connection.
pub takes :
    (p : SqlPool) (cs : List ℕ)
    → p.conn_list ≡ cs
    → 0 < length cs
    → (c : ℕ) × (p' : SqlPool) × (next_move false p granted ≡ moves p' (holding (some c)))
unfolding next_move take_connection
takes p [] e lt = absurd (omega arith)
takes p (c ∷ cs) e lt = (c, after_take p cs, takes_front p c cs e)

pub gives_granted :
    (s : System) (i j : ℕ)
    → IsValid s
    → get_elem? s.threads i ≡ some checked
    → j ≢ i
    → get_elem? s.threads j ≡ some granted
    → Frees s i
gives_granted s i j v wait ne e =
    let (c, p', m) =
      takes s.pool s.pool.conn_list refl (omega (arith, owed_in s.threads j e, v.listed)) in
    let t : System = record { pool = p'; threads = set s.threads j (holding (some c)) } in
    first_step s i j granted (holding (some c)) p' e m (
      gives_holding t i j c (step-IsValid s t j v (step_by s j granted (holding (some c)) p' e m))
        (get_elem?-set_ne s.threads j i (holding (some c)) ne ∙ wait) ne
        (now_at s.threads j granted (holding (some c)) e))

-- ===== src/SqlPool/Threads.antt =====
-- Any number of threads that take connections from the pool and give them back, in any order.
use mathlib.Core.Option.{some-injective}
use cpp_server.Prelude.{
  ℕ, ◌+◌, ◌-◌, ◌≤◌, ◌≢◌, ◌<◌, ◌≡◌, refl, sym, ap, ◌∙◌, inl, inr, some, Option-cases, List, [], ◌∷◌,
  none, Bool, true, false, pos, arith, get_elem?, set, get_elem?-set_ne,
}
use cpp_server.SqlPool.{
  SqlPool, Turn, calm, Phase, idle, checked, granted, returning, holding, System, take_connection,
  Move, moves, blocks, faults, next_move, moved, step, run,
}
use cpp_server.SqlPool.Inv.{
  IsValid, Safe, waits, goes, total, total-set, same, owed, held, has, count, copies,
  next_move-Safe,
}

pub owed_in : (ps : List Phase) (i : ℕ) → get_elem? ps i ≡ some granted → 0 < total owed ps
owed_in ps i e = omega (arith, total-set owed ps i granted idle e)

-- What a step keeps.
pub record Stays (s s' : System) : Type 0 where
  pub valid : IsValid s'
  pub same_copies : (c : ℕ) → copies c s' ≡ copies c s

after_move :
    (s : System) (i : ℕ) (ph : Phase) (m : Move)
    → IsValid s
    → get_elem? s.threads i ≡ some ph
    → Safe s.pool ph m
    → (s' : System) × (moved s i m ≡ some s') × Stays s s'
after_move s i ph faults v e m = elim m [ ]
after_move s i ph blocks v e waits = (s, refl, record { valid = v; same_copies = λ c. refl })
after_move s i ph (moves p' ph') v e (goes k) =
    let owe = total-set owed s.threads i ph ph' e in
    let hold = total-set held s.threads i ph ph' e in
    (
      record { pool = p'; threads = set s.threads i ph' },
      refl,
      record {
        valid = record {
          listed = omega (arith, k.sem, v.listed);
          counted_free = k.free_ok v.counted_free;
          counted_used =
              k.used_ok (total held s.threads - held ph)
                (v.counted_used ∙ ap pos (omega (arith, total-set held s.threads i ph idle e)))
              ∙ ap pos (omega (arith, total-set held s.threads i ph idle e));
        };
        same_copies = λ c. omega (arith, k.kept c, total-set (has c) s.threads i ph ph' e);
      },
    )

pub step-Stays :
    (s : System) (i : ℕ) → IsValid s → (s' : System) × (step s (i, false) ≡ some s') × Stays s s'
unfolding step
step-Stays s i v = elim (Option-cases (get_elem? s.threads i)) [
  | inl e ↦ rw (e, step) (s, refl, record { valid = v; same_copies = λ c. refl })
  | inr (ph, e) ↦
      rw (e, step)
        (after_move s i ph (next_move false s.pool ph) v e (
          next_move-Safe s.pool ph
            λ g. omega (arith, owed_in s.threads i (e ∙ ap some g), v.listed)))
]

-- However the steps of the threads follow one another, as long as no wait of the semaphore fails, no
-- thread ever takes the front of an empty list; the counters and the semaphore stay those of the list and of the threads; and a connection
-- is as often in the list or with a thread as it was.
pub run-Stays :
    (s : System) (is : List ℕ)
    → IsValid s
    → (s' : System) × (run s (calm is) ≡ some s') × Stays s s'
unfolding run
run-Stays s [] v = (s, refl, record { valid = v; same_copies = λ c. refl })
run-Stays s (i ∷ is) v =
    let (s1, e1, k1) = step-Stays s i v in
    let (s2, e2, k2) = run-Stays s1 is k1.valid in
    (
      s2,
      rw (e1, run) e2,
      record { valid = k2.valid; same_copies = λ c. k2.same_copies c ∙ k1.same_copies c },
    )

-- A move keeps how often a connection is in the list or with the thread.
abbrev KeepsCopies : SqlPool → Phase → Move → Type 0
KeepsCopies p ph blocks = Unit
KeepsCopies p ph faults = Unit
KeepsCopies p ph (moves p' ph') =
    (c : ℕ) → count c p'.conn_list + has c ph' ≡ count c p.conn_list + has c ph

Safe-copies : (p : SqlPool) (ph : Phase) (m : Move) → Safe p ph m → KeepsCopies p ph m
Safe-copies p ph blocks waits = tt
Safe-copies p ph faults v = elim v [ ]
Safe-copies p ph (moves p' ph') (goes k) = k.kept

take-copies :
    (fails : Bool) (p : SqlPool) (cs : List ℕ)
    → p.conn_list ≡ cs
    → KeepsCopies p granted (next_move fails p granted)
unfolding next_move take_connection
take-copies fails p [] e = rw (e, take_connection) tt
take-copies fails p (c ∷ cs) e = rw (e, take_connection) (λ d. omega (arith, ap (count d) e))

next_move-copies :
    (fails : Bool) (p : SqlPool) (ph : Phase) → KeepsCopies p ph (next_move fails p ph)
unfolding next_move
next_move-copies fails p granted = take-copies fails p p.conn_list refl
next_move-copies true p checked = λ c. refl
next_move-copies false p checked =
    Safe-copies p checked _ (next_move-Safe p checked λ e. absurd (cc))
next_move-copies fails p idle = Safe-copies p idle _ (next_move-Safe p idle λ e. absurd (cc))
next_move-copies fails p returning =
    Safe-copies p returning _ (next_move-Safe p returning λ e. absurd (cc))
next_move-copies fails p (holding h) =
    Safe-copies p (holding h) _ (next_move-Safe p (holding h) λ e. absurd (cc))

moved-copies :
    (s u : System) (i : ℕ) (ph : Phase) (c : ℕ) (m : Move)
    → get_elem? s.threads i ≡ some ph
    → KeepsCopies s.pool ph m
    → moved s i m ≡ some u
    → copies c u ≡ copies c s
moved-copies s u i ph c blocks e k go = ap (copies c) (some-injective _ _ (sym go))
moved-copies s u i ph c faults e k go = absurd (cc)
moved-copies s u i ph c (moves p' ph') e k go =
    ap (copies c) (some-injective _ _ (sym go))
    ∙ omega (arith, k c, total-set (has c) s.threads i ph ph' e)

step-copies : (s u : System) (t : Turn) (c : ℕ) → step s t ≡ some u → copies c u ≡ copies c s
unfolding step
step-copies s u (i, fails) c go = elim (Option-cases (get_elem? s.threads i)) [
  | inl e ↦ ap (copies c) (some-injective _ _ (sym (rw (e, step) at go)))
  | inr (ph, e) ↦
      moved-copies s u i ph c (next_move fails s.pool ph) e (next_move-copies fails s.pool ph)
        (rw (e, step) at go)
]

run-copies :
    (s s' : System) (ts : List Turn) (c : ℕ) → run s ts ≡ some s' → copies c s' ≡ copies c s
unfolding run
run-copies s s' [] c ran = ap (copies c) (some-injective _ _ (sym ran))
run-copies s s' (t ∷ ts) c ran = elim (Option-cases (step s t)) [
  | inl stuck ↦ let bad : none ≡ some s' = rw (stuck, run) at ran in absurd (cc)
  | inr (u, go) ↦ run-copies u s' ts c (rw (go, run) at ran) ∙ step-copies s u t c go
]

has_in :
    (c : ℕ) (ps : List Phase) (i : ℕ)
    → get_elem? ps i ≡ some (holding (some c))
    → total (has c) (set ps i idle) + 1 ≡ total (has c) ps
has_in c ps i e =
    let one : same c c ≡ 1 = ground arith in
    omega (arith, total-set (has c) ps i (holding (some c)) idle e)

-- Two threads never have the same connection, whatever the order of their steps and whichever of
-- their waits fail, when no connection is twice in the list or with a thread at the beginning.
pub run_exclusive :
    (s s' : System) (ts : List Turn) (i j c d : ℕ)
    → ((e : ℕ) → copies e s ≤ 1)
    → run s ts ≡ some s'
    → i ≢ j
    → get_elem? s'.threads i ≡ some (holding (some c))
    → get_elem? s'.threads j ≡ some (holding (some d))
    → c ≢ d
run_exclusive s s' ts i j c d once ran ne ei ej cd =
    let few : copies c s' ≤ 1 = omega (arith, run-copies s s' ts c ran, once c) in
    let ej' : get_elem? (set s'.threads i idle) j ≡ some (holding (some c)) =
      get_elem?-set_ne s'.threads i j idle ne ∙ ej ∙ ap (λ z. some (holding (some z))) (sym cd) in
    omega (arith, few, has_in c s'.threads i ei, has_in c (set s'.threads i idle) j ej')

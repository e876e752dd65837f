-- ===== src/SqlPool/Inv.antt =====
-- What holds between the list, the counters and the semaphore of a pool that threads use.
use mathlib.Core.Option.{some-injective}
use cpp_server.Prelude.{
  ℕ, zero, suc, ◌+◌, ◌≡◌, refl, ap, ◌∙◌, none, some, List, [], ◌∷◌, ◌++◌, pos, negsuc, ◌+ℤ◌, arith,
  ◌==◌, if◌then◌else◌, length, get_elem?, false, set, length-append, Bool-cases, inl, inr, ◌<◌,
}
use cpp_server.SqlPool.{
  SqlPool, Phase, idle, checked, granted, returning, holding, System, Move, moves, blocks,
  take_connection, give_back, next_move,
}

-- The sum of `w` over the threads.
abbrev pub total : (Phase → ℕ) → List Phase → ℕ
total w [] = 0
total w (p ∷ ps) = w p + total w ps

pub total-set :
    (w : Phase → ℕ) (ps : List Phase) (i : ℕ) (p q : Phase)
    → get_elem? ps i ≡ some p
    → total w (set ps i q) + w p ≡ total w ps + w q
total-set w [] i p q e = absurd (cc)
total-set w (r ∷ ps) zero p q e =
    let same_weight : w r ≡ w p = ap w (some-injective _ _ e) in omega arith
total-set w (r ∷ ps) (suc i) p q e = let h = total-set w ps i p q e in omega arith

-- A thread that has passed `reserve.wait()` or has yet to post is owed a connection of the list.
abbrev pub owed : Phase → ℕ
owed idle = 0
owed checked = 0
owed granted = 1
owed returning = 1
owed (holding c) = 0

abbrev pub held : Phase → ℕ
held (holding (some c)) = 1
held (holding none) = 0
held idle = 0
held checked = 0
held granted = 0
held returning = 0

abbrev pub same : ℕ → ℕ → ℕ
same a b = if a == b then 1 else 0

-- How often a thread holds the connection `c`.
abbrev pub has : ℕ → Phase → ℕ
has c (holding (some d)) = same d c
has c (holding none) = 0
has c idle = 0
has c checked = 0
has c granted = 0
has c returning = 0

abbrev pub count : ℕ → List ℕ → ℕ
count c [] = 0
count c (d ∷ ds) = same d c + count c ds

pub count-append : (c : ℕ) (xs ys : List ℕ) → count c (xs ++ ys) ≡ count c xs + count c ys
count-append c [] ys = omega arith
count-append c (x ∷ xs) ys = omega (arith, count-append c xs ys)

pub record IsValid (s : System) : Type 0 where
  pub listed : s.pool.reserve + total owed s.threads ≡ length s.pool.conn_list
  pub counted_free : s.pool.free_conn ≡ pos (length s.pool.conn_list)
  pub counted_used : s.pool.cur_conn ≡ pos (total held s.threads)

-- How often the connection `c` is in the list or in the hands of a thread.
abbrev pub copies : ℕ → System → ℕ
copies c s = count c s.pool.conn_list + total (has c) s.threads

-- One step, in terms of the thread that takes it alone.
pub record Keeps (p p' : SqlPool) (ph ph' : Phase) : Type 0 where
  pub sem : p'.reserve + owed ph' + length p.conn_list ≡ p.reserve + owed ph + length p'.conn_list
  pub free_ok : p.free_conn ≡ pos (length p.conn_list) → p'.free_conn ≡ pos (length p'.conn_list)
  pub used_ok : (n : ℕ) → p.cur_conn ≡ pos (n + held ph) → p'.cur_conn ≡ pos (n + held ph')
  pub kept : (c : ℕ) → count c p'.conn_list + has c ph' ≡ count c p.conn_list + has c ph

-- A move that keeps all this, or none; never a fault.
pub data Safe (p : SqlPool) (ph : Phase) : Move → Type 0 where
  waits : Safe p ph blocks
  goes : {p' : SqlPool} {ph' : Phase} → Keeps p p' ph ph' → Safe p ph (moves p' ph')

one_less : (n : ℕ) → pos (suc n) +ℤ negsuc 0 ≡ pos n
unfolding ◌+ℤ◌
one_less n = ground arith

pub one_more : (n : ℕ) → pos n +ℤ pos 1 ≡ pos (n + 1)
unfolding ◌+ℤ◌
one_more n = ground arith

unchanged :
    (p : SqlPool) (ph ph' : Phase)
    → owed ph' ≡ owed ph
    → held ph' ≡ held ph
    → ((c : ℕ) → has c ph' ≡ has c ph)
    → Keeps p p ph ph'
unchanged p ph ph' eo eh ec = record {
  sem = omega arith;
  free_ok = λ e. e;
  used_ok = λ n e. e ∙ ap pos (omega arith);
  kept = λ c. omega (arith, ec c);
}

test-Safe : (p : SqlPool) → Safe p idle (next_move false p idle)
unfolding next_move
test-Safe p = elim (Bool-cases (0 == length p.conn_list)) [
  | inl none_left ↦ rw none_left (goes (unchanged p idle (holding none) refl refl λ c. refl))
  | inr some_left ↦ rw some_left (goes (unchanged p idle checked refl refl λ c. refl))
]

wait-Safe : (p : SqlPool) (n : ℕ) → p.reserve ≡ n → Safe p checked (next_move false p checked)
unfolding next_move
wait-Safe p zero e = rw (e, next_move) waits
wait-Safe p (suc n) e =
    rw (e, next_move)
      (goes (record { sem = omega arith; free_ok = λ h. h; used_ok = λ n h. h; kept = λ c. refl }))

take-Safe :
    (p : SqlPool) (cs : List ℕ)
    → p.conn_list ≡ cs
    → 0 < length cs
    → Safe p granted (next_move false p granted)
unfolding next_move take_connection
take-Safe p [] e lt = absurd (omega arith)
take-Safe p (c ∷ cs) e lt =
    rw (e, take_connection)
      (goes (record {
        sem = omega arith;
        free_ok = λ h. rw h (one_less (length cs));
        used_ok = λ n h. rw h (one_more (n + 0) ∙ ap pos (omega arith));
        kept = λ d. omega arith;
      }))

give-Safe : (p : SqlPool) (c : ℕ) → Safe p (holding (some c)) (next_move false p (holding (some c)))
unfolding next_move give_back
give-Safe p c = goes (record {
  sem = omega (arith, length-append p.conn_list (c ∷ []));
  free_ok = λ h.
      rw h (
        one_more (length p.conn_list) ∙ ap pos (omega (arith, length-append p.conn_list (c ∷ []))));
  used_ok =
      λ n h. rw h (ap (λ k. pos k +ℤ negsuc 0) (omega arith) ∙ one_less n ∙ ap pos (omega arith));
  kept = λ d. omega (arith, count-append d p.conn_list (c ∷ []));
})

post-Safe : (p : SqlPool) → Safe p returning (next_move false p returning)
unfolding next_move
post-Safe p =
    goes (record { sem = omega arith; free_ok = λ e. e; used_ok = λ n e. e; kept = λ c. refl })

leave-Safe : (p : SqlPool) → Safe p (holding none) (next_move false p (holding none))
unfolding next_move
leave-Safe p = goes (unchanged p (holding none) idle refl refl λ c. refl)

-- A thread that has passed `reserve.wait()` finds a connection as long as the list is not empty.
pub next_move-Safe :
    (p : SqlPool) (ph : Phase)
    → (ph ≡ granted → 0 < length p.conn_list)
    → Safe p ph (next_move false p ph)
next_move-Safe p idle h = test-Safe p
next_move-Safe p checked h = wait-Safe p p.reserve refl
next_move-Safe p granted h = take-Safe p p.conn_list refl (h refl)
next_move-Safe p returning h = post-Safe p
next_move-Safe p (holding none) h = leave-Safe p
next_move-Safe p (holding (some c)) h = give-Safe p c

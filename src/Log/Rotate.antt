-- ===== src/Log/Rotate.antt =====
-- The first locked part of `write_log`: the file of the day and of the number of lines.
use native.Mathlib.Nat.{
  mod-add-div, mul-add-div, div-eq_of_lt, mul-add-mod_self_left, mod-lt, mod_self, zero-div,
}
use mathlib.Core.Path.{subst}
use cpp_server.Prelude.{
  ℕ, zero, suc, ◌+◌, ◌*◌, ◌/◌, ◌%◌, ◌<◌, ◌≡◌, ◌≢◌, refl, sym, ap, ◌∙◌, some, Bool, true, List,
  arith, ◌==◌, Bool-cases, inl, inr, ==→eq, ==→ne, ne→==, ==_refl, if◌then◌else◌, ltb, ltb→lt,
  ltb→le,
}
use cpp_server.Http.State.{ok}
use cpp_server.Log.{Log, Time, date_prefix, day_file, split_file, reopen, split_log, rotate}

-- The name for the lines behind `k` times `split_lines` lines of a day.
abbrev pub file_for : Log → Time → ℕ → List ℕ
file_for s t zero = day_file s t
file_for s t (suc k) = split_file s t (suc k)

-- The open file is the one for the day and for the lines counted so far.
pub record Named (s : Log) (t : Time) : Type 0 where
  pub open_file : s.fp ≡ some (file_for s t (s.count / s.split_lines))
  pub day : s.today ≡ t.mday
  pub splits : 0 < s.split_lines

pub record SameDate (t u : Time) : Type 0 where
  pub same_year : t.year ≡ u.year
  pub same_mon : t.mon ≡ u.mon
  pub same_mday : t.mday ≡ u.mday

date_prefix-SameDate : (t u : Time) → SameDate t u → date_prefix t ≡ date_prefix u
unfolding date_prefix
date_prefix-SameDate t u e = rw (e.same_year, e.same_mon, e.same_mday) refl

file_for-SameDate : (s : Log) (t u : Time) (k : ℕ) → SameDate t u → file_for s t k ≡ file_for s u k
unfolding day_file split_file
file_for-SameDate s t u zero e = rw (date_prefix-SameDate t u e) refl
file_for-SameDate s t u (suc k) e = rw (date_prefix-SameDate t u e) refl

file_for-split : (s : Log) (t : Time) (k : ℕ) → 0 < k → file_for s t k ≡ split_file s t k
file_for-split s t zero lt = absurd (omega arith)
file_for-split s t (suc k) lt = refl

-- Where a count is not a multiple, its quotient is that of the count before it.
div_stays : (c n : ℕ) → 0 < n → (c + 1) % n ≢ 0 → (c + 1) / n ≡ c / n
div_stays c n lt ne =
    let r = c % n in
    let next : n * (c / n) + (r + 1) ≡ c + 1 = omega (arith, mod-add-div c n) in
    elim (Bool-cases (ltb (c % n + 1) n)) [
      | inl below ↦
          ap (λ z. z / n) (sym next)
          ∙ mul-add-div lt (c / n) (r + 1)
          ∙ omega (arith, div-eq_of_lt {n = r + 1} {m = n} (omega (arith, ltb→lt _ _ below)))
      | inr last ↦ absurd (
          ne (
            ap (λ z. z % n) (sym next)
            ∙ mul-add-mod_self_left n (c / n) (r + 1)
            ∙ ap (λ z. z % n) (omega (arith, ltb→le _ _ last, mod-lt c lt))
            ∙ mod_self n))
    ]

div_grows : (c n : ℕ) → 0 < n → (c + 1) % n ≡ 0 → 0 < (c + 1) / n
div_grows c n lt e = elim (Bool-cases (ltb 0 ((c + 1) / n))) [
  | inl above ↦ ltb→lt _ _ above
  | inr none_yet ↦
      let none_at : (c + 1) / n ≡ 0 = omega (arith, ltb→le _ _ none_yet) in
      absurd (omega (arith, mod-add-div (c + 1) n, ap (λ z. n * z) none_at))
]

-- What `rotate` does not change.
pub record Rotated (s s' : Log) : Type 0 where
  pub rest : s' ≡ record s { fp = s'.fp; count = s'.count; today = s'.today }

abbrev pub AllOpen : (List ℕ → Bool) → Type 0
AllOpen opens = (name : List ℕ) → opens name ≡ true

abbrev Moves : (List ℕ → Bool) → Time → Log → ℕ → Type 0
Moves opens t s n =
    (s' : Log) × (rotate opens t s ≡ ok s') × Named s' t × (s'.count ≡ n) × Rotated s s'

next_day :
    (opens : List ℕ → Bool) (s : Log) (t0 t : Time)
    → AllOpen opens
    → Named s t0
    → t0.mday ≢ t.mday
    → Moves opens t s 0
unfolding rotate reopen day_file
next_day opens s t0 t all k ne = (
  record s { count = 0; today = t.mday; fp = some (day_file s t) },
  rw (ne→== s.today t.mday (λ e. ne (sym k.day ∙ e)), rotate)
      (rw (k.open_file, reopen) (rw all refl)),
  record { open_file = rw (zero-div s.split_lines) refl; day = refl; splits = k.splits },
  refl,
  record { rest = refl },
)

same_day :
    (opens : List ℕ → Bool) (s : Log) (t0 t : Time)
    → AllOpen opens
    → Named s t0
    → SameDate t0 t
    → Moves opens t s (s.count + 1)
unfolding rotate split_log reopen split_file day_file
same_day opens s t0 t all k same =
    let n = s.split_lines in
    let today_is : s.today ≡ t.mday = k.day ∙ same.same_mday in
    let still = subst (λ z. (s.today == z) ≡ true) today_is (==_refl s.today) in
    let divides = ne→== n 0 (omega (arith, k.splits)) in
    elim (Bool-cases (((s.count + 1) % n) == 0)) [
      | inl full ↦
          let name = split_file s t ((s.count + 1) / n) in
          (
            record s { count = s.count + 1; fp = some name },
            rw (still, rotate)
                (rw (divides, split_log) (rw full (rw (k.open_file, reopen) (rw all refl)))),
            record {
              open_file = ap some (
                  sym (
                    file_for-split s t ((s.count + 1) / n)
                      (div_grows s.count n k.splits (==→eq _ _ full))));
              day = today_is;
              splits = k.splits;
            },
            refl,
            record { rest = refl },
          )
      | inr more ↦ (
        record s { count = s.count + 1 },
        rw (still, rotate) (rw (divides, split_log) (rw more refl)),
        record {
          open_file =
              k.open_file
              ∙ ap some (
                  file_for-SameDate s t0 t (s.count / n) same
                  ∙ ap (file_for s t) (sym (div_stays s.count n k.splits (==→ne _ _ more))));
          day = today_is;
          splits = k.splits;
        },
        refl,
        record { rest = refl },
      )
    ]

-- Where the open file is the one that belongs to the last day and to the lines counted on it, a
-- condition that `init` alone does not establish, where `fopen` succeeds, and where the day of the
-- new line is the last one if it has its number in the month: `rotate` leaves the file open that
-- belongs to the day of the new line and to the lines counted on it. It goes on to the next file
-- after `split_lines` lines and counts from 0 on a new day. Nothing else changes.
pub rotate-Named :
    (opens : List ℕ → Bool) (s : Log) (t0 t : Time)
    → AllOpen opens
    → Named s t0
    → (t0.mday ≡ t.mday → SameDate t0 t)
    → (s' : Log) × (rotate opens t s ≡ ok s')
      × Named s' t
      × (s'.count ≡ (if t0.mday == t.mday then s.count + 1 else 0))
      × Rotated s s'
rotate-Named opens s t0 t all k same = elim (Bool-cases (t0.mday == t.mday)) [
  | inl eq ↦ rw eq (same_day opens s t0 t all k (same (==→eq _ _ eq)))
  | inr ne ↦ rw ne (next_day opens s t0 t all k (==→ne _ _ ne))
]

-- With or without a new file there is a file open behind `rotate`, while `fopen` succeeds.
pub rotate_opens :
    (opens : List ℕ → Bool) (t : Time) (s : Log)
    → AllOpen opens
    → (name : List ℕ) × (s.fp ≡ some name)
    → 0 < s.split_lines
    → (s' : Log) × (name : List ℕ) × (rotate opens t s ≡ ok s') × (s'.fp ≡ some name) × Rotated s s'
unfolding rotate split_log reopen
rotate_opens opens t s all (old, e) lt = elim (Bool-cases (s.today == t.mday)) [
  | inr other ↦
      let name = day_file (record s { count = s.count + 1 }) t in
      (
        record s { count = 0; today = t.mday; fp = some name },
        name,
        simp (other, e, all, rotate, reopen) refl,
        refl,
        record { rest = refl },
      )
  | inl same ↦ elim (Bool-cases (((s.count + 1) % s.split_lines) == 0)) [
    | inl full ↦
        let name =
          split_file (record s { count = s.count + 1 }) t ((s.count + 1) / s.split_lines) in
        (
          record s { count = s.count + 1; fp = some name },
          name,
          simp (same, ne→== s.split_lines 0 (omega arith), full, e, all, rotate, split_log, reopen)
              refl,
          refl,
          record { rest = refl },
        )
    | inr more ↦ (
      record s { count = s.count + 1 },
      old,
      simp (same, ne→== s.split_lines 0 (omega arith), more, rotate, split_log) refl,
      e,
      record { rest = refl },
    )
  ]
]

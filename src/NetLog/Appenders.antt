-- ===== src/NetLog/Appenders.antt =====
-- A logger and its appenders.
use cpp_server.Prelude.{
  ℕ, ◌≤◌, ◌≡◌, refl, sym, ap, ◌∙◌, true, false, some, List, [], ◌∷◌, leb, ◌==◌, if◌then◌else◌,
  Bool-cases, inl, inr, ==→eq, le→leb, ==_refl,
}
use cpp_server.Http.State.{ok}
use cpp_server.NetLog.{
  Level, rank, Formatter, Target, Appender, Store, put, Logger, with_formatter, give_formatter,
  set_log_formatter, format, append_log, log_all, log,
}

-- No appender has a formatter of its own: nothing ever sets the flag.
abbrev pub NoneOwn : Store → Type 0
NoneOwn st = (i : ℕ) → (st i).has_formatter ≡ false

-- What `b` may differ in from `a`: the formatter, which is `f` where `a`'s was `f`.
record Given (f : Formatter) (a b : Appender) : Type 0 where
  same_target : b.target ≡ a.target
  same_level : b.level ≡ a.level
  same_flag : b.has_formatter ≡ a.has_formatter
  stays : a.formatter ≡ some f → b.formatter ≡ some f

put-Given :
    (f : Formatter) (st : Store) (i j : ℕ)
    → NoneOwn st
    → Given f (st j) (put st i (with_formatter (some f) (st i)) j)
put-Given f st i j own = elim (Bool-cases (j == i)) [
  | inl same ↦
      let e = ==→eq j i same in
      rw (same, own i)
        record {
          same_target = ap (λ k. (st k).target) (sym e);
          same_level = ap (λ k. (st k).level) (sym e);
          same_flag = sym (own j);
          stays = λ h. refl;
        }
  | inr other ↦
      rw other record { same_target = refl; same_level = refl; same_flag = refl; stays = λ h. h }
]

Given-trans : {f : Formatter} {a b c : Appender} → Given f a b → Given f b c → Given f a c
Given-trans g h = record {
  same_target = h.same_target ∙ g.same_target;
  same_level = h.same_level ∙ g.same_level;
  same_flag = h.same_flag ∙ g.same_flag;
  stays = λ e. h.stays (g.stays e);
}

give_formatter-Given :
    (f : Formatter) (is : List ℕ) (st : Store) (j : ℕ)
    → NoneOwn st
    → Given f (st j) (give_formatter (some f) is st j)
unfolding give_formatter
give_formatter-Given f [] st j own = record {
  same_target = refl;
  same_level = refl;
  same_flag = refl;
  stays = λ h. h;
}
give_formatter-Given f (i ∷ is) st j own =
    let st1 = put st i (with_formatter (some f) (st i)) in
    Given-trans (put-Given f st i j own)
      (give_formatter-Given f is st1 j (λ k. (put-Given f st i k own).same_flag ∙ own k))

-- All numbers of the list satisfy `P`.
abbrev pub All : (ℕ → Type 0) → List ℕ → Type 0
All P [] = Unit
All P (i ∷ is) = P i × All P is

put_self :
    (f : Formatter) (st : Store) (i : ℕ)
    → NoneOwn st
    → (put st i (with_formatter (some f) (st i)) i).formatter ≡ some f
put_self f st i own = rw (==_refl i, own i) refl

give_formatter-All :
    (f : Formatter) (is : List ℕ) (st : Store)
    → NoneOwn st
    → All (λ i. (give_formatter (some f) is st i).formatter ≡ some f) is
unfolding give_formatter
give_formatter-All f [] st own = tt
give_formatter-All f (i ∷ is) st own =
    let st1 = put st i (with_formatter (some f) (st i)) in
    let own1 : NoneOwn st1 = λ k. (put-Given f st i k own).same_flag ∙ own k in
    (
      (give_formatter-Given f is st1 i own1).stays (put_self f st i own),
      give_formatter-All f is st1 own1,
    )

-- One empty string for each appender of the list that takes the level, in the order of the list.
abbrev pub empties : Store → Level → List ℕ → List (Target × List ℕ)
empties st level [] = []
empties st level (i ∷ is) =
    let more = empties st level is in
    if leb (rank (st i).level) (rank level) then ((st i).target, []) ∷ more else more

append_log-takes :
    (f : Formatter) (a b : Appender) (level : Level)
    → Given f a b
    → b.formatter ≡ some f
    → leb (rank a.level) (rank level) ≡ true
    → append_log b level ≡ ok ((a.target, []) ∷ [])
unfolding append_log format
append_log-takes f a b level g e takes =
    let takes' = ap (λ l. leb (rank l) (rank level)) g.same_level ∙ takes in
    rw (takes', append_log) (simp e (ap (λ t. ok ((t, []) ∷ [])) g.same_target))

append_log-passes :
    (f : Formatter) (a b : Appender) (level : Level)
    → Given f a b
    → leb (rank a.level) (rank level) ≡ false
    → append_log b level ≡ ok []
unfolding append_log
append_log-passes f a b level g passes =
    rw (ap (λ l. leb (rank l) (rank level)) g.same_level ∙ passes, append_log) refl

log_all-empties :
    (f : Formatter) (st st' : Store) (level : Level) (is : List ℕ)
    → All (λ i. (st' i).formatter ≡ some f) is
    → ((i : ℕ) → Given f (st i) (st' i))
    → log_all st' level is ≡ ok (empties st level is)
log_all-empties f st st' level [] a g = refl
log_all-empties f st st' level (i ∷ is) a g =
    let rest = log_all-empties f st st' level is a.1 g in
    elim (Bool-cases (leb (rank (st i).level) (rank level))) [
      | inl takes ↦ rw (takes, append_log-takes f (st i) (st' i) level (g i) a.0 takes, rest) refl
      | inr passes ↦ rw (passes, append_log-passes f (st i) (st' i) level (g i) passes, rest) refl
    ]

-- After `setLogFormatter` the logger's formatter replaces that of every appender, one that had been
-- given to the appender itself included, since nothing sets the flag that would spare it; and a call
-- at a level that the logger takes writes the empty string to each of its appenders that takes the
-- level, in their order, instead of the event.
pub log-set_log_formatter :
    (l : Logger) (st : Store) (f : Formatter) (level : Level)
    → NoneOwn st
    → rank l.level ≤ rank level
    → All (λ i. ((set_log_formatter l st (some f)).1 i).formatter ≡ some f) l.appenders
      × (log (set_log_formatter l st (some f)).0 (set_log_formatter l st (some f)).1 level
          ≡ ok (empties st level l.appenders))
unfolding set_log_formatter log
log-set_log_formatter l st f level own le =
    let all = give_formatter-All f l.appenders st own in
    let st' = give_formatter (some f) l.appenders st in
    (
      all,
      rw (le→leb _ _ le) (
          log_all-empties f st st' level l.appenders all
            (λ j. give_formatter-Given f l.appenders st j own)),
    )

-- ===== src/Http/Ends.antt =====
-- The rules by which a chain of calls is shown to end: it never runs out of the rounds that the
-- model gives its loops.
use cpp_server.Prelude.{◌≢◌, Bool, true, false, Option, none, some, if◌then◌else◌}
use cpp_server.Http.State.{Run, ok, undefined, out_of_fuel, ◌>>=◌, or_undefined, require}

-- A call that comes to a value that meets `P`, or to undefined behaviour.
pub data Ends {A : Type 0} (P : A → Type 0) : Run A → Type 0 where
  value : {a : A} → P a → Ends P (ok a)
  undef : Ends P undefined

abbrev pub IsDone : {A : Type 0} → Run A → Type 0
IsDone = Ends (λ _. Unit {0})

pub not-out_of_fuel : {A : Type 0} {P : A → Type 0} {m : Run A} → Ends P m → m ≢ out_of_fuel
not-out_of_fuel (value p) e = cc
not-out_of_fuel undef e = cc

pub bind :
    {A B : Type 0} {P : A → Type 0} {Q : B → Type 0} {m : Run A} {f : A → Run B}
    → Ends P m
    → ((a : A) → P a → Ends Q (f a))
    → Ends Q (m >>= f)
bind (value p) k = k _ p
bind undef k = undef

pub or_undefined-Ends : {A : Type 0} (o : Option A) → IsDone (or_undefined o)
or_undefined-Ends none = undef
or_undefined-Ends (some a) = value tt

pub require-Ends : (b : Bool) → IsDone (require b)
require-Ends true = value tt
require-Ends false = undef

pub if-Ends :
    {A : Type 0} {P : A → Type 0} (b : Bool) {x y : Run A}
    → Ends P x
    → Ends P y
    → Ends P (if b then x else y)
if-Ends true h k = h
if-Ends false h k = k

pub and_then :
    {A B : Type 0} {Q : B → Type 0} {m : Run A} {f : A → Run B}
    → IsDone m
    → ((a : A) → Ends Q (f a))
    → Ends Q (m >>= f)
and_then (value p) k = k _
and_then undef k = undef

pub option_elim-Ends :
    {A B : Type 0} {Q : B → Type 0} (o : Option A) {x : Run B} {f : A → Run B}
    → Ends Q x
    → ((a : A) → Ends Q (f a))
    → Ends Q (elim o [ none ↦ x | some a ↦ f a ])
option_elim-Ends none h k = h
option_elim-Ends (some a) h k = k a

pub done : {A : Type 0} (a : A) → IsDone (ok a)
done a = value tt

pub ruleset ends = (and_then, done, or_undefined-Ends, require-Ends, if-Ends, option_elim-Ends)

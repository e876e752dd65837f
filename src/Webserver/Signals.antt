-- ===== src/Webserver/Signals.antt =====
-- Signals and trigger modes.
use cpp_server.Prelude.{
  ℕ, ◌+◌, ◌*◌, ◌<◌, ◌≡◌, refl, ◌∙◌, inl, inr, ◌⊎◌, Bool, true, false, List, [], ◌∷◌, arith, ◌==◌,
  Bool-cases, ◌||◌,
}
use cpp_server.Webserver.{Server, set_trig_mode}
use cpp_server.Webserver.Loop.{Flags, take_signals}

-- Whether the byte is among the signals.
abbrev pub has : ℕ → List ℕ → Bool
has sig [] = false
has sig (b ∷ bs) = (b == sig) || has sig bs

or_true : (a b : Bool) → (true || b) ≡ (a || (true || b))
or_true true b = refl
or_true false b = refl

-- The flags behind a list of signals: each is set where it was, or where its signal is in the list,
-- whatever else is there and in whatever order.
pub take_signals-has :
    (sigs : List ℕ) (fl : Flags)
    → ((take_signals sigs fl).timeout ≡ (fl.timeout || has 14 sigs))
      × ((take_signals sigs fl).stop_server ≡ (fl.stop_server || has 15 sigs))
unfolding take_signals
take_signals-has [] fl = ground arith
take_signals-has (b ∷ bs) fl = elim (Bool-cases (b == 14)) [
  | inl alarm ↦
      let ih = take_signals-has bs (record fl { timeout = true }) in
      let other : (b == 15) ≡ false = ground arith in
      rw (alarm, other, take_signals) (ih.0 ∙ or_true fl.timeout (has 14 bs), ih.1)
  | inr no_alarm ↦ elim (Bool-cases (b == 15)) [
    | inl term ↦
        let ih = take_signals-has bs (record fl { stop_server = true }) in
        rw (no_alarm, term, take_signals) (ih.0, ih.1 ∙ or_true fl.stop_server (has 15 bs))
    | inr other ↦ rw (no_alarm, other, take_signals) (take_signals-has bs fl)
  ]
]

-- For the four modes of the configuration, the mode is twice the listener's trigger and the
-- connections' trigger; any other mode changes neither.
pub set_trig_mode-digits :
    (s : Server)
    → (s.trig_mode < 4
        → s.trig_mode ≡ 2 * (set_trig_mode s).listen_trig + (set_trig_mode s).conn_trig)
      × ((set_trig_mode s ≡ s) ⊎ (s.trig_mode < 4))
unfolding set_trig_mode
set_trig_mode-digits s = ground arith

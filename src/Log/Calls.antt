-- ===== src/Log/Calls.antt =====
-- The steps of a thread in a call of `write_log`, and what each does to the lines.
use mathlib.Core.List.{append_assoc, Perm}
use mathlib.Core.List.Perm
use mathlib.Core.Path.{subst}
use cpp_server.Prelude.{
  ℕ, ◌+◌, ◌<◌, ◌≤◌, ◌≡◌, Bool, ℤ, refl, sym, ap, ◌∙◌, some, List, [], ◌∷◌, ◌++◌, arith, length,
  length-append, leb, Bool-cases, inl, inr, leb→le, append_nil,
}
use cpp_server.Http.State.{ok}
use cpp_server.Log.{Log, Time, rotate}
use cpp_server.Log.Format.{Fits, line_of, format_line-Fits}
use cpp_server.Log.Rotate.{AllOpen, rotate_opens}
use cpp_server.Log.Deliver.{
  lines, strings, in_hand, full_of, leb→lt, push_line-room, fputs_at, strings-append,
}
use cpp_server.Log.Thread.{
  Stage, resting, opened, printed, has_room, no_room, advance, test_room, Call, async_step,
}
use cpp_server.Log.Writes.{Ready, Line, Queues-same, to_end}
use cpp_server.Log.Drains.{drain-Steps}

abbrev pub call_line : Call → Line
call_line k = line_of k.time k.level k.text

-- The line of a call that has not come to its end.
abbrev pub pending : Stage → List Line
pending resting = []
pending (opened t level text) = line_of t level text ∷ []
pending (printed line) = line ∷ []
pending (has_room line) = line ∷ []
pending (no_room line) = line ∷ []

-- What a thread in a call knows: its text fits; or the queue has room, as nobody else fills it; or
-- the queue was full with the `n` lines that there were.
abbrev pub Knows : ℕ → ℕ → ℕ → ℕ → Stage → Type 0
Knows size m n len resting = Unit
Knows size m n len (opened t level text) = Fits size t level text
Knows size m n len (printed line) = Unit
Knows size m n len (has_room line) = len < m
Knows size m n len (no_room line) = m ≤ n

-- The lines of the calls that have come to their end have joined the `old` ones, of which `n` were in
-- the queue: anywhere, and in the order of the calls where the queue of `m` places has had room.
pub record At (size m n : ℕ) (old : List Line) (s : Log) (st : Stage) (finished vs : List Line)
    : Type 0 where
  pub ready : Ready s size m vs
  pub none_lost : Perm (lines s vs) (old ++ finished)
  pub in_order : n + length finished ≤ m → lines s vs ≡ old ++ finished
  pub longest : length vs ≤ n + length finished
  pub knows : Knows size m (n + length finished) (length vs) st

fewer :
    (size m n len len' : ℕ) (st : Stage)
    → len' ≤ len
    → Knows size m n len st
    → Knows size m n len' st
fewer size m n len len' resting le k = tt
fewer size m n len len' (opened t level text) le k = k
fewer size m n len len' (printed line) le k = tt
fewer size m n len len' (has_room line) le k = omega arith
fewer size m n len len' (no_room line) le k = k

module _ (size m n : ℕ) (old : List Line) where
  -- The same lines in the same places.
  moves-At :
      (s s' : Log) (st st' : Stage) (fin vs : List Line)
      → At size m n old s st fin vs
      → Ready s' size m vs
      → lines s' vs ≡ lines s vs
      → Knows size m (n + length fin) (length vs) st'
      → At size m n old s' st' fin vs
  moves-At s s' st st' fin vs a r same k = record {
    ready = r;
    none_lost = subst (λ z. Perm z (old ++ fin)) (sym same) a.none_lost;
    in_order = λ le. same ∙ a.in_order le;
    longest = a.longest;
    knows = k;
  }

  pub drain-At :
      (s : Log) (st : Stage) (fin vs : List Line)
      → At size m n old s st fin vs
      → (s' : Log) × (vs' : List Line) × (async_step s ≡ ok s') × At size m n old s' st fin vs'
  drain-At s st fin vs a =
      let d = drain-Steps s size m vs a.ready in
      let few : length d.waiting ≤ length vs = omega (arith, d.longest) in
      let all = append_nil (lines s vs) in
      (
        d.after,
        d.waiting,
        d.goes,
        record {
          ready = d.ready;
          none_lost =
              Perm.trans (subst (λ z. Perm (lines d.after d.waiting) z) all d.joins.0) a.none_lost;
          in_order = λ le. d.joins.1 (omega (arith, a.longest)) ∙ all ∙ a.in_order le;
          longest = omega (arith, a.longest);
          knows = fewer size m _ _ _ st few a.knows;
        },
      )

  -- The first locked part.
  pub rotate-At :
      (opens : List ℕ → Bool) (k : Call) (s : Log) (fin vs : List Line)
      → AllOpen opens
      → Fits size k.time k.level k.text
      → At size m n old s resting fin vs
      → (s' : Log) × (rotate opens k.time s ≡ ok s')
        × At size m n old s' (opened k.time k.level k.text) fin vs
  rotate-At opens k s fin vs all fits a =
      let r = a.ready in
      let (s', name, e, file, k1) = rotate_opens opens k.time s all r.open_file r.splits in
      let ready' : Ready s' size m vs = record {
        open_file = (name, file);
        splits = subst (λ z. 0 < z) (sym (ap (λ z. z.split_lines) k1.rest)) r.splits;
        buffer = ap (λ z. length z.buf) k1.rest ∙ r.buffer ∙ sym (ap (λ z. z.log_buf_size) k1.rest);
        sized = ap (λ z. z.log_buf_size) k1.rest ∙ r.sized;
        queues =
            Queues-same s s' m vs (ap (λ z. z.is_async) k1.rest) (ap (λ z. z.log_queue) k1.rest)
              r.queues;
      } in
      (s', e, moves-At s s' resting _ fin vs a ready' (ap (λ z. lines z vs) k1.rest) fits)

  -- The line has been put into the queue or into the file.
  joins-At :
      (s s' : Log) (st : Stage) (fin vs vs' : List Line) (line : Line)
      → At size m n old s st fin vs
      → Ready s' size m vs'
      → Perm (lines s' vs') (lines s vs ++ line ∷ [])
      → (n + length fin + 1 ≤ m → lines s' vs' ≡ lines s vs ++ line ∷ [])
      → length vs' ≤ length vs + 1
      → At size m n old s' resting (fin ++ line ∷ []) vs'
  joins-At s s' st fin vs vs' line a r all order few =
      let len = length-append fin (line ∷ []) in
      let assoc = append_assoc old fin (line ∷ []) in
      record {
        ready = r;
        none_lost =
            subst (λ z. Perm (lines s' vs') z) assoc
              (Perm.trans all (Perm.append_right (line ∷ []) a.none_lost));
        in_order = λ le.
            order (omega (arith, len))
            ∙ ap (λ z. z ++ line ∷ []) (a.in_order (omega (arith, len)))
            ∙ assoc;
        longest = omega (arith, len, a.longest);
        knows = tt;
      }

  pub print-At :
      (t : Time) (level : ℤ) (text : List ℕ) (s : Log) (fin vs : List Line)
      → At size m n old s (opened t level text) fin vs
      → (s' : Log) × (advance (opened t level text) s ≡ ok (printed (line_of t level text), s'))
        × At size m n old s' (printed (line_of t level text)) fin vs
  unfolding advance
  print-At t level text s fin vs a =
      let r = a.ready in
      let fits = subst (λ z. Fits z t level text) (sym r.sized) a.knows in
      let (b, e, len) = format_line-Fits s t level text r.buffer fits in
      let s' : Log = record s { buf = b } in
      let ready' : Ready s' size m vs = record {
        open_file = r.open_file;
        splits = r.splits;
        buffer = len;
        sized = r.sized;
        queues = Queues-same s s' m vs refl refl r.queues;
      } in
      (s', rw (e, advance) refl, moves-At s s' _ _ fin vs a ready' refl tt)

  pub test-At :
      (line : Line) (s : Log) (fin vs : List Line)
      → At size m n old s (printed line) fin vs
      → (st : Stage) × (advance (printed line) s ≡ ok (st, s))
        × (pending st ≡ line ∷ [])
        × At size m n old s st fin vs
  unfolding advance test_room
  test-At line s fin vs a =
      let k = a.ready.queues in
      elim (Bool-cases (leb k.queue.max_size (length vs))) [
        | inl full ↦ (
          no_room line,
          simp (k.async, k.queue_at, full_of k.holds ∙ full, advance, test_room) refl,
          refl,
          moves-At s s _ _ fin vs a a.ready refl
              (omega (arith, leb→le _ _ full, k.places, a.longest)),
        )
        | inr room ↦ (
          has_room line,
          simp (k.async, k.queue_at, full_of k.holds ∙ room, advance, test_room) refl,
          refl,
          moves-At s s _ _ fin vs a a.ready refl (omega (arith, leb→lt _ _ room, k.places)),
        )
      ]

  pub push-At :
      (line : Line) (s : Log) (fin vs : List Line)
      → At size m n old s (has_room line) fin vs
      → (s' : Log) × (vs' : List Line) × (advance (has_room line) s ≡ ok (resting, s'))
        × At size m n old s' resting (fin ++ line ∷ []) vs'
  unfolding advance
  push-At line s fin vs a =
      let r = a.ready in
      let (q', e, k) = push_line-room s m vs line r.queues a.knows in
      let s' : Log = record s { log_queue = some q' } in
      let ready' : Ready s' size m (vs ++ line ∷ []) = record {
        open_file = r.open_file;
        splits = r.splits;
        buffer = r.buffer;
        sized = r.sized;
        queues = k;
      } in
      let same : lines s' (vs ++ line ∷ []) ≡ lines s vs ++ line ∷ [] = simp append_assoc refl in
      (
        s',
        vs ++ line ∷ [],
        rw (e, advance) refl,
        joins-At s s' _ fin vs _ line a ready'
            (subst (λ z. Perm (lines s' (vs ++ line ∷ [])) z) same Perm.rfl) (λ le. same)
            (omega (arith, length-append vs (line ∷ []))),
      )

  pub file-At :
      (line : Line) (s : Log) (fin vs : List Line)
      → At size m n old s (no_room line) fin vs
      → (s' : Log) × (advance (no_room line) s ≡ ok (resting, s'))
        × At size m n old s' resting (fin ++ line ∷ []) vs
  unfolding advance
  file-At line s fin vs a =
      let r = a.ready in
      let (name, file) = r.open_file in
      let s' : Log = record s { disk = s.disk ++ (name, line) ∷ [] } in
      let ready' : Ready s' size m vs = record {
        open_file = r.open_file;
        splits = r.splits;
        buffer = r.buffer;
        sized = r.sized;
        queues = Queues-same s s' m vs refl refl r.queues;
      } in
      let rest = in_hand s.single_log ++ vs in
      let split : lines s' vs ≡ strings s.disk ++ (line ∷ rest) =
        ap (λ z. z ++ rest) (strings-append s.disk ((name, line) ∷ []))
        ∙ append_assoc (strings s.disk) (line ∷ []) rest in
      let all : Perm (lines s' vs) (lines s vs ++ line ∷ []) =
        subst (λ z. Perm z (lines s vs ++ line ∷ [])) (sym split)
          (subst (λ z. Perm (strings s.disk ++ (line ∷ rest)) z)
            (sym (append_assoc (strings s.disk) rest (line ∷ [])))
            (Perm.append_left (strings s.disk) (to_end rest line))) in
      (
        s',
        rw (fputs_at s name line file, advance) refl,
        joins-At s s' _ fin vs vs line a ready' all (λ le. absurd (omega (arith, a.knows)))
            (omega arith),
      )

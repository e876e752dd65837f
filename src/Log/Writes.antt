-- ===== src/Log/Writes.antt =====
-- A call of `write_log` in asynchronous mode: where its line goes.
use mathlib.Core.List.{append_assoc, Perm, perm_append_singleton}
use mathlib.Core.List.Perm
use mathlib.Core.Path.{subst}
use cpp_server.Prelude.{
  ℕ, ◌+◌, Bool, ◌≤◌, ◌<◌, ◌≡◌, sym, ap, ◌∙◌, some, List, [], ◌∷◌, ◌++◌, ℤ, arith, length,
  length-append, inl, inr,
}
use cpp_server.Http.State.{Run, ok}
use cpp_server.Log.{Log, Time, write_log}
use cpp_server.Log.Format.{HasBuffer, Fits, line_of, format_line-Fits}
use cpp_server.Log.Rotate.{AllOpen, rotate_opens}
use cpp_server.Log.Deliver.{Queues, Taken, in_hand, strings, lines, deliver-Taken}

-- A log in asynchronous mode with a file open, and `vs` in its queue of `m` places.
pub record Ready (s : Log) (size m : ℕ) (vs : List (List ℕ)) : Type 0 where
  pub open_file : (name : List ℕ) × (s.fp ≡ some name)
  pub splits : 0 < s.split_lines
  pub buffer : HasBuffer s
  pub sized : s.log_buf_size ≡ size
  pub queues : Queues s m vs

abbrev pub Line : Type 0
Line = List ℕ

-- `new` joins `old` anywhere, and at the end where the queue has room.
abbrev pub Joins : ℕ → ℕ → List Line → List Line → List Line → Type 0
Joins len m all old new = Perm all (old ++ new) × (len + length new ≤ m → all ≡ old ++ new)

pub to_end : (w : List Line) (line : Line) → Perm (line ∷ w) (w ++ line ∷ [])
to_end w line = Perm.symm (perm_append_singleton line w)

in_queue :
    (d d' h vs vs' : List Line) (line : Line) (m : ℕ)
    → vs' ≡ vs ++ line ∷ []
    → d' ≡ d
    → Joins (length vs) m (d' ++ (h ++ vs')) (d ++ (h ++ vs)) (line ∷ [])
in_queue d d' h vs vs' line m ev ed =
    let same : d' ++ (h ++ vs') ≡ (d ++ (h ++ vs)) ++ line ∷ [] = rw (ev, ed) (simp append_assoc) in
    (subst (λ z. Perm (d' ++ (h ++ vs')) z) same Perm.rfl, λ _. same)

in_file :
    (d d' h vs vs' : List Line) (line : Line) (m : ℕ)
    → m ≤ length vs
    → vs' ≡ vs
    → d' ≡ d ++ line ∷ []
    → Joins (length vs) m (d' ++ (h ++ vs')) (d ++ (h ++ vs)) (line ∷ [])
in_file d d' h vs vs' line m full ev ed = (
  rw (ev, ed, append_assoc d (line ∷ []) (h ++ vs), append_assoc d (h ++ vs) (line ∷ []))
      (Perm.append_left d (to_end (h ++ vs) line)),
  λ le. absurd (omega arith),
)

Taken-Joins :
    (s s' : Log) (m : ℕ) (vs vs' : List Line) (line : Line)
    → s'.single_log ≡ s.single_log
    → Taken s s' m vs vs' line
    → Joins (length vs) m (lines s' vs') (lines s vs) (line ∷ []) × (length vs' ≤ length vs + 1)
Taken-Joins s s' m vs vs' line hand (inl (room, ev, ed)) = (
  rw hand (in_queue (strings s.disk) _ (in_hand s.single_log) vs vs' line m ev (ap strings ed)),
  omega (arith, ap length ev, length-append vs (line ∷ [])),
)
Taken-Joins s s' m vs vs' line hand (inr (full, ev, ed)) = (
  rw hand (in_file (strings s.disk) _ (in_hand s.single_log) vs vs' line m full ev ed),
  omega (arith, ap length ev),
)

pub Queues-same :
    (s s' : Log) (m : ℕ) (vs : List Line)
    → s'.is_async ≡ s.is_async
    → s'.log_queue ≡ s.log_queue
    → Queues s m vs
    → Queues s' m vs
Queues-same s s' m vs ea eq k = record {
  async = ea ∙ k.async;
  queue = k.queue;
  queue_at = eq ∙ k.queue_at;
  holds = k.holds;
  places = k.places;
}

Taken-same :
    (s s1 s' : Log) (m : ℕ) (vs vs' : List Line) (line : Line)
    → s1.disk ≡ s.disk
    → Taken s1 s' m vs vs' line
    → Taken s s' m vs vs' line
Taken-same s s1 s' m vs vs' line e (inl (room, ev, ed)) = inl (room, ev, ed ∙ e)
Taken-same s s1 s' m vs vs' line e (inr (full, ev, ed)) =
    inr (full, ev, ed ∙ ap (λ z. strings z ++ line ∷ []) e)

-- What a step or several leave.
pub record Steps (s : Log) (vs : List Line) (r : Run Log) (size m : ℕ) (new : List Line)
    : Type 0 where
  pub after : Log
  pub waiting : List Line
  pub goes : r ≡ ok after
  pub ready : Ready after size m waiting
  pub joins : Joins (length vs) m (lines after waiting) (lines s vs) new
  pub longest : length waiting ≤ length vs + length new

pub write-Steps :
    (opens : List ℕ → Bool) (s : Log) (t : Time) (level : ℤ) (text : List ℕ) (size m : ℕ)
    (vs : List Line)
    → AllOpen opens
    → Ready s size m vs
    → Fits size t level text
    → Steps s vs (write_log opens ok t level text s) size m (line_of t level text ∷ [])
unfolding write_log
write-Steps opens s t level text size m vs all r fits =
    let (s1, name, e1, file, k1) = rotate_opens opens t s all r.open_file r.splits in
    let sized1 : s1.log_buf_size ≡ size = ap (λ z. z.log_buf_size) k1.rest ∙ r.sized in
    let buffer1 : HasBuffer s1 =
      ap (λ z. length z.buf) k1.rest ∙ r.buffer ∙ sym (ap (λ z. z.log_buf_size) k1.rest) in
    let fits1 = subst (λ z. Fits z t level text) (sym sized1) fits in
    let (b, e2, len) = format_line-Fits s1 t level text buffer1 fits1 in
    let s2 : Log = record s1 { buf = b } in
    let q2 =
      Queues-same s s2 m vs (ap (λ z. z.is_async) k1.rest) (ap (λ z. z.log_queue) k1.rest)
        r.queues in
    let (s3, vs', e3, q3, taken, k3) = deliver-Taken s2 name (line_of t level text) m vs q2 file in
    let hand = ap (λ z. z.single_log) k3.rest ∙ ap (λ z. z.single_log) k1.rest in
    let disk = ap (λ z. z.disk) k1.rest in
    let (joined, longest) =
      Taken-Joins s s3 m vs vs' (line_of t level text) hand
        (Taken-same s s2 s3 m vs vs' _ disk taken) in
    record {
      after = s3;
      waiting = vs';
      goes = rw (e1, e2) e3;
      ready = record {
        open_file = (name, ap (λ z. z.fp) k3.rest ∙ file);
        splits =
            subst (λ n. 0 < n)
              (sym (ap (λ z. z.split_lines) k3.rest ∙ ap (λ z. z.split_lines) k1.rest)) r.splits;
        buffer = ap (λ z. length z.buf) k3.rest ∙ len ∙ sym (ap (λ z. z.log_buf_size) k3.rest);
        sized = ap (λ z. z.log_buf_size) k3.rest ∙ sized1;
        queues = q3;
      };
      joins = joined;
      longest = longest;
    }

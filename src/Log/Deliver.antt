-- ===== src/Log/Deliver.antt =====
-- The end of `write_log`: a line goes into the queue, or into the file where the queue is full.
use cpp_server.Prelude.{
  ℕ, ◌≤◌, ◌<◌, ◌≡◌, refl, sym, ap, ◌∙◌, some, none, Option, true, false, List, [], ◌∷◌, ◌++◌, arith,
  leb, length, inl, inr, ◌⊎◌, Bool-cases, leb→le,
}
use cpp_server.BlockQueue.{BlockQueue, is_full}
use cpp_server.BlockQueue.Refine.{Holds, push-room, push-full}
use cpp_server.Http.State.{Run, ok, ◌>>=◌}
use cpp_server.Log.{Log, fputs, push_line, deliver}

-- The log in asynchronous mode, its queue of `m` places holding `vs`.
pub record Queues (s : Log) (m : ℕ) (vs : List (List ℕ)) : Type 0 where
  pub async : s.is_async ≡ true
  pub queue : BlockQueue (List ℕ)
  pub queue_at : s.log_queue ≡ some queue
  pub holds : Holds queue vs
  pub places : queue.max_size ≡ m

abbrev pub in_hand : Option (List ℕ) → List (List ℕ)
in_hand none = []
in_hand (some line) = line ∷ []

abbrev pub strings : List (List ℕ × List ℕ) → List (List ℕ)
strings [] = []
strings (p ∷ ps) = p.1 ∷ strings ps

pub strings-append :
    (ps qs : List (List ℕ × List ℕ)) → strings (ps ++ qs) ≡ strings ps ++ strings qs
strings-append [] qs = refl
strings-append (p ∷ ps) qs = ap (λ z. p.1 ∷ z) (strings-append ps qs)

-- What is in the files, with the thread and in the queue, in this order.
abbrev pub lines : Log → List (List ℕ) → List (List ℕ)
lines s vs = strings s.disk ++ (in_hand s.single_log ++ vs)

pub full_of :
    {q : BlockQueue (List ℕ)} {vs : List (List ℕ)}
    → Holds q vs
    → is_full q ≡ leb q.max_size (length vs)
unfolding is_full
full_of h = rw h.counted refl

pub leb→lt : (a b : ℕ) → leb a b ≡ false → b < a
leb→lt a b e = ground arith

not_leb : (a b : ℕ) → b < a → leb a b ≡ false
not_leb a b lt = ground arith

pub push_line-room :
    (s : Log) (m : ℕ) (vs : List (List ℕ)) (line : List ℕ) (k : Queues s m vs)
    → length vs < m
    → (q' : BlockQueue (List ℕ)) × (push_line line s ≡ ok (record s { log_queue = some q' }))
      × Queues (record s { log_queue = some q' }) m (vs ++ line ∷ [])
unfolding push_line
push_line-room s m vs line k room =
    let (q', e, h, same) = push-room k.holds line (omega (arith, k.places)) in
    (
      q',
      rw (k.queue_at, push_line) (rw e refl),
      record { async = k.async; queue = q'; queue_at = refl; holds = h; places = same ∙ k.places },
    )

push_line-full :
    (s : Log) (m : ℕ) (vs : List (List ℕ)) (line : List ℕ)
    → Queues s m vs
    → m ≤ length vs
    → push_line line s ≡ ok s
unfolding push_line
push_line-full s m vs line k full =
    simp (k.queue_at, push_line, push-full k.holds line (omega (arith, k.places)))
      (ap (λ z. ok (record s { log_queue = z })) (sym k.queue_at))

deliver_room :
    (s : Log) (between : Log → Run Log) (line : List ℕ) (m : ℕ) (vs : List (List ℕ))
    (k : Queues s m vs)
    → leb k.queue.max_size (length vs) ≡ false
    → deliver between line s ≡ (between s >>= push_line line)
unfolding deliver
deliver_room s between line m vs k room =
    simp (k.async, k.queue_at, full_of k.holds ∙ room, deliver) refl

-- Where another thread fills the queue between `full()` and `push`, the line is lost: `push` refuses
-- it and nobody looks at the result.
pub deliver_lost :
    (s s' : Log) (between : Log → Run Log) (line : List ℕ) (m : ℕ) (vs vs' : List (List ℕ))
    → Queues s m vs
    → length vs < m
    → between s ≡ ok s'
    → Queues s' m vs'
    → m ≤ length vs'
    → deliver between line s ≡ ok s'
deliver_lost s s' between line m vs vs' k room others k' full =
    deliver_room s between line m vs k (not_leb _ _ (omega (arith, k.places)))
    ∙ ap (λ r. r >>= push_line line) others
    ∙ push_line-full s' m vs' line k' full

-- How a line has been taken: behind all others, or, where the queue is full, in front of those that
-- wait.
abbrev pub Taken : Log → Log → ℕ → List (List ℕ) → List (List ℕ) → List ℕ → Type 0
Taken s s' m vs vs' line =
    ((length vs < m) × (vs' ≡ vs ++ line ∷ []) × (s'.disk ≡ s.disk))
    ⊎ ((m ≤ length vs) × (vs' ≡ vs) × (strings s'.disk ≡ strings s.disk ++ line ∷ []))

-- What `deliver` leaves alone.
pub record Kept (s s' : Log) : Type 0 where
  pub rest : s' ≡ record s { log_queue = s'.log_queue; disk = s'.disk }

pub fputs_at :
    (s : Log) (name line : List ℕ)
    → s.fp ≡ some name
    → fputs line s ≡ ok (record s { disk = s.disk ++ (name, line) ∷ [] })
unfolding fputs
fputs_at s name line file = simp (file, fputs) refl

deliver_full :
    (s : Log) (line : List ℕ) (m : ℕ) (vs : List (List ℕ)) (k : Queues s m vs)
    → leb k.queue.max_size (length vs) ≡ true
    → deliver ok line s ≡ fputs line s
unfolding deliver
deliver_full s line m vs k full = simp (k.async, k.queue_at, full_of k.holds ∙ full, deliver) refl

pub deliver-Taken :
    (s : Log) (name line : List ℕ) (m : ℕ) (vs : List (List ℕ))
    → Queues s m vs
    → s.fp ≡ some name
    → (s' : Log) × (vs' : List (List ℕ)) × (deliver ok line s ≡ ok s')
      × Queues s' m vs'
      × Taken s s' m vs vs' line
      × Kept s s'
deliver-Taken s name line m vs k file = elim (Bool-cases (leb k.queue.max_size (length vs))) [
  | inl full ↦ (
    record s { disk = s.disk ++ (name, line) ∷ [] },
    vs,
    deliver_full s line m vs k full ∙ fputs_at s name line file,
    record {
      async = k.async;
      queue = k.queue;
      queue_at = k.queue_at;
      holds = k.holds;
      places = k.places;
    },
    inr (omega (arith, leb→le _ _ full, k.places), refl, strings-append s.disk ((name, line) ∷ [])),
    record { rest = refl },
  )
  | inr room ↦
      let lt = leb→lt _ _ room in
      let (q', e, k') = push_line-room s m vs line k (omega (arith, lt, k.places)) in
      (
        record s { log_queue = some q' },
        vs ++ line ∷ [],
        deliver_room s ok line m vs k room ∙ e,
        k',
        inl (omega (arith, lt, k.places), refl, refl),
        record { rest = refl },
      )
]

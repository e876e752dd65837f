-- ===== src/Webserver/Handlers.antt =====
-- The handlers of a connection that has its timer in the list.
use mathlib.Core.Path.{subst}
use mathlib.Core.List.{append_assoc}
use cpp_server.Prelude.{
  ℕ, ◌≤◌, ◌<◌, ◌≡◌, refl, sym, ap, ◌∙◌, inl, inr, Bool, false, true, Option, none, some, List, [],
  ◌∷◌, ◌++◌, arith, length, length-append, ltb, Bool-cases, ◌==◌,
}
use cpp_server.Http.State.{Run, ok, Conn, Shared}
use cpp_server.Http.Process.{Recv}
use cpp_server.Http.Process.Bounds.{HasPlace, read_once_returns}
use cpp_server.ThreadPool.{ThreadPool, append, append_p}
use cpp_server.Timers.Chain.{Entry}
use cpp_server.Timers.Insert.{insert, insert_alone, insert_before, insert_after}
use cpp_server.Webserver.{Server, deal_timer, renew_timer, updated}
use cpp_server.Webserver.Loop.{
  hand_over, wait_for_worker, dealwithread, dealwithwrite, after_read, after_worker, timer_handler,
}
use cpp_server.Webserver.Valid.{length-insert}
use cpp_server.Webserver.Keeps.{deal_timer-IsValid, timer_handler-IsValid}
use cpp_server.Webserver.Renew.{renewed, renew_timer-IsValid}
use cpp_server.Webserver.Owned.{
  Owns, AllOwned, AllOwned-here, AllOwned-without, AllOwned-behind, AllOwned-renewed,
}

-- The timers do not depend on the connections, the queue and the static members.
pub Owns-work :
    (s : Server) (clock : ℕ) (es : List Entry) (users : ℕ → Conn) (p : ThreadPool) (g : Shared)
    → Owns s clock es
    → Owns (record s { users = users; pool = p; shared = g }) clock es
Owns-work s clock es users p g v = record {
  valid = record {
    listed = v.valid.listed;
    sorted = v.valid.sorted;
    given_out = v.valid.given_out;
    names = v.valid.names;
  };
  owned = v.owned;
}

-- The list of `s` has the timer of the connection `fd`, with `us` before it and `bs` behind it.
pub record Has (s : Server) (clock fd : ℕ) (us : List Entry) (x : Entry) (bs : List Entry)
    : Type 0 where
  pub owns : Owns s clock (us ++ x ∷ bs)
  pub its_fd : x.user_data ≡ fd

pub timer_at :
    (s : Server) (clock fd : ℕ) (us : List Entry) (x : Entry) (bs : List Entry)
    → Has s clock fd us x bs
    → (s.clients fd).timer ≡ some x.id
timer_at s clock fd us x bs h =
    subst (λ k. (s.clients k).timer ≡ some x.id) h.its_fd
      (AllOwned-here s.clients clock us x bs h.owns.owned).0

-- A closed connection loses its timer.
pub deal_timer-Owns :
    (s : Server) (clock fd : ℕ) (us : List Entry) (x : Entry) (bs : List Entry)
    → Has s clock fd us x bs
    → (s' : Server) × (deal_timer s (some x.id) fd ≡ ok s') × Owns s' clock (us ++ bs)
deal_timer-Owns s clock fd us x bs h =
    let (s', e, v, _, cl) = deal_timer-IsValid s us x bs fd h.owns.valid in
    let own = AllOwned-without s.clients clock us x bs h.owns.owned in
    (s', e, record { valid = v; owned = subst (λ k. AllOwned k clock (us ++ bs)) (sym cl) own })

-- Where an entry comes to stand.
pub insert_splits :
    (x : Entry) (es : List Entry) → (cs ds : List Entry) × (insert x es ≡ cs ++ x ∷ ds)
insert_splits x [] = ([], [], insert_alone x)
insert_splits x (e ∷ es) = elim (Bool-cases (ltb x.expire e.expire)) [
  | inl less ↦ ([], e ∷ es, insert_before x e es less)
  | inr more ↦
      let (cs, ds, eq) = insert_splits x es in
      (e ∷ cs, ds, insert_after x e es more ∙ ap (λ z. e ∷ z) eq)
]

-- A connection that is used has its timer still, in a new place.
pub renew_timer-Has :
    (f now : ℕ) (s : Server) (fd : ℕ) (us : List Entry) (x : Entry) (bs : List Entry)
    → Has s now fd us x bs
    → length (us ++ x ∷ bs) ≤ f
    → (s' : Server) × (cs ds : List Entry) × (renew_timer f now s x.id ≡ ok s')
      × Has s' now fd cs (renewed now x) ds
      × (s'.clients ≡ s.clients)
      × (length (cs ++ renewed now x ∷ ds) ≡ length (us ++ x ∷ bs))
renew_timer-Has f now s fd us x bs h le =
    let own = h.owns.owned in
    let room = length-append us (x ∷ bs) in
    let (s', e, v, cl) =
      renew_timer-IsValid f now s us x bs h.owns.valid (AllOwned-here s.clients now us x bs own).1
        (omega (arith, room)) in
    let (cs, ds, split) = insert_splits (renewed now x) bs in
    let same : us ++ insert (renewed now x) bs ≡ (us ++ cs) ++ renewed now x ∷ ds =
      ap (λ z. us ++ z) split ∙ sym (append_assoc us cs (renewed now x ∷ ds)) in
    let own' =
      subst (λ k. AllOwned k now (us ++ insert (renewed now x) bs)) (sym cl)
        (AllOwned-renewed s.clients now us x bs own) in
    let o : Owns s' now (us ++ insert (renewed now x) bs) = record { valid = v; owned = own' } in
    (
      s',
      us ++ cs,
      ds,
      e,
      record { owns = subst (Owns s' now) same o; its_fd = h.its_fd },
      cl,
      omega (
        arith,
        ap length (sym same),
        length-append us (insert (renewed now x) bs),
        length-insert (renewed now x) bs,
        room,
      ),
    )

-- What returns leaves such a server with `m` timers at most, or the reactor waits for a worker.
pub data Kept {A : Type 0} (server : A → Server) (now m : ℕ) (r : Run (Option A)) : Type 0 where
  waits : r ≡ ok none → Kept server now m r
  goes_on :
      (a : A) (es' : List Entry)
      → r ≡ ok (some a)
      → Owns (server a) now es'
      → length es' ≤ m
      → Kept server now m r

abbrev pub itself : Server → Server
itself s = s

after_worker-Kept :
    (s : Server) (now fd m : ℕ) (us : List Entry) (x : Entry) (bs : List Entry) (seen : Option Conn)
    → Has s now fd us x bs
    → length (us ++ x ∷ bs) ≤ m
    → Kept itself now m (after_worker s (some x.id) fd seen)
after_worker-Kept s now fd m us x bs none h le = waits refl
after_worker-Kept s now fd m us x bs (some c) h le = elim (Bool-cases (c.timer_flag == 1)) [
  | inl flagged ↦
      let (s', e, v) = deal_timer-Owns s now fd us x bs h in
      let c' = record c { improv = 0; timer_flag = 0 } in
      goes_on (record s' { users = updated s'.users fd c' }) (us ++ bs) (rw (flagged) (rw e refl))
        (Owns-work s' now (us ++ bs) (updated s'.users fd c') s'.pool s'.shared v)
        (omega (arith, length-append us (x ∷ bs), length-append us bs))
  | inr open_still ↦
      let users = updated s.users fd (record c { improv = 0 }) in
      goes_on (record s { users = users }) (us ++ x ∷ bs) (rw (open_still) refl)
        (Owns-work s now (us ++ x ∷ bs) users s.pool s.shared h.owns) le
]

module _ (f now : ℕ) (s : Server) (fd : ℕ) (us : List Entry) (x : Entry) (bs : List Entry)
    (h : Has s now fd us x bs) (enough : length (us ++ x ∷ bs) ≤ f) where
  hand_over-Kept :
      (state : ℕ) (seen : List Conn)
      → Kept itself now (length (us ++ x ∷ bs)) (hand_over f now s fd state seen)
  unfolding hand_over
  hand_over-Kept state seen =
      let (s1, cs, ds, e, h1, _, len) = renew_timer-Has f now s fd us x bs h enough in
      let a = append s1.pool s1.users fd state in
      let h2 : Has (record s1 { pool = a.1; users = a.2 }) now fd cs (renewed now x) ds = record {
        owns = Owns-work s1 now _ a.2 a.1 s1.shared h1.owns;
        its_fd = h1.its_fd;
      } in
      rw (timer_at s now fd us x bs h, hand_over)
        (rw e (
          after_worker-Kept (record s1 { pool = a.1; users = a.2 }) now fd _ cs (renewed now x) ds
            (wait_for_worker seen) h2 (omega (arith, len))))

  after_read-Kept :
      (r : Bool × Conn)
      → (s' : Server) × (es' : List Entry) × (after_read f now s fd r ≡ ok s')
        × Owns s' now es'
        × (length es' ≤ length (us ++ x ∷ bs))
  after_read-Kept (true, c) =
      let users = updated s.users fd c in
      let p = (append_p s.pool fd).1 in
      let h2 : Has (record s { users = users; pool = p }) now fd us x bs = record {
        owns = Owns-work s now _ users p s.shared h.owns;
        its_fd = h.its_fd;
      } in
      let (s1, cs, ds, e, h1, _, len) =
        renew_timer-Has f now (record s { users = users; pool = p }) fd us x bs h2 enough in
      (
        s1,
        cs ++ renewed now x ∷ ds,
        rw (timer_at s now fd us x bs h) e,
        h1.owns,
        omega (arith, len),
      )
  after_read-Kept (false, c) =
      let users = updated s.users fd c in
      let h2 : Has (record s { users = users }) now fd us x bs = record {
        owns = Owns-work s now _ users s.pool s.shared h.owns;
        its_fd = h.its_fd;
      } in
      let (s1, e, v) = deal_timer-Owns (record s { users = users }) now fd us x bs h2 in
      (
        s1,
        us ++ bs,
        rw (timer_at s now fd us x bs h) e,
        v,
        omega (arith, length-append us (x ∷ bs), length-append us bs),
      )

  -- Data of a connection, in both models.
  pub dealwithread-Kept :
      (recvs : List Recv) (seen : List Conn)
      → ((s.actor_model == 1) ≡ false → HasPlace (s.users fd))
      → Kept itself now (length (us ++ x ∷ bs)) (dealwithread f now s fd recvs seen)
  unfolding dealwithread
  dealwithread-Kept recvs seen place = elim (Bool-cases (s.actor_model == 1)) [
    | inl reactor ↦ rw (reactor, dealwithread) (hand_over-Kept 0 seen)
    | inr proactor ↦
        let (r, reads) = read_once_returns recvs (s.users fd) (place proactor) in
        let (s', es', e, v, k) = after_read-Kept r in
        goes_on s' es' (rw (proactor, dealwithread) (rw reads (rw e refl))) v k
  ]

  -- A connection that can be written, in the reactor.
  pub dealwithwrite-Kept :
      (seen : List Conn)
      → s.actor_model ≡ 1
      → Kept itself now (length (us ++ x ∷ bs)) (dealwithwrite f now s fd seen)
  unfolding dealwithwrite
  dealwithwrite-Kept seen reactor =
      let yes_reactor : (s.actor_model == 1) ≡ true = rw reactor refl in
      rw (yes_reactor, dealwithwrite) (hand_over-Kept 1 seen)

-- The timers that have expired.
pub timer_handler-Owns :
    (f now : ℕ) (s : Server) (es : List Entry)
    → Owns s now es
    → length es < f
    → (s' : Server) × (es' : List Entry) × (timer_handler f now s ≡ ok s')
      × Owns s' now es'
      × (length es' ≤ length es)
timer_handler-Owns f now s es v lt =
    let (gone, left, s', e, v', split, _, _, _, cl) = timer_handler-IsValid f now s es v.valid lt in
    let own =
      AllOwned-behind s.clients now gone left (subst (AllOwned s.clients now) split v.owned) in
    (
      s',
      left,
      e,
      record { valid = v'; owned = subst (λ k. AllOwned k now left) (sym cl) own },
      omega (arith, ap length split, length-append gone left),
    )

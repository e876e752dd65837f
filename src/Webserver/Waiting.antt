-- ===== src/Webserver/Waiting.antt =====
-- New connections on descriptors that are free: the timers of the clients stay those of the list.
use mathlib.Core.Path.{subst}
use cpp_server.Prelude.{
  ℕ, ◌+◌, ◌≤◌, ◌<◌, ◌≡◌, ◌≢◌, refl, sym, inl, inr, Bool, false, true, some, List, [], ◌∷◌, arith,
  length, Bool-cases, ◌==◌, ==_refl, pos,
}
use cpp_server.Http.State.{ok}
use cpp_server.Timers.Chain.{Entry}
use cpp_server.Timers.Insert.{insert}
use cpp_server.Webserver.{
  Server, Client, set_timer, accept_one, accept_all, dealclientdata, is_busy, max_fd, turn_away,
  next_fd, updated,
}
use cpp_server.Webserver.Valid.{length-insert}
use cpp_server.Webserver.Accept.{entry, set_timer-IsValid}
use cpp_server.Webserver.Owned.{
  Owns, AllOwned, NoFd, NoFd-insert, AllOwned-insert, AllOwned-updated,
}

abbrev pub NotAmong : ℕ → List ℕ → Type 0
NotAmong fd [] = Unit
NotAmong fd (k ∷ fds) = (fd ≢ k) × NotAmong fd fds

-- The descriptors are below MAX_FD, different, and of no connection with a timer in the list.
abbrev pub AllFree : List Entry → List ℕ → Type 0
AllFree es [] = Unit
AllFree es (fd ∷ fds) = (fd < max_fd) × NoFd fd es × NotAmong fd fds × AllFree es fds

AllFree-insert :
    (x : Entry) (es : List Entry) (fds : List ℕ)
    → NotAmong x.user_data fds
    → AllFree es fds
    → AllFree (insert x es) fds
AllFree-insert x es [] out h = tt
AllFree-insert x es (fd ∷ fds) out h =
    (h.0, NoFd-insert fd x es out.0 h.1, h.2, AllFree-insert x es fds out.1 h.3)

set_timer-Owns :
    (f now : ℕ) (s : Server) (fd : ℕ) (es : List Entry)
    → Owns s now es
    → fd < max_fd
    → NoFd fd es
    → length es ≤ f
    → (s' : Server) × (set_timer f now s fd ≡ ok s') × Owns s' now (insert (entry now s fd) es)
set_timer-Owns f now s fd es v lt out le =
    let (s', e, v', _, cl) = set_timer-IsValid f now s fd es v.valid lt le in
    let c : Client = record { sockfd = pos fd; timer = some s.fresh } in
    let own =
      AllOwned-insert (updated s.clients fd c) now (entry now s fd) es
        ((rw (==_refl fd) refl), omega arith)
        (AllOwned-updated s.clients now fd c es out v.owned) in
    (
      s',
      e,
      record {
        valid = v';
        owned = subst (λ k. AllOwned k now (insert (entry now s fd) es)) (sym cl) own;
      },
    )

turn_away-Owns :
    (s : Server) (fd now : ℕ) (es : List Entry) → Owns s now es → Owns (turn_away s fd) now es
turn_away-Owns s fd now es v = record {
  valid = record {
    listed = v.valid.listed;
    sorted = v.valid.sorted;
    given_out = v.valid.given_out;
    names = v.valid.names;
  };
  owned = v.owned;
}

accept_all-Owns :
    (f now : ℕ) (s : Server) (fds : List ℕ) (es : List Entry)
    → Owns s now es
    → AllFree es fds
    → length es + length fds ≤ f
    → (s' : Server) × (es' : List Entry) × (accept_all f now s fds ≡ ok s')
      × Owns s' now es'
      × (length es' ≤ length es + length fds)
unfolding accept_all
accept_all-Owns f now s [] es v fit le = (s, es, refl, v, omega arith)
accept_all-Owns f now s (fd ∷ fds) es v fit le = elim (Bool-cases (is_busy s.shared)) [
  | inl busy ↦
      (turn_away s fd, es, rw (busy, accept_all) refl, turn_away-Owns s fd now es v, omega arith)
  | inr free ↦
      let (s1, e1, v1) = set_timer-Owns f now s fd es v fit.0 fit.1 (omega arith) in
      let one = length-insert (entry now s fd) es in
      let (s2, es2, e2, v2, k) =
        accept_all-Owns f now s1 fds _ v1 (AllFree-insert (entry now s fd) es fds fit.2 fit.3)
          (omega (arith, one)) in
      (s2, es2, rw (free, accept_all) (rw e1 e2), v2, omega (arith, one, k))
]

accept_one-Owns :
    (f now : ℕ) (s : Server) (fds : List ℕ) (es : List Entry)
    → Owns s now es
    → AllFree es fds
    → length es + length fds ≤ f
    → (done : Bool) × (s' : Server) × (es' : List Entry) × (accept_one f now s (next_fd fds)
        ≡ ok (done, s'))
      × Owns s' now es'
      × (length es' ≤ length es + length fds)
unfolding accept_one
accept_one-Owns f now s [] es v fit le = (false, s, es, refl, v, omega arith)
accept_one-Owns f now s (fd ∷ fds) es v fit le = elim (Bool-cases (is_busy s.shared)) [
  | inl busy ↦ (
    false,
    turn_away s fd,
    es,
    rw (busy, accept_one) refl,
    turn_away-Owns s fd now es v,
    omega arith,
  )
  | inr free ↦
      let (s1, e1, v1) = set_timer-Owns f now s fd es v fit.0 fit.1 (omega arith) in
      (
        true,
        s1,
        _,
        rw (free, accept_one) (rw e1 refl),
        v1,
        omega (arith, length-insert (entry now s fd) es),
      )
]

-- New connections on free descriptors: each that is taken has its timer in the list.
pub dealclientdata-Owns :
    (f now : ℕ) (s : Server) (fds : List ℕ) (es : List Entry)
    → Owns s now es
    → AllFree es fds
    → length es + length fds ≤ f
    → (done : Bool) × (s' : Server) × (es' : List Entry) × (dealclientdata f now s fds
        ≡ ok (done, s'))
      × Owns s' now es'
      × (length es' ≤ length es + length fds)
unfolding dealclientdata
dealclientdata-Owns f now s fds es v fit le = elim (Bool-cases (s.listen_trig == 0)) [
  | inl level ↦
      let (done, s', es', e, v', k) = accept_one-Owns f now s fds es v fit le in
      (done, s', es', rw (level, dealclientdata) e, v', k)
  | inr edge ↦
      let (s', es', e, v', k) = accept_all-Owns f now s fds es v fit le in
      (false, s', es', rw (edge, dealclientdata) (rw e refl), v', k)
]

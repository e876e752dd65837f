-- ===== src/Webserver/Events.antt =====
-- The event loop as a whole: what arrives, and what the loop makes of it.
use mathlib.Core.Path.{subst}
use cpp_server.Prelude.{
  ℕ, ◌+◌, ◌≤◌, ◌≡◌, ◌≢◌, refl, sym, ap, inl, inr, false, true, Option, List, ◌∷◌, ◌++◌, arith,
  length, length-append, Bool-cases, ◌==◌, ==_refl, ne→==,
}
use cpp_server.Http.State.{Run, ok, ◌>>=◌}
use cpp_server.Timers.Chain.{Entry, Lists}
use cpp_server.Http.Process.Bounds.{HasPlace}
use cpp_server.Webserver.{Server}
use cpp_server.Webserver.Loop.{Flags, Event, keep_flags, handle_event}
use cpp_server.Webserver.Owned.{Owns, Lists-same}
use cpp_server.Webserver.Waiting.{AllFree, dealclientdata-Owns}
use cpp_server.Webserver.Handlers.{
  Has, timer_at, deal_timer-Owns, Kept, waits, goes_on, dealwithread-Kept, dealwithwrite-Kept,
  itself,
}

-- The connection has its timer in the list.
abbrev pub IsOpen : Server → ℕ → Type 0
IsOpen s fd =
    (us : List Entry) × (x : Entry) × (bs : List Entry) × Lists s.timers (us ++ x ∷ bs)
    × (x.user_data ≡ fd)

-- New connections get descriptors that no open connection has.
abbrev pub GetFree : Server → List ℕ → Type 0
GetFree s fds = (es : List Entry) × Lists s.timers es × AllFree es fds

-- What may be reported to a server: waiting connections of the listener, each under a descriptor that
-- no timer of the list is for; bytes in the pipe of the signals; and an event of a connection that
-- has its timer, but for one that can be written in the proactor, as `write` has no body, and for one
-- whose `m_read_idx` is negative in the proactor, as `recv` would write in front of its buffer.
pub data Arrives (listenfd pipefd : ℕ) (s : Server) (e : Event) : Type 0 where
  waiting : e.fd ≡ listenfd → GetFree s e.fds → Arrives listenfd pipefd s e
  signal :
      e.fd ≢ listenfd
      → e.fd ≡ pipefd
      → e.hangs_up ≡ false
      → e.readable ≡ true
      → Arrives listenfd pipefd s e
  traffic :
      e.fd ≢ listenfd
      → e.fd ≢ pipefd
      → IsOpen s e.fd
      → (e.writable ≡ true → s.actor_model ≡ 1)
      → ((s.actor_model == 1) ≡ false → HasPlace (s.users e.fd))
      → Arrives listenfd pipefd s e

abbrev pub Looped : Type 0
Looped = Server × Flags

abbrev pub server_of : Looped → Server
server_of p = p.0

with_flags :
    (now m m' : ℕ) (r : Run (Option Server)) (fl : Flags)
    → m ≤ m'
    → Kept itself now m r
    → Kept server_of now m' (do x ← r; ok (keep_flags fl x))
with_flags now m m' r fl more (waits e) = waits (rw e refl)
with_flags now m m' r fl more (goes_on a es e v le) = goes_on (a, fl) es (rw e refl) v (omega arith)

-- The list of the invariant is the one of the condition.
same_list :
    (s : Server) (clock fd : ℕ) (es us : List Entry) (x : Entry) (bs : List Entry)
    → Owns s clock es
    → Lists s.timers (us ++ x ∷ bs)
    → x.user_data ≡ fd
    → Has s clock fd us x bs × (length (us ++ x ∷ bs) ≡ length es)
same_list s clock fd es us x bs v l e =
    let same = Lists-same s.timers es (us ++ x ∷ bs) v.valid.listed l in
    (record { owns = subst (Owns s clock) same v; its_fd = e }, ap length (sym same))

module _ (f now listenfd pipefd m : ℕ) (s : Server) (fl : Flags) (e : Event) where
  traffic-Kept :
      (us : List Entry) (x : Entry) (bs : List Entry)
      → e.fd ≢ listenfd
      → e.fd ≢ pipefd
      → Has s now e.fd us x bs
      → length (us ++ x ∷ bs) ≤ m
      → m ≤ f
      → (e.writable ≡ true → s.actor_model ≡ 1)
      → ((s.actor_model == 1) ≡ false → HasPlace (s.users e.fd))
      → Kept server_of now m (handle_event f now listenfd pipefd s fl e)
  unfolding handle_event
  traffic-Kept us x bs not_listen not_pipe h le enough reactor place =
      let other = ne→== e.fd listenfd not_listen in
      let client = ne→== e.fd pipefd not_pipe in
      let room : length (us ++ x ∷ bs) ≤ f = omega (arith, le) in
      rw (other, handle_event)
        (elim (Bool-cases e.hangs_up) [
          | inl gone ↦
              let (s', run, v') = deal_timer-Owns s now e.fd us x bs h in
              rw gone (
                rw (timer_at s now e.fd us x bs h) (
                  goes_on (s', fl) (us ++ bs) (rw run refl) v'
                    (omega (arith, le, length-append us (x ∷ bs), length-append us bs))))
          | inr there ↦
              rw (there, client)
                (elim (Bool-cases e.readable) [
                  | inl reads ↦ rw reads (
                      with_flags now _ m _ fl le
                        (dealwithread-Kept f now s e.fd us x bs h room e.recvs e.seen place))
                  | inr no_data ↦ rw no_data (elim (Bool-cases e.writable) [
                    | inl writes ↦ rw writes (
                        with_flags now _ m _ fl le
                          (dealwithwrite-Kept f now s e.fd us x bs h room e.seen (reactor writes)))
                    | inr nothing ↦ rw nothing (goes_on (s, fl) (us ++ x ∷ bs) refl h.owns le)
                  ])
                ])
        ])

  -- Such an event is handled without undefined behaviour.
  pub handle_event-Kept :
      (es : List Entry)
      → Owns s now es
      → Arrives listenfd pipefd s e
      → length es + length e.fds ≤ m
      → m ≤ f
      → Kept server_of now m (handle_event f now listenfd pipefd s fl e)
  unfolding handle_event
  handle_event-Kept es v (waiting at (fs, l, free)) le enough =
      let same = Lists-same s.timers fs es l v.valid.listed in
      let here : (e.fd == listenfd) ≡ true = rw at (==_refl listenfd) in
      let (done, s', es', run, v', k) =
        dealclientdata-Owns f now s e.fds es v (subst (λ z. AllFree z e.fds) same free)
          (omega arith) in
      rw (here, handle_event) (goes_on (s', fl) es' (rw run refl) v' (omega (arith, k)))
  handle_event-Kept es v (signal other at stays reads) le enough =
      let here : (e.fd == pipefd) ≡ true = rw at (==_refl pipefd) in
      rw (ne→== e.fd listenfd other, handle_event)
        (rw (stays, here, reads) (goes_on (s, _) es refl v (omega arith)))
  handle_event-Kept es v (traffic other client (us, x, bs, l, at) reactor place) le enough =
      let (h, len) = same_list s now e.fd es us x bs v l at in
      traffic-Kept us x bs other client h (omega (arith, len)) enough reactor place

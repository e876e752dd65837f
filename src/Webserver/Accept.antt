-- ===== src/Webserver/Accept.antt =====
-- New connections: the accept loop keeps the list of timers in order and the number of users within
-- its bound.
use mathlib.Core.Option.{some-injective}
use cpp_server.Prelude.{
  ℕ, ◌+◌, ◌*◌, ◌≤◌, ◌<◌, ◌≡◌, refl, sym, ap, ◌∙◌, inl, inr, Bool, true, false, Option, none, some,
  List, [], ◌∷◌, ℤ, pos, ◌+ℤ◌, leb_ℤ, arith, length, Bool-cases, lt→ltb, ◌==◌,
}
use cpp_server.Http.State.{Conn, Shared, Run, ok, addfd}
use cpp_server.Http.Process.{Setup, init, reset}
use cpp_server.Timers.{Timer, store}
use cpp_server.Timers.Chain.{Entry, timer_of, store_self}
use cpp_server.Timers.Insert.{insert}
use cpp_server.Timers.Order.{add_timer-Sorted}
use cpp_server.Webserver.{
  Server, set_timer, accept_one, accept_all, dealclientdata, is_busy, max_fd, timeslot, turn_away,
  show_error, next_fd, updated,
}
use cpp_server.Webserver.Valid.{
  AllBelow-NotIn, AllBelow-more, AllBelow-insert, length-insert, ShortNames, IsValid, Lists-store,
}

init_counts :
    (fd : ℤ) (setup : Setup) (g : Shared) (c : Conn)
    → ShortNames setup
    → (c' : Conn) × (g' : Shared) × (init fd setup g c ≡ ok (c', g'))
      × (g'.user_count ≡ g.user_count +ℤ pos 1)
unfolding init addfd
init_counts fd setup g c (a, b, d) = (
  reset (record c { sockfd = fd; doc_root = setup.root; trig_mode = setup.trig_mode }),
  record (addfd fd true c.trig_mode g) { user_count = g.user_count +ℤ pos 1 },
  rw (lt→ltb _ _ a, lt→ltb _ _ b, lt→ltb _ _ d) refl,
  refl,
)

-- The entry of a new connection.
abbrev pub entry : ℕ → Server → ℕ → Entry
entry now s fd = record { id = s.fresh; expire = now + 3 * timeslot; user_data = fd }

-- A new connection: its timer is in the list, and there is one user more.
pub set_timer-IsValid :
    (f now : ℕ) (s : Server) (fd : ℕ) (es : List Entry)
    → IsValid s es
    → fd < max_fd
    → length es ≤ f
    → (s' : Server) × (set_timer f now s fd ≡ ok s')
      × IsValid s' (insert (entry now s fd) es)
      × (s'.shared.user_count ≡ s.shared.user_count +ℤ pos 1)
      × (s'.clients ≡ updated s.clients fd (record { sockfd = pos fd; timer = some s.fresh }))
unfolding set_timer
set_timer-IsValid f now s fd es v lt le =
    let (c, g, started, counted) =
      init_counts (pos fd) (record s.setup { trig_mode = s.conn_trig }) s.shared (s.users fd)
        v.names in
    let x = entry now s fd in
    let t : Timer = timer_of x none none in
    let out = AllBelow-NotIn s.fresh es v.given_out in
    let l = record s.timers { heap = store s.timers.heap s.fresh t } in
    let (k, run, listed, sorted) =
      add_timer-Sorted f l x es (Lists-store s.timers s.fresh t es out v.listed) v.sorted out
        (store_self s.timers.heap s.fresh t) le in
    (
      record s {
        users = updated s.users fd c;
        clients = updated s.clients fd (record { sockfd = pos fd; timer = some s.fresh });
        timers = k;
        fresh = s.fresh + 1;
        shared = g;
      },
      rw (lt→ltb fd max_fd lt) (rw started (rw run refl)),
      record {
        listed = listed;
        sorted = sorted;
        given_out =
            AllBelow-insert (s.fresh + 1) x es (omega arith) (AllBelow-more s.fresh es v.given_out);
        names = v.names;
      },
      counted,
      refl,
    )

-- At most MAX_FD users.
abbrev pub InBound : Server → Type 0
InBound s = (n : ℕ) × (s.shared.user_count ≡ pos n) × (n ≤ max_fd)

abbrev pub AllFit : List ℕ → Type 0
AllFit [] = Unit
AllFit (fd ∷ fds) = (fd < max_fd) × AllFit fds

pub record Served (r : Run Server) : Type 0 where
  pub after : Server
  pub entries : List Entry
  pub returns : r ≡ ok after
  pub valid : IsValid after entries
  pub bounded : InBound after

turn_away-Served :
    (s : Server) (fd : ℕ) (es : List Entry)
    → IsValid s es
    → InBound s
    → Served (ok (turn_away s fd))
unfolding show_error
turn_away-Served s fd es v b = record {
  after = turn_away s fd;
  entries = es;
  returns = refl;
  valid = record { listed = v.listed; sorted = v.sorted; given_out = v.given_out; names = v.names };
  bounded = b;
}

-- One user more, where the server is not busy.
one_more_fits :
    (s s' : Server)
    → InBound s
    → is_busy s.shared ≡ false
    → s'.shared.user_count ≡ s.shared.user_count +ℤ pos 1
    → InBound s'
unfolding ◌+ℤ◌
one_more_fits s s' (n, e, le) free more =
    let below : leb_ℤ (pos max_fd) (pos n) ≡ false =
      ap (λ z. leb_ℤ (pos max_fd) z) (sym e) ∙ free in
    (n + 1, more ∙ rw e (ground arith), ground arith)

accept_all-Served :
    (f now : ℕ) (s : Server) (fds : List ℕ) (es : List Entry)
    → IsValid s es
    → InBound s
    → AllFit fds
    → length es + length fds ≤ f
    → Served (accept_all f now s fds)
unfolding accept_all
accept_all-Served f now s [] es v b fit le = record {
  after = s;
  entries = es;
  returns = refl;
  valid = v;
  bounded = b;
}
accept_all-Served f now s (fd ∷ fds) es v b fit le = elim (Bool-cases (is_busy s.shared)) [
  | inl busy ↦ rw (busy, accept_all) (turn_away-Served s fd es v b)
  | inr free ↦
      let (s1, e1, v1, c1, _) = set_timer-IsValid f now s fd es v fit.0 (omega arith) in
      rw (free, accept_all)
        (rw e1 (
          accept_all-Served f now s1 fds _ v1 (one_more_fits s s1 b free c1) fit.1
            (omega (arith, length-insert (entry now s fd) es))))
]

one_by_one :
    (f now : ℕ) (s : Server) (o : Option ℕ) (es : List Entry)
    → IsValid s es
    → InBound s
    → ((fd : ℕ) → o ≡ some fd → fd < max_fd)
    → length es ≤ f
    → (done : Bool) × (s' : Server) × (es' : List Entry) × (accept_one f now s o ≡ ok (done, s'))
      × IsValid s' es'
      × InBound s'
unfolding accept_one show_error
one_by_one f now s none es v b fit le = (false, s, es, refl, v, b)
one_by_one f now s (some fd) es v b fit le = elim (Bool-cases (is_busy s.shared)) [
  | inl busy ↦ (false, turn_away s fd, es, rw (busy, accept_one) refl, (turned s fd es v), b)
  | inr free ↦
      let (s1, e1, v1, c1, _) = set_timer-IsValid f now s fd es v (fit fd refl) le in
      (true, s1, _, rw (free, accept_one) (rw e1 refl), v1, one_more_fits s s1 b free c1)
]
  where
    turned : (s : Server) (fd : ℕ) (es : List Entry) → IsValid s es → IsValid (turn_away s fd) es
    turned s fd es v = record {
      listed = v.listed;
      sorted = v.sorted;
      given_out = v.given_out;
      names = v.names;
    }

first_fits : (fds : List ℕ) → AllFit fds → (fd : ℕ) → next_fd fds ≡ some fd → fd < max_fd
first_fits [] fit fd e = absurd (cc)
first_fits (x ∷ fds) fit fd e = let same : x ≡ fd = some-injective _ _ e in omega (arith, fit.0)

-- `dealclientdata` returns in both trigger modes. On a server whose timers are a list in ascending
-- order and whose users are at most MAX_FD it leaves such a server, however many connections wait and
-- whether or not it turns one away; their descriptors are taken to be below MAX_FD, and the fuel for
-- the loops is the number of timers and of waiting connections.
pub dealclientdata-IsValid :
    (f now : ℕ) (s : Server) (fds : List ℕ) (es : List Entry)
    → IsValid s es
    → InBound s
    → AllFit fds
    → length es + length fds ≤ f
    → (done : Bool) × (s' : Server) × (es' : List Entry) × (dealclientdata f now s fds
        ≡ ok (done, s'))
      × IsValid s' es'
      × InBound s'
unfolding dealclientdata
dealclientdata-IsValid f now s fds es v b fit le = elim (Bool-cases (s.listen_trig == 0)) [
  | inl level ↦
      let (done, s', es', run, v', b') =
        one_by_one f now s (next_fd fds) es v b (first_fits fds fit) (omega arith) in
      (done, s', es', rw (level, dealclientdata) run, v', b')
  | inr edge ↦
      let r = accept_all-Served f now s fds es v b fit le in
      (
        false,
        r.after,
        r.entries,
        rw (edge, dealclientdata) (rw (r.returns) refl),
        r.valid,
        r.bounded,
      )
]

-- ===== src/Webserver/Renew.antt =====
-- The server's `adjust_timer`: the timer of a connection that is in use.
use cpp_server.Prelude.{
  ℕ, ◌+◌, ◌≤◌, ◌≡◌, refl, sym, ap, ◌∙◌, ◌*◌, Option, none, some, List, [], ◌∷◌, ◌++◌, arith, length,
}
use cpp_server.Http.State.{ok}
use cpp_server.Timers.{TimerList, Heap, store}
use cpp_server.Timers.Chain.{
  Entry, Lists, NotIn, Distinct, Chain, first, last, timer_of, Chain-store, store_self, store_other,
  TailIs,
}
use cpp_server.Timers.Adjust.{here_at, adjust_timer-Lists}
use cpp_server.Timers.Order.{AllFrom, Sorted, AllFrom-insert, insert-Sorted}
use cpp_server.Webserver.{Server, set_expire, renew_timer, timeslot}
use cpp_server.Webserver.Valid.{IsValid, AllBelow, AllBelow-insert}
use cpp_server.Timers.Insert.{insert}

-- The entry with its new time.
abbrev pub renewed : ℕ → Entry → Entry
renewed now x = record x { expire = now + 3 * timeslot }

NotIn-append : (i : ℕ) (us bs : List Entry) → NotIn i (us ++ bs) → NotIn i us × NotIn i bs
NotIn-append i [] bs h = (tt, h)
NotIn-append i (u ∷ us) bs h = let (a, b) = NotIn-append i us bs h.1 in ((h.0, a), b)

NotIn-before :
    (us : List Entry) (x : Entry) (bs : List Entry) → Distinct (us ++ x ∷ bs) → NotIn x.id us
NotIn-before [] x bs d = tt
NotIn-before (u ∷ us) x bs d =
    (λ e. (NotIn-append u.id us (x ∷ bs) d.0).1.0 (sym e), NotIn-before us x bs d.1)

NotIn-behind :
    (us : List Entry) (x : Entry) (bs : List Entry) → Distinct (us ++ x ∷ bs) → NotIn x.id bs
NotIn-behind [] x bs d = d.0
NotIn-behind (u ∷ us) x bs d = NotIn-behind us x bs d.1

first-renewed :
    (us : List Entry) (x : Entry) (bs : List Entry) (t : ℕ)
    → first (us ++ x ∷ bs) none ≡ first (us ++ record x { expire = t } ∷ bs) none
first-renewed [] x bs t = refl
first-renewed (u ∷ us) x bs t = refl

last-renewed :
    (p : Option ℕ) (us : List Entry) (x : Entry) (bs : List Entry) (t : ℕ)
    → last p (us ++ x ∷ bs) ≡ last p (us ++ record x { expire = t } ∷ bs)
last-renewed p [] x bs t = refl
last-renewed p (u ∷ us) x bs t = last-renewed (some u.id) us x bs t

-- A list in which the timer of `x` gets a new time.
Chain-renewed :
    (h : Heap) (p : Option ℕ) (us : List Entry) (x : Entry) (bs : List Entry) (t : ℕ)
    → Chain h p (us ++ x ∷ bs) none
    → NotIn x.id us
    → NotIn x.id bs
    → Chain
        (store h x.id (record (timer_of x (last p us) (first bs none)) { expire = t }))
        p
        (us ++ record x { expire = t } ∷ bs)
        none
Chain-renewed h p [] x bs t c before behind =
    (store_self h x.id _, Chain-store h (some x.id) bs none x.id _ behind c.1)
Chain-renewed h p (u ∷ us) x bs t c before behind = (
  store_other h x.id u.id _ (λ e. before.0 (sym e))
      ∙ c.0
      ∙ ap (λ n. some (timer_of u p n)) (first-renewed us x bs t),
  Chain-renewed h (some u.id) us x bs t c.1 before.1 behind,
)

TailIs-renewed :
    (l : TimerList) (h : Heap) (us : List Entry) (x : Entry) (bs : List Entry) (t : ℕ)
    → TailIs l (us ++ x ∷ bs)
    → TailIs (record l { heap = h }) (us ++ record x { expire = t } ∷ bs)
TailIs-renewed l h [] x bs t e = e
TailIs-renewed l h (u ∷ us) x bs t e = e ∙ last-renewed (some u.id) us x bs t

NotIn-renewed :
    (i : ℕ) (us : List Entry) (x : Entry) (bs : List Entry) (t : ℕ)
    → NotIn i (us ++ x ∷ bs)
    → NotIn i (us ++ record x { expire = t } ∷ bs)
NotIn-renewed i [] x bs t h = h
NotIn-renewed i (u ∷ us) x bs t h = (h.0, NotIn-renewed i us x bs t h.1)

Distinct-renewed :
    (us : List Entry) (x : Entry) (bs : List Entry) (t : ℕ)
    → Distinct (us ++ x ∷ bs)
    → Distinct (us ++ record x { expire = t } ∷ bs)
Distinct-renewed [] x bs t d = d
Distinct-renewed (u ∷ us) x bs t d =
    (NotIn-renewed u.id us x bs t d.0, Distinct-renewed us x bs t d.1)

AllFrom-renewed :
    (b : ℕ) (us : List Entry) (x : Entry) (bs : List Entry) (t : ℕ)
    → x.expire ≤ t
    → AllFrom b (us ++ x ∷ bs)
    → AllFrom b (us ++ insert (record x { expire = t }) bs)
AllFrom-renewed b [] x bs t le h =
    AllFrom-insert b (record x { expire = t }) bs (omega (arith, le, h.0)) h.1
AllFrom-renewed b (u ∷ us) x bs t le h = (h.0, AllFrom-renewed b us x bs t le h.1)

Sorted-renewed :
    (us : List Entry) (x : Entry) (bs : List Entry) (t : ℕ)
    → x.expire ≤ t
    → Sorted (us ++ x ∷ bs)
    → Sorted (us ++ insert (record x { expire = t }) bs)
Sorted-renewed [] x bs t le h = insert-Sorted (record x { expire = t }) bs h.1
Sorted-renewed (u ∷ us) x bs t le h =
    (AllFrom-renewed u.expire us x bs t le h.0, Sorted-renewed us x bs t le h.1)

AllBelow-renewed :
    (n : ℕ) (us : List Entry) (x : Entry) (bs : List Entry) (t : ℕ)
    → AllBelow n (us ++ x ∷ bs)
    → AllBelow n (us ++ insert (record x { expire = t }) bs)
AllBelow-renewed n [] x bs t h = AllBelow-insert n (record x { expire = t }) bs h.0 h.1
AllBelow-renewed n (u ∷ us) x bs t h = (h.0, AllBelow-renewed n us x bs t h.1)

set_expire-Lists :
    (now : ℕ) (l : TimerList) (us : List Entry) (x : Entry) (bs : List Entry)
    → Lists l (us ++ x ∷ bs)
    → (k : TimerList) × (set_expire now l x.id ≡ ok k) × Lists k (us ++ renewed now x ∷ bs)
unfolding set_expire
set_expire-Lists now l us x bs h =
    let here = (here_at l.heap none us x bs h.chain).0 in
    let t = now + 3 * timeslot in
    let heap =
      store l.heap x.id (record (timer_of x (last none us) (first bs none)) { expire = t }) in
    (
      record l { heap = heap },
      rw (here, set_expire) refl,
      record {
        from_head = h.from_head ∙ first-renewed us x bs t;
        to_tail = TailIs-renewed l heap us x bs t h.to_tail;
        chain =
            Chain-renewed l.heap none us x bs t h.chain (NotIn-before us x bs h.distinct)
              (NotIn-behind us x bs h.distinct);
        distinct = Distinct-renewed us x bs t h.distinct;
      },
    )

-- Data on a connection whose timer is in the list renew it without undefined behaviour: where the
-- clock has not gone back, the timers stay in order, the renewed one behind all that do not expire
-- later. The fuel is the number of timers behind it.
pub renew_timer-IsValid :
    (f now : ℕ) (s : Server) (us : List Entry) (x : Entry) (bs : List Entry)
    → IsValid s (us ++ x ∷ bs)
    → x.expire ≤ now + 3 * timeslot
    → length bs ≤ f
    → (s' : Server) × (renew_timer f now s x.id ≡ ok s')
      × IsValid s' (us ++ insert (renewed now x) bs)
      × (s'.clients ≡ s.clients)
unfolding renew_timer
renew_timer-IsValid f now s us x bs v le enough =
    let (l, e1, h1) = set_expire-Lists now s.timers us x bs v.listed in
    let (k, e2, h2) = adjust_timer-Lists f l us (renewed now x) bs h1 enough in
    (
      record s { timers = k },
      rw (e1, renew_timer) (rw e2 refl),
      record {
        listed = h2;
        sorted = Sorted-renewed us x bs (now + 3 * timeslot) le v.sorted;
        given_out = AllBelow-renewed s.fresh us x bs (now + 3 * timeslot) v.given_out;
        names = v.names;
      },
      refl,
    )

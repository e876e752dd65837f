-- ===== src/Webserver/Keeps.antt =====
-- The handlers of the event loop that take timers away keep the timers in order.
use cpp_server.Prelude.{ℕ, ◌+◌, ◌<◌, ◌≡◌, refl, none, some, List, [], ◌∷◌, ◌++◌, map, length}
use mathlib.Core.Path.{subst}
use cpp_server.Http.State.{ok}
use cpp_server.Timers.Chain.{Entry}
use cpp_server.Timers.Adjust.{here_at}
use cpp_server.Timers.Order.{AllFrom, AllUpTo, Sorted}
use cpp_server.Timers.Unlink.{del_timer-Lists}
use cpp_server.Timers.Remove.{tick-Lists}
use cpp_server.Webserver.{Server, deal_timer, cb_func}
use cpp_server.Webserver.Loop.{timer_handler, call_back}
use cpp_server.Webserver.Valid.{IsValid, AllBelow}

AllFrom-without :
    (b : ℕ) (us : List Entry) (x : Entry) (bs : List Entry)
    → AllFrom b (us ++ x ∷ bs)
    → AllFrom b (us ++ bs)
AllFrom-without b [] x bs h = h.1
AllFrom-without b (u ∷ us) x bs h = (h.0, AllFrom-without b us x bs h.1)

Sorted-without :
    (us : List Entry) (x : Entry) (bs : List Entry) → Sorted (us ++ x ∷ bs) → Sorted (us ++ bs)
Sorted-without [] x bs h = h.1
Sorted-without (u ∷ us) x bs h = (AllFrom-without u.expire us x bs h.0, Sorted-without us x bs h.1)

AllBelow-without :
    (n : ℕ) (us : List Entry) (x : Entry) (bs : List Entry)
    → AllBelow n (us ++ x ∷ bs)
    → AllBelow n (us ++ bs)
AllBelow-without n [] x bs h = h.1
AllBelow-without n (u ∷ us) x bs h = (h.0, AllBelow-without n us x bs h.1)

Sorted-behind : (us bs : List Entry) → Sorted (us ++ bs) → Sorted bs
Sorted-behind [] bs h = h
Sorted-behind (u ∷ us) bs h = Sorted-behind us bs h.1

AllBelow-behind : (n : ℕ) (us bs : List Entry) → AllBelow n (us ++ bs) → AllBelow n bs
AllBelow-behind n [] bs h = h
AllBelow-behind n (u ∷ us) bs h = AllBelow-behind n us bs h.1

-- A hang-up on a connection whose timer is in the list is handled without undefined behaviour: the
-- timer goes, the others stay in order, and the connection is closed and counted down; what the
-- server keeps of its clients is left as it was.
pub deal_timer-IsValid :
    (s : Server) (us : List Entry) (x : Entry) (bs : List Entry) (sockfd : ℕ)
    → IsValid s (us ++ x ∷ bs)
    → (s' : Server) × (deal_timer s (some x.id) sockfd ≡ ok s')
      × IsValid s' (us ++ bs)
      × (s'.shared ≡ cb_func (s.clients sockfd) s.shared)
      × (s'.clients ≡ s.clients)
unfolding deal_timer
deal_timer-IsValid s us x bs sockfd v =
    let (l, e, left, _) = del_timer-Lists s.timers us x bs v.listed in
    let here = (here_at s.timers.heap none us x bs v.listed.chain).0 in
    (
      record s { timers = l; shared = cb_func (s.clients sockfd) s.shared },
      rw (here, deal_timer) (rw e refl),
      record {
        listed = left;
        sorted = Sorted-without us x bs v.sorted;
        given_out = AllBelow-without s.fresh us x bs v.given_out;
        names = v.names;
      },
      refl,
      refl,
    )

-- A time-out of the server is handled without undefined behaviour, on fuel of one more than the
-- number of timers: `cb_func` is called for the connections of the timers `gone`, which are those at
-- the front of the list and have expired, the others stay in order, and each of them expires after
-- `now`; what the
-- server keeps of its clients is left as it was.
pub timer_handler-IsValid :
    (f now : ℕ) (s : Server) (es : List Entry)
    → IsValid s es
    → length es < f
    → (gone left : List Entry) × (s' : Server) × (timer_handler f now s ≡ ok s')
      × IsValid s' left
      × (es ≡ gone ++ left)
      × AllUpTo now gone
      × AllFrom (now + 1) left
      × (s'.shared ≡ call_back s (map (λ (e : Entry). e.user_data) gone))
      × (s'.clients ≡ s.clients)
unfolding timer_handler
timer_handler-IsValid f now s es v lt =
    let (gone, left, l, e, listed, split, before, after, _) =
      tick-Lists f now s.timers es v.listed v.sorted lt in
    let shared = call_back s (map (λ (e : Entry). e.user_data) gone) in
    (
      gone,
      left,
      record s { timers = l; shared = shared },
      rw e refl,
      record {
        listed = listed;
        sorted = Sorted-behind gone left (subst Sorted split v.sorted);
        given_out = AllBelow-behind s.fresh gone left (subst (AllBelow s.fresh) split v.given_out);
        names = v.names;
      },
      split,
      before,
      after,
      refl,
      refl,
    )

-- ===== src/Webserver/Reuse.antt =====
-- A descriptor that is used again while a timer of its old connection is in the list.
use mathlib.Core.Path.{subst}
use mathlib.Core.List.{append_assoc, append-nil, map-append}
use cpp_server.Prelude.{
  ℕ, ◌+◌, ◌*◌, ◌≤◌, ◌<◌, ◌≡◌, refl, sym, ap, ◌∙◌, inl, inr, ◌⊎◌, List, [], ◌∷◌, ◌++◌, map, pos,
  arith, length,
}
use cpp_server.Http.State.{ok, removefd, Effect, closes, deletes}
use cpp_server.Timers.Chain.{Entry}
use cpp_server.Timers.Insert.{insert, insert_before, insert_after}
use cpp_server.Timers.Order.{AllFrom, AllUpTo}
use cpp_server.Webserver.{Server, Client, set_timer, cb_func, max_fd, timeslot}
use cpp_server.Webserver.Loop.{timer_handler, call_back}
use cpp_server.Webserver.Valid.{IsValid, length-insert}
use cpp_server.Webserver.Accept.{entry, set_timer-IsValid}
use cpp_server.Webserver.Keeps.{timer_handler-IsValid}
use cpp_server.Webserver.Handlers.{insert_splits}
use cpp_server.Prelude.{ltb, Bool-cases, ==_refl}

abbrev pub Within : Entry → List Entry → Type 0
Within x es = (us bs : List Entry) × (es ≡ us ++ x ∷ bs)

Within-∷ : (x e : Entry) (es : List Entry) → Within x es → Within x (e ∷ es)
Within-∷ x e es (us, bs, eq) = (e ∷ us, bs, ap (λ z. e ∷ z) eq)

Within-insert : (x y : Entry) (us bs : List Entry) → Within x (insert y (us ++ x ∷ bs))
Within-insert x y [] bs = elim (Bool-cases (ltb y.expire x.expire)) [
  | inl less ↦ (y ∷ [], bs, insert_before y x bs less)
  | inr more ↦ ([], insert y bs, insert_after y x bs more)
]
Within-insert x y (u ∷ us) bs = elim (Bool-cases (ltb y.expire u.expire)) [
  | inl less ↦ (y ∷ u ∷ us, bs, insert_before y u (us ++ x ∷ bs) less)
  | inr more ↦ rw (insert_after y u (us ++ x ∷ bs) more) (Within-∷ x u _ (Within-insert x y us bs))
]

-- What stands in two lists stands in one of them.
Within-append :
    (x : Entry) (us bs gone left : List Entry)
    → gone ++ left ≡ us ++ x ∷ bs
    → Within x gone ⊎ Within x left
Within-append x us bs [] left e = inr (us, bs, e)
Within-append x [] bs (g ∷ gone) left e = inl ([], gone, cc)
Within-append x (u ∷ us) bs (g ∷ gone) left e =
    let rest : gone ++ left ≡ us ++ x ∷ bs = cc in
    elim (Within-append x us bs gone left rest) [
      | inl early ↦ inl (Within-∷ x g gone early)
      | inr late ↦ inr late
    ]

expires_from : (b : ℕ) (x : Entry) (us bs : List Entry) → AllFrom b (us ++ x ∷ bs) → b ≤ x.expire
expires_from b x [] bs h = h.0
expires_from b x (u ∷ us) bs h = expires_from b x us bs h.1

expires_by : (b : ℕ) (x : Entry) (us bs : List Entry) → AllUpTo b (us ++ x ∷ bs) → x.expire ≤ b
expires_by b x [] bs h = h.0
expires_by b x (u ∷ us) bs h = expires_by b x us bs h.1

-- The kernel calls of `cb_func` for some connections.
abbrev closing : (ℕ → Client) → List ℕ → List Effect
closing clients [] = []
closing clients (i ∷ is) =
    deletes (clients i).sockfd ∷ closes (clients i).sockfd ∷ closing clients is

closing-append :
    (clients : ℕ → Client) (is js : List ℕ)
    → closing clients (is ++ js) ≡ closing clients is ++ closing clients js
closing-append clients [] js = refl
closing-append clients (i ∷ is) js =
    ap (λ z. deletes (clients i).sockfd ∷ closes (clients i).sockfd ∷ z)
      (closing-append clients is js)

call_back-effects :
    (s : Server) (is : List ℕ) → (call_back s is).effects ≡ s.shared.effects ++ closing s.clients is
unfolding call_back cb_func removefd
call_back-effects s [] = sym (append-nil s.shared.effects)
call_back-effects s (i ∷ is) =
    call_back-effects (record s { shared = cb_func (s.clients i) s.shared }) is
    ∙ append_assoc s.shared.effects _ (closing s.clients is)

-- An expired timer is among those that go, and another one among those that stay.
goes :
    (t : ℕ) (x : Entry) (us bs gone left : List Entry)
    → gone ++ left ≡ us ++ x ∷ bs
    → x.expire ≤ t
    → AllFrom (t + 1) left
    → Within x gone
goes t x us bs gone left e due new = elim (Within-append x us bs gone left e) [
  | inl early ↦ early
  | inr (cs, ds, at) ↦
      absurd (omega (arith, expires_from (t + 1) x cs ds (subst (AllFrom (t + 1)) at new)))
]

stays :
    (t : ℕ) (x : Entry) (us bs gone left : List Entry)
    → gone ++ left ≡ us ++ x ∷ bs
    → t < x.expire
    → AllUpTo t gone
    → Within x left
stays t x us bs gone left e early old = elim (Within-append x us bs gone left e) [
  | inl (cs, ds, at) ↦ absurd (omega (arith, expires_by t x cs ds (subst (AllUpTo t) at old)))
  | inr late ↦ late
]

-- Among the closed descriptors is that of each timer that goes.
closes_each :
    (clients : ℕ → Client) (x : Entry) (gone : List Entry)
    → Within x gone
    → (before after : List Effect) × (closing clients (map (λ (e : Entry). e.user_data) gone)
        ≡ before ++ closes (clients x.user_data).sockfd ∷ after)
closes_each clients x gone (cs, ds, at) =
    let fd = λ (e : Entry). e.user_data in
    let front = closing clients (map fd cs) in
    let out : Effect = deletes (clients x.user_data).sockfd in
    let behind = closing clients (map fd ds) in
    (
      front ++ out ∷ [],
      behind,
      ap (λ z. closing clients (map fd z)) at
          ∙ ap (closing clients) (map-append fd cs (x ∷ ds))
          ∙ closing-append clients (map fd cs) (x.user_data ∷ map fd ds)
          ∙ sym (append_assoc front (out ∷ []) (closes (clients x.user_data).sockfd ∷ behind)),
    )

-- A worker that closes a connection leaves its timer `x` in the list. Where the kernel gives the
-- descriptor to a new connection and the old timer expires first, its time-out closes the
-- descriptor of the new connection, whose own timer has not expired and stays in the list. There is
-- no undefined behaviour, on fuel of two more than the number of timers.
pub timer_handler-set_timer :
    (f now t : ℕ) (s : Server) (us : List Entry) (x : Entry) (bs : List Entry)
    → IsValid s (us ++ x ∷ bs)
    → x.user_data < max_fd
    → x.expire ≤ t
    → t < now + 3 * timeslot
    → length (us ++ x ∷ bs) + 1 < f
    → (s1 s2 : Server) × (left : List Entry) × (set_timer f now s x.user_data ≡ ok s1)
      × (timer_handler f t s1 ≡ ok s2)
      × IsValid s2 left
      × Within (entry now s x.user_data) left
      × (before after : List Effect) × (s2.shared.effects
          ≡ s1.shared.effects ++ (before ++ closes (pos x.user_data) ∷ after))
timer_handler-set_timer f now t s us x bs v below due early enough =
    let y = entry now s x.user_data in
    let (s1, e1, v1, _, cl) = set_timer-IsValid f now s x.user_data _ v below (omega arith) in
    let (gone, left, s2, e2, v2, split, old, new, called, _) =
      timer_handler-IsValid f t s1 _ v1 (omega (arith, length-insert y (us ++ x ∷ bs))) in
    let (cs, ds, at) = insert_splits y (us ++ x ∷ bs) in
    let (gs, hs, at_x) = Within-insert x y us bs in
    let x_gone = goes t x gs hs gone left (sym split ∙ at_x) due new in
    let y_left = stays t y cs ds gone left (sym split ∙ at) early old in
    let (before, after, closed) = closes_each s1.clients x gone x_gone in
    let its_fd : (s1.clients x.user_data).sockfd ≡ pos x.user_data =
      ap (λ k. (k x.user_data).sockfd) cl ∙ rw (==_refl x.user_data) refl in
    (
      s1,
      s2,
      left,
      e1,
      e2,
      v2,
      y_left,
      before,
      after,
      ap (λ g. g.effects) called
          ∙ call_back-effects s1 (map (λ (e : Entry). e.user_data) gone)
          ∙ ap (λ z. s1.shared.effects ++ z) closed
          ∙ ap (λ z. s1.shared.effects ++ (before ++ closes z ∷ after)) its_fd,
    )

-- ===== src/Dbproxy/RoundTrip.antt =====
-- SavePrivateMsg and GetMsgs together, on a database that keeps what it is given.
use mathlib.Core.Path.{subst}
use mathlib.Core.List.{Perm}
use mathlib.Core.List.Perm
use cpp_server.Config.{to_int32}
use cpp_server.Prelude.{
  ℕ, ◌≡◌, refl, ap, ◌∙◌, Bool, true, false, ◌&&◌, Option, some, none, List, [], ◌∷◌, ◌++◌, ℤ, pos,
  negsuc, map, leb_ℤ, ◌==◌, if◌then◌else◌, ==→eq,
}
use cpp_server.CString.{codes}
use cpp_server.Dbproxy.{
  PrivateMsg, LastSendData, MsgIdRange, Msg, Value, int, text, Query, Pool, Command, Called, failed,
  replied, Failure, Backend, returns, choose_database, run_query,
}
use cpp_server.Dbproxy.Save.{
  insert_two, insert_private, save_private_msg, set_user_last_send_data, last_send_command,
  or_invalid,
}
use cpp_server.Dbproxy.Select.{select_msgs, to_msg, read_rows, select_list, answer_rows, get_msgs}

-- A row as the statements give it its values, and as the select gives them back.
abbrev pub given : Msg → List Value
given a =
    int a.user_id
    ∷ int a.sender
    ∷ int a.receiver
    ∷ int a.msg_id
    ∷ int a.group_id
    ∷ text a.message
    ∷ int a.client_time
    ∷ int a.msg_time
    ∷ []

abbrev pub selected : Msg → List Value
selected a =
    int a.sender
    ∷ int a.receiver
    ∷ int a.msg_id
    ∷ int a.group_id
    ∷ text a.message
    ∷ int a.client_time
    ∷ int a.msg_time
    ∷ []

abbrev pub eq_ℤ : ℤ → ℤ → Bool
eq_ℤ (pos a) (pos b) = a == b
eq_ℤ (negsuc a) (negsuc b) = a == b
eq_ℤ (pos a) (negsuc b) = false
eq_ℤ (negsuc a) (pos b) = false

eq_ℤ→eq : (a b : ℤ) → eq_ℤ a b ≡ true → a ≡ b
eq_ℤ→eq (pos a) (pos b) e = ap pos (==→eq a b e)
eq_ℤ→eq (negsuc a) (negsuc b) e = ap negsuc (==→eq a b e)
eq_ℤ→eq (pos a) (negsuc b) e = absurd (cc)
eq_ℤ→eq (negsuc a) (pos b) e = absurd (cc)

abbrev pub in_range : MsgIdRange → Msg → Bool
in_range r a =
    eq_ℤ a.user_id r.user_id && (leb_ℤ r.start_msg_id a.msg_id && leb_ℤ a.msg_id r.end_msg_id)

-- The rows of a range, in the order of the table.
abbrev pub matching : MsgIdRange → List Msg → List Msg
matching r [] = []
matching r (a ∷ ms) = let rest = matching r ms in if in_range r a then a ∷ rest else rest

-- What MySQL and redis do for these statements: the table keeps what is inserted, the select gives
-- the rows of the range, in any order, and redis does not touch the table.
pub record Keeps {W : Type 0} (b : Backend W) (table : W → List Msg) : Type 0 where
  pub connects :
      (p : Pool) (w : W) → (w1 : W) × (b.open_session p w ≡ some w1) × (table w1 ≡ table w)
  pub inserts :
      (p : Pool) (w : W) (a c : Msg)
      → (rows : List (List Value)) × (w1 : W) × (b.execute p
            (record { sql = insert_two; uses = given a ++ given c })
            w
          ≡ (some rows, w1))
        × (table w1 ≡ table w ++ a ∷ c ∷ [])
  pub selects :
      (p : Pool) (w : W) (r : MsgIdRange)
      → (rows : List Msg) × Perm rows (matching r (table w))
        × (w1 : W) × (b.execute p
              (record {
                sql = select_msgs;
                uses = int r.user_id ∷ int r.start_msg_id ∷ int r.end_msg_id ∷ [];
              })
              w
            ≡ (some (map selected rows), w1))
  pub redis_apart : (c : Command) (w : W) → table (b.call_redis c w).1 ≡ table w

-- The rows of a private message.
abbrev pub row_of : PrivateMsg → ℤ → ℤ → Msg
row_of m user_id msg_id = record {
  user_id = user_id;
  msg_id = msg_id;
  sender = m.sender;
  receiver = m.receiver;
  message = m.message;
  group_id = pos 0;
  client_time = m.client_time;
  msg_time = m.msg_time;
}

-- A row as GetMsgs answers with it: for the user that was asked for, with the times as ints.
abbrev pub as_read : ℤ → Msg → Msg
as_read user_id a = record a {
  user_id = user_id;
  client_time = to_int32 a.client_time;
  msg_time = to_int32 a.msg_time;
}

to_msg-selected : (u : ℤ) (a : Msg) → to_msg u (selected a) ≡ some (as_read u a)
unfolding to_msg
to_msg-selected u a = refl

read_rows-cons :
    (f : List Value → Option Msg) (r : List Value) (rs : List (List Value)) (a : Msg)
    (ms : List Msg)
    → f r ≡ some a
    → read_rows f rs ≡ some ms
    → read_rows f (r ∷ rs) ≡ some (a ∷ ms)
read_rows-cons f r rs a ms e es = rw (e, read_rows) (rw es refl)

read_rows-selected :
    (u : ℤ) (ms : List Msg) → read_rows (to_msg u) (map selected ms) ≡ some (map (as_read u) ms)
read_rows-selected u [] = refl
read_rows-selected u (a ∷ ms) =
    read_rows-cons (to_msg u) (selected a) _ (as_read u a) _ (to_msg-selected u a)
      (read_rows-selected u ms)

module _ {W : Type 0} (b : Backend W) where
  pub run_query_ok :
      (p : Pool) (q : Query) (w w1 : W) (r : Option (List (List Value)) × W)
      → b.open_session p w ≡ some w1
      → b.execute p q w1 ≡ r
      → run_query b p q w ≡ r
  unfolding run_query
  run_query_ok p q w w1 r e1 e2 = rw (e1, run_query) e2

  select_list_ok :
      {A : Type 0} (f : List Value → Option A) (reason : List ℕ) (p : Pool) (q : Query)
      (w w1 w2 : W) (rows : List (List Value)) (ms_ : List A)
      → b.open_session p w ≡ some w1
      → b.execute p q w1 ≡ (some rows, w2)
      → read_rows f rows ≡ some ms_
      → select_list b f reason p q w ≡ returns none ms_ w2
  unfolding select_list
  select_list_ok f reason p q w w1 w2 rows ms_ e1 e2 e3 =
      rw (e1, select_list) (rw e2 (rw (e3, answer_rows) refl))

or_invalid-returns :
    {W : Type 0} (reason : List ℕ) (c : Called) (w : W)
    → (f : Option Failure) × (or_invalid reason (c, w) ≡ returns f tt w)
or_invalid-returns reason (failed f) w = (_, refl)
or_invalid-returns reason (replied r) w = (_, refl)

module _ {W : Type 0} (b : Backend W) (table : W → List Msg) (k : Keeps b table) where
  get_msgs-matching :
      (r : MsgIdRange) (w : W)
      → (ms : List Msg) × (w1 : W) × (get_msgs b r w ≡ returns none ms w1)
        × Perm ms (map (as_read r.user_id) (matching r (table w)))
  unfolding get_msgs
  get_msgs-matching r w =
      let pool = choose_database r.user_id in
      let (w1, e1, t1) = k.connects pool w in
      let (rows, same, w2, e2) = k.selects pool w1 r in
      (
        map (as_read r.user_id) rows,
        w2,
        select_list_ok b (to_msg r.user_id) _ pool _ w w1 w2 _ _ e1 e2
            (read_rows-selected r.user_id rows),
        subst (λ t. Perm (map (as_read r.user_id) rows) (map (as_read r.user_id) (matching r t))) t1
            (Perm.map (as_read r.user_id) same),
      )

  set_last-table :
      (d : LastSendData) (w : W)
      → (f : Option Failure) × (w1 : W) × (set_user_last_send_data b d w ≡ returns f tt w1)
        × (table w1 ≡ table w)
  unfolding set_user_last_send_data
  set_last-table d w =
      let c = b.call_redis (last_send_command d) w in
      let (f, e) = or_invalid-returns (codes "fail to set user last send data") c.0 c.1 in
      (f, c.1, e, k.redis_apart (last_send_command d) w)

  insert_private-table :
      (m : PrivateMsg) (w : W)
      → (w1 : W) × (insert_private b m w ≡ (some tt, w1))
        × (table w1
            ≡ table w
              ++ row_of m m.sender m.sender_msg_id ∷ row_of m m.receiver m.receiver_msg_id ∷ [])
  unfolding insert_private choose_database
  insert_private-table m w =
      let pool = choose_database m.sender in
      let (w1, e1, t1) = k.connects pool w in
      let sent = row_of m m.sender m.sender_msg_id in
      let got = row_of m m.receiver m.receiver_msg_id in
      let (rows, w2, e2, t2) = k.inserts pool w1 sent got in
      (
        w2,
        rw (run_query_ok b pool _ w w1 (some rows, w2) e1 e2) refl,
        t2 ∙ ap (λ t. t ++ sent ∷ got ∷ []) t1,
      )

  -- A private message that is saved is read back: SavePrivateMsg returns, and GetMsgs then gives,
  -- for any range and in any order, the rows of the range that were there and those of the message,
  -- the sender's and the receiver's, with every field as it was sent but the times, which are those
  -- that were sent as `static_cast<int>` leaves them. This holds on a database that keeps the rows,
  -- whether or not redis answers.
  pub get_msgs-save_private_msg :
      (m : PrivateMsg) (r : MsgIdRange) (w : W)
      → (f : Option Failure) × (ms : List Msg) × (w1 : W) × (w2 : W) × (save_private_msg b m w
          ≡ returns f tt w1)
        × (get_msgs b r w1 ≡ returns none ms w2)
        × Perm ms (
            map (as_read r.user_id) (
              matching r (
                table w
                ++ row_of m m.sender m.sender_msg_id ∷ row_of m m.receiver m.receiver_msg_id ∷ [])))
  unfolding save_private_msg
  get_msgs-save_private_msg m r w =
      let (w1, e1, t1) = insert_private-table m w in
      let d : LastSendData = record {
        user_id = m.sender;
        msg_id = m.sender_msg_id;
        client_time = m.client_time;
        msg_time = m.msg_time;
      } in
      let (f, w2, e2, t2) = set_last-table d w1 in
      let (ms, w3, e3, all) = get_msgs-matching r w2 in
      (
        f,
        ms,
        w2,
        w3,
        rw e1 e2,
        e3,
        subst (λ t. Perm ms (map (as_read r.user_id) (matching r t))) (t2 ∙ t1) all,
      )

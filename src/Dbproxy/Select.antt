-- ===== src/Dbproxy/Select.antt =====
-- The handlers that read: the last message sent, sessions, messages, friends and groups.
use cpp_server.Prelude.{
  ℕ, Option, none, some, List, [], ◌∷◌, ◌++◌, ℤ, pos, ◌==◌, length, if◌then◌else◌,
}
use cpp_server.CString.{codes, joined}
use cpp_server.Config.{to_int32}
use cpp_server.Dbproxy.{
  LastSendData, MsgIdRange, Msg, Info, Session, Value, null, int, text, Query, Pool, pieces, whole,
  Item, string_item, other_item, Reply, single, array, Called, failed, replied, Backend, Result,
  returns, throws, aborts, invalid, choose_database, session_key, last_send_key, run_query,
}

abbrev pub select_last : List ℕ
select_last = joined (
    codes "SELECT msg_id,UNIX_TIMESTAMP(client_time),UNIX_TIMESTAMP(msg_time) FROM messages "
    ∷ codes "WHERE user_id=:user_id and sender = :sender "
    ∷ codes
        "AND client_time = (SELECT MAX(client_time) FROM messages WHERE user_id= :user_id2 AND sender=:sender2);"
    ∷ [])

abbrev pub select_msgs : List ℕ
select_msgs = joined (
    codes
      "SELECT sender, receiver, msg_id,group_id,message, UNIX_TIMESTAMP(client_time),UNIX_TIMESTAMP(msg_time)"
    ∷ codes "FROM messages "
    ∷ codes "WHERE user_id=:user_id AND msg_id BETWEEN :start_msg_id AND :end_msg_id AND deleted =0"
    ∷ [])

-- The texts of GetFriends and GetGroups have no space in front of FROM and WHERE.
abbrev pub select_friends : List ℕ
select_friends = codes "SELECT peer_id,peer_nameFROM friendsWHERE user_id=:user_id AND deleted=0"

abbrev pub select_groups : List ℕ
select_groups = codes "SELECT group_id,group_nameFROM group_membersWHERE user_id=:user_id"

abbrev pub select_members : List ℕ
select_members = codes "SELECT user_id,user_name FROM group_members WHERE group_id =:group_id"

abbrev pub last_data : ℤ → ℤ → ℤ → LastSendData
last_data msg_id client_time msg_time = record {
  user_id = pos 0;
  msg_id = msg_id;
  client_time = client_time;
  msg_time = msg_time;
}

-- The variables behind `sscanf`: those that it does not convert stay 0. The user is never set.
unfoldable pub scanned : List ℤ → LastSendData
scanned [] = last_data (pos 0) (pos 0) (pos 0)
scanned (a ∷ []) = last_data a (pos 0) (pos 0)
scanned (a ∷ c ∷ []) = last_data a c (pos 0)
scanned (a ∷ c ∷ m ∷ rest) = last_data a c m

-- The variables behind the select. Without a row they stay 0, whatever the indicator is, which
-- nobody has set; `none` is a column of another type.
unfoldable pub fetched : List (List Value) → Option LastSendData
fetched [] = some (last_data (pos 0) (pos 0) (pos 0))
fetched ((int a ∷ int c ∷ int m ∷ []) ∷ rows) = some (last_data a c m)
fetched ((null ∷ row) ∷ rows) = some (last_data (pos 0) (pos 0) (pos 0))
fetched (row ∷ rows) = none

-- A row as the loop of `GetMsgs` reads it, the times cast to int; `none` is a column of another type,
-- for which soci throws.
unfoldable pub to_msg : ℤ → List Value → Option Msg
to_msg user_id (int s ∷ int r ∷ int i ∷ int g ∷ text m ∷ int c ∷ int t ∷ []) = some (record {
  user_id = user_id;
  msg_id = i;
  sender = s;
  receiver = r;
  message = m;
  group_id = g;
  client_time = to_int32 c;
  msg_time = to_int32 t;
})
to_msg user_id row = none

unfoldable pub to_info : List Value → Option Info
to_info (int i ∷ text n ∷ []) = some (record { id = i; name = n })
to_info row = none

module _ {A : Type 0} where
  -- The loop over the rows: what it has added, and whether all of them have the right types.
  abbrev pub read_rows : (List Value → Option A) → List (List Value) → Option (List A)
  read_rows f [] = some []
  read_rows f (r ∷ rs) = elim (f r) [
    | none ↦ none
    | some a ↦ elim (read_rows f rs) [ none ↦ none | some rest ↦ some (a ∷ rest) ]
  ]

-- "MGET " and the keys, with no space between them.
unfoldable pub keys_of : List ℤ → List ℕ
keys_of [] = []
keys_of (u ∷ us) = session_key u ++ keys_of us

abbrev pub session_of : ℤ → Item → Session
session_of u (string_item addr) = record { user_id = u; addr = some addr }
session_of u other_item = record { user_id = u; addr = none }

-- The loop of `GetSessions`, where the reply has as many items as there are users.
unfoldable pub sessions_of : List ℤ → List Item → List Session
sessions_of (u ∷ us) (i ∷ is) = session_of u i ∷ sessions_of us is
sessions_of [] is = []
sessions_of (u ∷ us) [] = []

-- `RedisReply::size`
abbrev pub reply_size : Reply → ℕ
reply_size (single (string_item s)) = length s
reply_size (single other_item) = 0
reply_size (array is) = length is

abbrev pub items : Reply → List Item
items (single i) = []
items (array is) = is

module _ {W : Type 0} where
  -- `CHECK_EQ`, and the loop behind it.
  abbrev pub answer_sessions : List ℤ → Called × W → Result W (List Session)
  answer_sessions us (failed f, w) = returns (some f) [] w
  answer_sessions us (replied r, w) =
      if reply_size r == length us then returns none (sessions_of us (items r)) w else aborts

  abbrev last_of_rows : Option (List (List Value)) × W → Result W (Option LastSendData)
  last_of_rows (none, w) = returns (invalid (codes "Fail to select from messages. ")) none w
  last_of_rows (some rows, w) = elim (fetched rows) [
    | none ↦ returns (invalid (codes "Fail to select from messages. ")) none w
    | some d ↦ returns none (some d) w
  ]

  -- The rows of a select, which the handler reads; only exceptions of soci are caught, and those are
  -- what `none` stands for.
  abbrev pub answer_rows :
      {A : Type 0}
      → (List Value → Option A)
      → List ℕ
      → Option (List (List Value)) × W
      → Result W (List A)
  answer_rows f reason (none, w) = returns (invalid reason) [] w
  answer_rows f reason (some rows, w) = elim (read_rows f rows) [
    | none ↦ throws w
    | some ms ↦ returns none ms w
  ]

module _ {W : Type 0} (b : Backend W) where
  -- A handler opens its session outside the `try`.
  unfoldable pub select_list :
      {A : Type 0} → (List Value → Option A) → List ℕ → Pool → Query → W → Result W (List A)
  select_list f reason pool q w = elim (b.open_session pool w) [
    | none ↦ throws w
    | some w1 ↦ answer_rows f reason (b.execute pool q w1)
  ]

  abbrev last_of_reply : ℤ → Called × W → Result W (Option LastSendData)
  last_of_reply u (failed f, w) = returns (invalid (codes "Fail to get data from redis.")) none w
  last_of_reply u (replied (single (string_item s)), w) =
      returns none (some (scanned (b.sscanf s))) w
  last_of_reply u (replied r, w) = last_of_rows (
      run_query b (choose_database u)
        (record { sql = select_last; uses = int u ∷ int u ∷ int u ∷ int u ∷ [] }) w)

  -- `none` is an answer that is left as it was.
  unfoldable pub get_user_last_send_data : ℤ → W → Result W (Option LastSendData)
  get_user_last_send_data u w =
      last_of_reply u (b.call_redis (pieces (codes "GET" ∷ last_send_key u ∷ [])) w)

  unfoldable pub get_sessions : List ℤ → W → Result W (List Session)
  get_sessions us w = answer_sessions us (b.call_redis (whole (codes "MGET " ++ keys_of us)) w)

  unfoldable pub get_msgs : MsgIdRange → W → Result W (List Msg)
  get_msgs r w =
      select_list (to_msg r.user_id) (codes "fail to select from messages. ")
        (choose_database r.user_id)
        (record {
          sql = select_msgs;
          uses = int r.user_id ∷ int r.start_msg_id ∷ int r.end_msg_id ∷ [];
        })
        w

  unfoldable pub get_friends : ℤ → W → Result W (List Info)
  get_friends u w =
      select_list to_info (codes "fail to select from friends.") (choose_database u)
        (record { sql = select_friends; uses = int u ∷ [] }) w

  unfoldable pub get_groups : ℤ → W → Result W (List Info)
  get_groups u w =
      select_list to_info (codes "fail to select from group_members.") (choose_database u)
        (record { sql = select_groups; uses = int u ∷ [] }) w

  unfoldable pub get_group_members : ℤ → W → Result W (List Info)
  get_group_members g w =
      select_list to_info (codes "Fail to select from group_members.") (choose_database g)
        (record { sql = select_members; uses = int g ∷ [] }) w

-- ===== src/Dbproxy/Save.antt =====
-- The handlers that write: sessions, messages, and the data of the last message sent.
use cpp_server.Prelude.{ℕ, true, false, Option, none, some, List, [], ◌∷◌, ◌++◌, ℤ, pos}
use cpp_server.CString.{codes, joined}
use cpp_server.CString.Decimal.{print_int}
use cpp_server.Dbproxy.{
  PrivateMsg, UserAndMsgId, GroupMsg, LastSendData, Value, int, text, Command, pieces, whole,
  Called, failed, replied, Backend, Result, returns, invalid, choose_database, same_pool,
  session_key, last_send_key, run_query,
}

abbrev columns : List ℕ
columns =
    codes
      "INSERT INTO messages(user_id, sender, receiver, msg_id, group_id, message, client_time, msg_time) "

-- The statement for both rows of a private message.
abbrev pub insert_two : List ℕ
insert_two = joined (
    columns
    ∷ codes
        "VALUES (:user_id, :sender, :receiver, :msg_id, :group_id, :message, FROM_UNIXTIME(:client_time), FROM_UNIXTIME(:msg_time)), "
    ∷ codes
        "(:receiver2, :sender2, :receiver2, :receiver_msg_id2, :group_id2, :message2, FROM_UNIXTIME(:client_time2), FROM_UNIXTIME(:msg_time2));"
    ∷ [])

abbrev pub insert_sender : List ℕ
insert_sender = joined (
    codes
      "INSERT INTO messages(user_id, sender,receiver,msg_id,group_id,message,client_time,msg_time) "
    ∷ codes
        "VALUES (:user_id,:sender,:receiver,:msg_id,:group_id,:message, FROM_UNIXTIME(:client_time), FROM_UNIXTIME(:msg_time));"
    ∷ [])

abbrev pub insert_receiver : List ℕ
insert_receiver = joined (
    columns
    ∷ codes
        "VALUES (:user_id, :sender, :receiver, :receiver_msg_id, :group_id, :message, FROM_UNIXTIME(:client_send), FROM_UNIXTIME(:msg_time));"
    ∷ [])

abbrev pub insert_member : List ℕ
insert_member = joined (
    codes
      "INSERT INTO messages(user_id, sender,receiver,msg_id,group_id,message,client_time, msg_time) "
    ∷ codes
        "VALUES (:user_id,:sender,:receiver,:msg_id,:group_id,:message,FROM_UNIXTIME(:client_time),FROM_UNIXTIME(:msg_time)) "
    ∷ [])

-- The values of the row of `user_id` for a private message.
abbrev pub private_row : PrivateMsg → ℤ → ℤ → List Value
private_row m user_id msg_id =
    int user_id
    ∷ int m.sender
    ∷ int m.receiver
    ∷ int msg_id
    ∷ int (pos 0)
    ∷ text m.message
    ∷ int m.client_time
    ∷ int m.msg_time
    ∷ []

abbrev pub group_row : GroupMsg → UserAndMsgId → List Value
group_row g u =
    int u.user_id
    ∷ int g.sender_user_id
    ∷ int g.group_id
    ∷ int u.msg_id
    ∷ int g.group_id
    ∷ text g.message
    ∷ int g.client_time
    ∷ int g.msg_time
    ∷ []

-- The last_send_script of `SetUserLastSendData_`.
abbrev pub last_send_script : List ℕ
last_send_script = joined (
    codes "eval \"local a = redis.call('GET,KEYS[1])"
    ∷ codes " if (a == false or tonumber(cjson.decode(a)[2]) < tonumber(ARGC[2])) then"
    ∷ codes " redis.call('SETEX',KEYS[1],3600, cjson.encode({ARGV[1],ARGV[2],ARGV[3]}))return 1"
    ∷ codes " elsereturn 0 end\" "
    ∷ [])

abbrev pub last_send_command : LastSendData → Command
last_send_command d = whole (
    joined (
      last_send_script
      ∷ codes "1 "
      ∷ last_send_key d.user_id
      ∷ codes " "
      ∷ print_int d.msg_id
      ∷ codes " "
      ∷ print_int d.client_time
      ∷ codes " "
      ∷ print_int d.msg_time
      ∷ []))

module _ {W : Type 0} where
  -- What comes after a statement, unless it throws.
  abbrev pub then_do :
      Option (List (List Value)) × W → (W → Option (Unit {0}) × W) → Option (Unit {0}) × W
  then_do (none, w) f = (none, w)
  then_do (some rows, w) f = f w

  -- The handler behind its `try`; the `catch` answers with the reason.
  abbrev pub unless_thrown :
      List ℕ → Option (Unit {0}) × W → (W → Result W (Unit {0})) → Result W (Unit {0})
  unless_thrown reason (none, w) f = returns (invalid reason) tt w
  unless_thrown reason (some done, w) f = f w

  -- The failure of a call, as the handlers of sessions pass it on.
  abbrev pub pass_on : Called × W → Result W (Unit {0})
  pass_on (failed f, w) = returns (some f) tt w
  pass_on (replied r, w) = returns none tt w

  abbrev pub or_invalid : List ℕ → Called × W → Result W (Unit {0})
  or_invalid reason (failed f, w) = returns (invalid reason) tt w
  or_invalid reason (replied r, w) = returns none tt w

module _ {W : Type 0} (b : Backend W) where
  unfoldable pub auth_and_save_session : ℤ → List ℕ → W → Result W (Unit {0})
  auth_and_save_session user_id access_addr w = pass_on (
      b.call_redis
        (pieces (codes "SET" ∷ session_key user_id ∷ access_addr ∷ codes "EX" ∷ codes "3600" ∷ []))
        w)

  unfoldable pub clear_session : ℤ → W → Result W (Unit {0})
  clear_session user_id w =
      pass_on (b.call_redis (pieces (codes "DEL" ∷ session_key user_id ∷ [])) w)

  -- `SetUserLastSendData_`, and with it `SetUserLastSendData`.
  unfoldable pub set_user_last_send_data : LastSendData → W → Result W (Unit {0})
  set_user_last_send_data d w =
      or_invalid (codes "fail to set user last send data") (b.call_redis (last_send_command d) w)

  -- The body of the `try` of `SavePrivateMsg`; `none` is an exception.
  unfoldable pub insert_private : PrivateMsg → W → Option (Unit {0}) × W
  insert_private m w =
      let pool = choose_database m.sender in
      let peer_pool = choose_database m.receiver in
      let to_sender = private_row m m.sender m.sender_msg_id in
      let to_receiver = private_row m m.receiver m.receiver_msg_id in
      elim (same_pool pool peer_pool) [
        | true ↦
            then_do
              (run_query b pool (record { sql = insert_two; uses = to_sender ++ to_receiver }) w)
              λ w1. (some tt, w1)
        | false ↦
            then_do (run_query b pool (record { sql = insert_sender; uses = to_sender }) w) λ w1.
              then_do
                (run_query b peer_pool (record { sql = insert_receiver; uses = to_receiver }) w1)
                λ w2. (some tt, w2)
      ]

  unfoldable pub save_private_msg : PrivateMsg → W → Result W (Unit {0})
  save_private_msg m w = unless_thrown (codes "Fail to insert to message.") (insert_private m w) (
      set_user_last_send_data (record {
        user_id = m.sender;
        msg_id = m.sender_msg_id;
        client_time = m.client_time;
        msg_time = m.msg_time;
      }))

  -- The loop of `SaveGroupMsg`.
  unfoldable pub insert_members : GroupMsg → List UserAndMsgId → W → Option (Unit {0}) × W
  insert_members g [] w = (some tt, w)
  insert_members g (u ∷ us) w =
      then_do
        (run_query b (choose_database u.user_id)
          (record { sql = insert_member; uses = group_row g u }) w)
        (insert_members g us)

  unfoldable pub save_group_msg : GroupMsg → W → Result W (Unit {0})
  save_group_msg g w =
      unless_thrown (codes "fail to insert into messgaes.") (insert_members g g.user_and_msgids w) (
        set_user_last_send_data (record {
          user_id = g.sender_user_id;
          msg_id = g.sender_msg_id;
          client_time = g.client_time;
          msg_time = g.msg_time;
        }))

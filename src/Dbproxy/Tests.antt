-- ===== src/Dbproxy/Tests.antt =====
-- A database that is one table, and a redis that forgets.
use mathlib.Core.List.{Perm}
use mathlib.Core.List.Perm
use cpp_server.Prelude.{ℕ, ◌≡◌, refl, Option, some, none, List, [], ◌∷◌, ◌++◌, pos, map}
use cpp_server.CString.{codes}
use cpp_server.Dbproxy.{
  PrivateMsg, UserAndMsgId, GroupMsg, MsgIdRange, Msg, Value, int, text, other_item, array, replied,
  Failure, Backend, returns, aborts, invalid, run_query,
}
use cpp_server.Dbproxy.Save.{group_row, save_private_msg, save_group_msg}
use cpp_server.Dbproxy.Select.{get_msgs, get_sessions, session_of}
use cpp_server.Dbproxy.RoundTrip.{
  Keeps, selected, matching, row_of, as_read, get_msgs-save_private_msg,
}
use cpp_server.Dbproxy.Failures.{nobody, another, insert_one, save_group_msg_partial}
use cpp_server.Dbproxy.Keys.{get_sessions_many}

abbrev Table : Type 0
Table = List Msg

abbrev to_rows : List Value → Table
to_rows (int u ∷ int s ∷ int r ∷ int i ∷ int g ∷ text m ∷ int c ∷ int t ∷ rest) =
    record {
      user_id = u;
      msg_id = i;
      sender = s;
      receiver = r;
      message = m;
      group_id = g;
      client_time = c;
      msg_time = t;
    }
    ∷ to_rows rest
to_rows row = []

-- A select has three values, an insert eight or more.
abbrev serve_query : List Value → Table → Option (List (List Value)) × Table
serve_query (int u ∷ int lo ∷ int hi ∷ []) t = (
  some (map selected (matching (record { user_id = u; start_msg_id = lo; end_msg_id = hi }) t)),
  t,
)
serve_query row t = (some [], t ++ to_rows row)

abbrev backend : Backend Table
backend = record {
  open_session = λ p t. some t;
  execute = λ p q t. serve_query q.uses t;
  call_redis = λ c t. (replied (array (other_item ∷ [])), t);
  sscanf = λ s. [];
}

backend-Keeps : Keeps backend (λ t. t)
backend-Keeps = record {
  connects = λ p t. (t, refl, refl);
  inserts = λ p t a c. ([], t ++ a ∷ c ∷ [], refl, refl);
  selects = λ p t r. (matching r t, Perm.rfl, t, refl);
  redis_apart = λ c t. refl;
}

abbrev hello : PrivateMsg
hello = record {
  sender = pos 7;
  sender_msg_id = pos 3;
  receiver = pos 8;
  receiver_msg_id = pos 5;
  message = codes "hello";
  msg_time = pos 1700000000;
  client_time = pos 1699999999;
}

abbrev inbox : MsgIdRange
inbox = record { user_id = pos 8; start_msg_id = pos 1; end_msg_id = pos 9 }

get_msgs-save_private_msg_example :
    (f : Option Failure) × (ms : List Msg) × (t1 : Table) × (t2 : Table) × (save_private_msg backend
        hello []
      ≡ returns f tt t1)
    × (get_msgs backend inbox t1 ≡ returns none ms t2)
    × Perm ms (
        map
          (as_read (pos 8))
          (matching inbox ([] ++ row_of hello (pos 7) (pos 3) ∷ row_of hello (pos 8) (pos 5) ∷ [])))
get_msgs-save_private_msg_example =
    get_msgs-save_private_msg backend (λ t. t) backend-Keeps hello inbox []

-- The receiver finds the message.
received :
    matching inbox (row_of hello (pos 7) (pos 3) ∷ row_of hello (pos 8) (pos 5) ∷ [])
    ≡ row_of hello (pos 8) (pos 5) ∷ []
received = refl

get_sessions_many_example :
    ((t : Table) × (get_sessions backend (pos 7 ∷ []) []
        ≡ returns none (session_of (pos 7) other_item ∷ []) t))
    × (get_sessions backend (pos 7 ∷ pos 8 ∷ []) [] ≡ aborts)
get_sessions_many_example =
    get_sessions_many backend (λ key t. other_item) (pos 7) (pos 8) [] []
      (λ key t clean full. (t, refl))

-- A database that refuses every statement behind the first.
abbrev full_after : List Value → Table → Option (List (List Value)) × Table
full_after row [] = (some [], to_rows row)
full_after row (a ∷ t) = (none, a ∷ t)

abbrev refuses : Backend Table
refuses = record backend { execute = λ p q t. full_after q.uses t }

abbrev member : ℕ → UserAndMsgId
member n = record { user_id = pos n; msg_id = pos 1 }

abbrev meeting : GroupMsg
meeting = record {
  group_id = pos 40;
  user_and_msgids = member 1 ∷ member 2 ∷ member 3 ∷ [];
  sender_user_id = pos 1;
  sender_msg_id = pos 1;
  message = codes "now";
  msg_time = pos 10;
  client_time = pos 9;
}

abbrev first_row : Table
first_row = to_rows (group_row meeting (member 1))

first_goes : insert_one refuses meeting (member 1) [] ≡ (some [], first_row)
unfolding run_query
first_goes = refl

second_fails : insert_one refuses meeting (member 2) first_row ≡ (none, first_row)
unfolding run_query
second_fails = refl

save_group_msg_partial_example :
    save_group_msg refuses meeting []
    ≡ returns (invalid (codes "fail to insert into messgaes.")) tt first_row
save_group_msg_partial_example =
    save_group_msg_partial refuses meeting (member 1 ∷ []) (member 2) (member 3 ∷ []) [] first_row
      first_row refl (another (member 1) [] [] [] first_row first_row first_goes (nobody first_row))
      second_fails

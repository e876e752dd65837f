-- ===== src/Dbproxy.antt =====
-- ocean_im/oceanim/server/dbproxy/dbproxy_service.cpp, .h: the handlers of the database proxy.
-- MySQL through soci, redis through brpc and `sscanf` are arguments, gathered in `Backend`; a
-- statement is its text with the values that it is given. The log lines and `done` are left out.
pub mod Save
pub mod Select
pub mod RoundTrip
pub mod Failures
pub mod Keys
mod Tests
use cpp_server.Prelude.{
  ℕ, zero, suc, ◌+◌, Bool, true, false, Option, none, some, List, [], ◌∷◌, ◌++◌, ℤ, pos, length,
}
use cpp_server.CString.{codes, joined}
use cpp_server.CString.Decimal.{print_int}

-- The messages of common/messages.proto that the handlers read.
pub record PrivateMsg : Type 0 where
  pub sender : ℤ
  pub sender_msg_id : ℤ
  pub receiver : ℤ
  pub receiver_msg_id : ℤ
  pub message : List ℕ
  pub msg_time : ℤ
  pub client_time : ℤ

pub record UserAndMsgId : Type 0 where
  pub user_id : ℤ
  pub msg_id : ℤ

pub record GroupMsg : Type 0 where
  pub group_id : ℤ
  pub user_and_msgids : List UserAndMsgId
  pub sender_user_id : ℤ
  pub sender_msg_id : ℤ
  pub message : List ℕ
  pub msg_time : ℤ
  pub client_time : ℤ

pub record LastSendData : Type 0 where
  pub user_id : ℤ
  pub msg_id : ℤ
  pub client_time : ℤ
  pub msg_time : ℤ

pub record MsgIdRange : Type 0 where
  pub user_id : ℤ
  pub start_msg_id : ℤ
  pub end_msg_id : ℤ

-- And those that they fill.
pub record Msg : Type 0 where
  pub user_id : ℤ
  pub msg_id : ℤ
  pub sender : ℤ
  pub receiver : ℤ
  pub message : List ℕ
  pub group_id : ℤ
  pub client_time : ℤ
  pub msg_time : ℤ

pub record Info : Type 0 where
  pub id : ℤ
  pub name : List ℕ

pub record Session : Type 0 where
  pub user_id : ℤ
  pub addr : Option (List ℕ)

pub data Value : Type 0 where
  null : Value
  int : ℤ → Value
  text : List ℕ → Value

pub record Query : Type 0 where
  pub sql : List ℕ
  pub uses : List Value

pub data Pool : Type 0 where
  message_pool group_members_pool : Pool

-- A redis command: the pieces of a format, or a text that brpc takes apart.
pub data Command : Type 0 where
  pieces : List (List ℕ) → Command
  whole : List ℕ → Command

pub data Item : Type 0 where
  string_item : List ℕ → Item
  other_item : Item

pub data Reply : Type 0 where
  single : Item → Reply
  array : List Item → Reply

pub record Failure : Type 0 where
  pub code : ℤ
  pub reason : List ℕ

-- `CallMethod` on the channel; `failed` is `cntl.Failed()`.
pub data Called : Type 0 where
  failed : Failure → Called
  replied : Reply → Called

-- The world outside, with its state `W`. `none` of `open_session` and of `execute` is an exception of
-- soci; `execute` gives the rows. `sscanf` gives the numbers that "[%ld,%d,%d]" converts, in order.
pub record Backend (W : Type 0) : Type 0 where
  pub open_session : Pool → W → Option W
  pub execute : Pool → Query → W → Option (List (List Value)) × W
  pub call_redis : Command → W → Called × W
  pub sscanf : List ℕ → List ℤ

-- What a handler comes to: it returns, with what the controller tells of a failure; an exception
-- leaves it; or a CHECK aborts the process.
pub data Result (W A : Type 0) : Type 0 where
  returns : Option Failure → A → W → Result W A
  throws : W → Result W A
  aborts : Result W A

abbrev pub einval : ℤ
einval = pos 22

-- `SetFailed(EINVAL, reason)`
abbrev pub invalid : List ℕ → Option Failure
invalid reason = some (record { code = einval; reason = reason })

unfoldable pub choose_database : ℤ → Pool
choose_database user_id = message_pool

abbrev pub same_pool : Pool → Pool → Bool
same_pool message_pool message_pool = true
same_pool message_pool group_members_pool = false
same_pool group_members_pool message_pool = false
same_pool group_members_pool group_members_pool = true

-- "{%ld}a" and "{%ld}u"
abbrev pub session_key : ℤ → List ℕ
session_key user_id = joined (codes "{" ∷ print_int user_id ∷ codes "}a" ∷ [])

abbrev pub last_send_key : ℤ → List ℕ
last_send_key user_id = joined (codes "{" ∷ print_int user_id ∷ codes "}u" ∷ [])

module _ {W : Type 0} (b : Backend W) where
  -- `soci::session sql(*pool); sql << …`
  unfoldable pub run_query : Pool → Query → W → Option (List (List Value)) × W
  run_query pool q w = elim (b.open_session pool w) [
    | none ↦ (none, w)
    | some w1 ↦ b.execute pool q w1
  ]

-- ===== src/Http/State.antt =====
-- ocean_http/http/http_conn.h: the enumerations and the state of a connection, and what the
-- connections share. A `char *` into the read buffer is an offset, `none` is NULL.
use cpp_server.Prelude.{ℕ, Bool, true, false, Option, none, some, List, [], ◌∷◌, ◌++◌, ℤ}

pub data Method : Type 0 where
  get post head put delete trace options connect path : Method

pub data CheckState : Type 0 where
  request_line header content : CheckState

pub data HttpCode : Type 0 where
  no_request get_request bad_request no_resource forbidden_request file_request : HttpCode
  internal_error closed_connection : HttpCode

pub data LineStatus : Type 0 where
  line_ok line_bad line_open : LineStatus

abbrev pub filename_len : ℕ
filename_len = 200

abbrev pub read_buffer_size : ℕ
read_buffer_size = 2048

abbrev pub write_buffer_size : ℕ
write_buffer_size = 1024

-- What the code reads of `struct stat`.
pub record FileStat : Type 0 where
  pub st_size : ℕ
  pub others_may_read : Bool
  pub is_dir : Bool

-- A part of the response: the first bytes of the write buffer, or a mapped file.
pub data IoVec : Type 0 where
  from_write_buf : ℕ → IoVec
  from_file : ℕ → IoVec

pub record Conn : Type 0 where
  pub sockfd : ℤ
  pub read_buf : List ℕ
  pub read_idx : ℤ
  pub checked_idx : ℕ
  pub start_line : ℕ
  pub write_buf : List ℕ
  pub write_idx : ℕ
  pub check_state : CheckState
  pub method : Method
  pub real_file : List ℕ
  pub url : Option ℕ
  pub version : Option ℕ
  pub host : Option ℕ
  pub content_length : ℤ
  pub linger : Bool
  pub file_address : Option (List ℕ)
  pub file_stat : FileStat
  pub iv : List IoVec
  pub cgi : Bool
  pub string : Option ℕ
  pub bytes_to_send : ℤ
  pub bytes_have_send : ℕ
  pub doc_root : List ℕ
  pub trig_mode : ℕ
  pub mysql : Option ℕ
  pub state : ℕ
  pub timer_flag : ℕ
  pub improv : ℕ

-- What a call comes to: a value, undefined behaviour (an access outside an array or through NULL,
-- or a missing `return`), or a loop that has used up the rounds that the model gives it.
pub data Run {ℓ} (A : Type ℓ) : Type ℓ where
  ok : A → Run A
  undefined : Run A
  out_of_fuel : Run A

infixl 5 ◌>>=◌ ◌>>◌
abbrev pub ◌>>=◌ {ℓ κ} : {A : Type ℓ} {B : Type κ} → Run A → (A → Run B) → Run B
ok a >>= f = f a
undefined >>= f = undefined
out_of_fuel >>= f = out_of_fuel

abbrev pub ◌>>◌ {ℓ} : {B : Type ℓ} → Run (Unit {0}) → Run B → Run B
m >> k = m >>= λ _. k

-- Where the test fails the code goes on outside an array.
abbrev pub require : Bool → Run (Unit {0})
require true = ok tt
require false = undefined

abbrev pub or_undefined {ℓ} : {A : Type ℓ} → Option A → Run A
or_undefined none = undefined
or_undefined (some a) = ok a

abbrev pub event_in : ℕ
event_in = 1

abbrev pub event_out : ℕ
event_out = 4

-- The kernel calls on the epoll table and on sockets, in order; `sends` is a message by `send`.
pub data Effect : Type 0 where
  adds : ℤ → Bool → ℕ → Effect
  modifies : ℤ → ℕ → ℕ → Effect
  deletes : ℤ → Effect
  closes : ℤ → Effect
  sends : ℤ → List ℕ → Effect

-- The static members of http_conn, the map `users`, and the kernel calls made so far.
pub record Shared : Type 0 where
  pub user_count : ℤ
  pub users : List (List ℕ × List ℕ)
  pub effects : List Effect

abbrev pub emit : List Effect → Shared → Shared
emit es g = record g { effects = g.effects ++ es }

-- `addfd`, without the flags that never change.
unfoldable pub addfd : ℤ → Bool → ℕ → Shared → Shared
addfd fd one_shot trig_mode = emit (adds fd one_shot trig_mode ∷ [])

unfoldable pub removefd : ℤ → Shared → Shared
removefd fd = emit (deletes fd ∷ closes fd ∷ [])

unfoldable pub modfd : ℤ → ℕ → ℕ → Shared → Shared
modfd fd ev trig_mode = emit (modifies fd ev trig_mode ∷ [])

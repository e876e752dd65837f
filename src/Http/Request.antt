-- ===== src/Http/Request.antt =====
-- `do_request`: the form of a POST, the page that the URL names, and the file that is sent.
-- The file system and the database are arguments. `open` and `mmap` are taken to succeed on a file
-- that `stat` finds; what they map is `contents`.
pub mod Ends
pub mod Login
pub mod Form
pub mod Page
pub mod Answer
pub mod Files
use cpp_server.Prelude.{
  ℕ, zero, suc, ◌+◌, ◌-◌, Bool, true, false, ◌&&◌, ◌||◌, not, Option, none, some, List, [], ◌∷◌,
  ◌++◌, leb, ltb, ◌==◌, if◌then◌else◌, length, drop, take,
}
use cpp_server.CString.{
  codes, until_nul, c_str, bytes_eq, find_char, find_last_char, strcpy_at, strncpy_at,
}
use cpp_server.Http.State.{
  Conn, Shared, FileStat, HttpCode, bad_request, no_resource, forbidden_request, file_request,
  filename_len, Run, ok, undefined, ◌>>=◌, ◌>>◌, require, or_undefined,
}
use cpp_server.Http.Line.{byte_at}

-- The world outside: `stat`, the bytes of a file, and whether a query fails on a connection.
pub record World : Type 0 where
  pub stat : List ℕ → Option FileStat
  pub contents : List ℕ → List ℕ
  pub query_fails : ℕ → List ℕ → Bool

abbrev pub Users : Type 0
Users = List (List ℕ × List ℕ)

-- `users.find(name)`
unfoldable pub find_user : List ℕ → Users → Option (List ℕ)
find_user name [] = none
find_user name ((n, p) ∷ us) = if bytes_eq n name then some p else find_user name us

-- `users.insert`, which leaves a name that is there.
unfoldable pub insert_user : List ℕ → List ℕ → Users → Users
insert_user name password us = elim (find_user name us) [
  | some p ↦ us
  | none ↦ us ++ (name, password) ∷ []
]

-- `users[name] = password`
unfoldable pub set_user : List ℕ → List ℕ → Users → Users
set_user name password [] = (name, password) ∷ []
set_user name password ((n, p) ∷ us) =
    let rest = set_user name password us in
    if bytes_eq n name then (n, password) ∷ us else (n, p) ∷ rest

-- `initmysql_result`: the rows of the table, in the order of `mysql_fetch_row`.
unfoldable pub load_users : Users → Users → Users
load_users [] us = us
load_users ((name, password) ∷ rows) us = load_users rows (set_user name password us)

-- `name[i - 5] = m_string[i]` up to a '&', in an array of 100; with the length that was copied.
unfoldable pub form_name : List ℕ → ℕ → Run (ℕ × List ℕ)
form_name buf s = do
  k ← or_undefined (find_char b'&' (drop (s + 5) buf))
  require (ltb k 100)
  ok (k, until_nul (take k (drop (s + 5) buf)))

-- `password[j] = m_string[i]` from ten bytes behind the '&' up to a NUL, in an array of 100.
unfoldable pub form_password : List ℕ → ℕ → ℕ → Run (List ℕ)
form_password buf s k = do
  n ← or_undefined (find_char 0 (drop (s + 5 + k + 10) buf))
  require (ltb n 100)
  ok (until_nul (drop (s + 5 + k + 10) buf))

unfoldable pub form : List ℕ → ℕ → Run (List ℕ × List ℕ)
form buf s = do (k, name) ← form_name buf s; password ← form_password buf s k; ok (name, password)

-- The statement is put together in 200 bytes.
unfoldable pub insert_statement : List ℕ → List ℕ → Run (List ℕ)
insert_statement name password =
    let sql =
      codes "INSERT INTO user(username,passwd) VALUES("
      ++ (codes "'" ++ (name ++ (codes "', '" ++ (password ++ codes "')")))) in
    do require (ltb (length sql) 200); ok sql

-- A name that is not in the map: the page, and the map with the new pair.
unfoldable pub add_user : World → Option ℕ → Users → List ℕ → List ℕ → List ℕ → Run (List ℕ × Users)
add_user w mysql us sql name password = do
  db ← or_undefined mysql
  ok (
    if w.query_fails db sql then codes "/registerError.html" else codes "/log.html",
    insert_user name password us,
  )

-- The page that answers a registration, with the map as it is left.
unfoldable pub register : World → Option ℕ → Users → List ℕ → List ℕ → Run (List ℕ × Users)
register w mysql us name password = do
  sql ← insert_statement name password
  elim (find_user name us) [
    | some p ↦ ok (codes "/registerError.html", us)
    | none ↦ add_user w mysql us sql name password
  ]

-- The page that answers a login.
unfoldable pub login : Users → List ℕ → List ℕ → List ℕ
login us name password = elim (find_user name us) [
  | none ↦ codes "/logError.html"
  | some p ↦ if bytes_eq p password then codes "/welcome.html" else codes "/logError.html"
]

-- The room that is left in `m_real_file` behind the root and before the last byte.
abbrev room_behind : Conn → ℕ
room_behind c = filename_len - length c.doc_root - 1

-- A POST to a page '2' or '3'; `u` is the URL's offset, `kind` the byte behind its last '/'.
unfoldable pub cgi_form : World → Users → Conn → ℕ → ℕ → Run (Conn × Users)
cgi_form w us c u kind = do
  let target = b'/' ∷ c_str c.read_buf (u + 2)
  require (ltb (length target) 200)
  real ← or_undefined (strncpy_at c.real_file (length c.doc_root) target (room_behind c))
  s ← or_undefined c.string
  (name, password) ← form c.read_buf s
  (page, us') ←
      if kind == b'3' then register w c.mysql us name password else ok (login us name password, us)
  buf ← or_undefined (strcpy_at c.read_buf u page)
  ok (record c { read_buf = buf; real_file = real }, us')

-- The pages behind the digits.
unfoldable pub page_for : ℕ → Option (List ℕ)
page_for b =
    if b == b'0'
    then some (codes "/register.html")
    else if b == b'1'
    then some (codes "/log.html")
    else if b == b'5'
    then some (codes "/picture.html")
    else if b == b'6'
    then some (codes "/video.html")
    else if b == b'7'
    then some (codes "/fans.html")
    else none

-- The path of the file; a page's name is copied without its NUL.
unfoldable pub choose_file : Conn → ℕ → ℕ → Run Conn
choose_file c u p = do
  real ← or_undefined (elim (page_for (byte_at c.read_buf (p + 1))) [
    | some page ↦ strncpy_at c.real_file (length c.doc_root) page (length page)
    | none ↦ strncpy_at c.real_file (length c.doc_root) (c_str c.read_buf u) (room_behind c)
  ])
  ok (record c { real_file = real })

-- `stat`, the permission and the kind of the file, and its mapping.
unfoldable pub open_file : World → Conn → HttpCode × Conn
open_file w c = elim (w.stat (c_str c.real_file 0)) [
  | none ↦ (no_resource, c)
  | some st ↦
      if not st.others_may_read
      then (forbidden_request, record c { file_stat = st })
      else if st.is_dir
      then (bad_request, record c { file_stat = st })
      else (
        file_request,
        record c { file_stat = st; file_address = some (w.contents (c_str c.real_file 0)) },
      )
]

abbrev is_form : Conn → ℕ → Bool
is_form c kind = c.cgi && ((kind == b'2') || (kind == b'3'))

unfoldable pub do_request : World → Shared → Conn → Run (HttpCode × Conn × Shared)
do_request w g c = do
  real ← or_undefined (strcpy_at c.real_file 0 c.doc_root)
  u ← or_undefined c.url
  k ← or_undefined (find_last_char b'/' (c_str c.read_buf u))
  let p = u + k
  let kind = byte_at c.read_buf (p + 1)
  let c1 = record c { real_file = real }
  (c2, us) ← if is_form c kind then cgi_form w g.users c1 u kind else ok (c1, g.users)
  c3 ← choose_file c2 u p
  let (code, c4) = open_file w c3
  ok (code, c4, record g { users = us })

-- ===== src/Http/RequestTests.antt =====
-- Whole requests at concrete inputs.
use cpp_server.Prelude.{
  none, negsuc, ◌+ℤ◌, ℕ, ◌≡◌, refl, true, false, some, List, [], ◌∷◌, ◌++◌, pos, arith,
}
use cpp_server.CString.{
  find_last_char, codes, c_str, case_eq, case_eq_n, to_lower, count_blanks, is_blank, atol,
  skip_spaces, read_digits, is_digit, is_space,
}
use cpp_server.Http.State.{Conn, FileStat, ok, modfd, event_out, deletes, closes, modifies, Shared}
use cpp_server.Http.Response.Served.{head_of, SendsFile}
use cpp_server.Http.Process.Served.{IsServed, process-served, process-missing}
use cpp_server.Http.Request.{do_request, World}
use cpp_server.Http.Process.{process_read, process}
use cpp_server.Http.Process.RequestLine.{IsPath, page}
use cpp_server.Http.Process.Loop.{AllFields, read_fields}
use cpp_server.Http.Process.Received.{arrived, request, Received, process_read-request}
use cpp_server.Http.Request.{login}
use cpp_server.Http.Request.Form.{form_text}
use cpp_server.Http.Request.Answer.{answered}
use cpp_server.Http.Request.Files.{file_of}
use cpp_server.Http.Process.Paths.{process_read-file}
use cpp_server.Http.Process.Logins.{IsFormPage, FitsForm, process_read-login}
use cpp_server.Http.Tests.{conn, shared, world}

abbrev fields : List (List ℕ)
fields = codes "Host: localhost" ∷ codes "Connection: keep-alive" ∷ []

index-IsPath : IsPath (codes "index.html")
unfolding is_blank
index-IsPath = ground arith

fields-AllFields : AllFields fields
fields-AllFields = ground arith

fields_say : read_fields fields (false, pos 0) ≡ (true, pos 0)
unfolding case_eq case_eq_n to_lower count_blanks is_blank
fields_say = refl

process_read-request_example :
    (d : Conn) × (process_read world shared
        (arrived (conn []) (request false (codes "index.html") fields []) 100)
      ≡ do_request world shared d)
    × Received false (codes "index.html") (true, pos 0) (conn []) d
process_read-request_example =
    process_read-request world shared false (conn []) (codes "index.html") fields (ground arith)
      index-IsPath fields-AllFields 100 [] true fields_say (omega arith)

abbrev form_fields : List (List ℕ)
form_fields = codes "Content-length: 19" ∷ []

login-IsPath : IsPath (codes "2")
unfolding is_blank
login-IsPath = ground arith

form_fields_say : read_fields form_fields (false, pos 0) ≡ (false, pos 19)
unfolding case_eq case_eq_n to_lower count_blanks is_blank atol skip_spaces read_digits is_digit
    is_space
form_fields_say = refl

two-IsFormPage : IsFormPage []
unfolding find_last_char
two-IsFormPage = record {
  line = ground arith;
  plain = login-IsPath;
  no_slash = refl;
  short = omega arith;
}

names-FitsForm : FitsForm (codes "ab") (codes "cd")
names-FitsForm = record {
  name_clean = omega arith;
  no_amp = ground arith;
  password_clean = omega arith;
  name_short = omega arith;
  password_short = omega arith;
}

process_read-login_example :
    (d : Conn) × (process_read world shared (
        arrived
          (conn [])
          (request true (codes "2") form_fields (form_text (codes "ab") (codes "cd") ++ 0 ∷ []))
          100)
      ≡ answered world shared d)
    × (c_str d.real_file 0 ≡ (conn []).doc_root ++ login shared.users (codes "ab") (codes "cd"))
    × (d.linger ≡ false)
process_read-login_example =
    process_read-login world shared (conn []) [] (codes "ab") (codes "cd") [] form_fields 100 18 0
      false two-IsFormPage names-FitsForm (ground arith) form_fields_say refl (omega arith)
      (ground arith) (omega arith)

videos_last : find_last_char b'/' (page (codes "a/6")) ≡ some 2
unfolding find_last_char
videos_last = refl

videos-IsPath : IsPath (codes "a/6")
unfolding is_blank
videos-IsPath = ground arith

process_read-file_example :
    (d : Conn) × (process_read world shared
        (arrived (conn []) (request false (codes "a/6") fields []) 100)
      ≡ answered world shared d)
    × (c_str d.real_file 0 ≡ (conn []).doc_root ++ file_of (codes "/a/6") 2)
    × (d.linger ≡ true)
process_read-file_example =
    process_read-file world shared (conn []) (codes "a/6") fields [] 100 2 true (ground arith)
      videos-IsPath fields-AllFields fields_say (omega arith) videos_last (ground arith)
      (omega arith) (omega arith)

abbrev twelve : FileStat
twelve = record { st_size = 12; others_may_read = true; is_dir = false }

twelve-IsServed : IsServed twelve
twelve-IsServed = record {
  may_read = refl;
  no_dir = refl;
  some_bytes = omega arith;
  few_bytes = omega arith;
}

process-served_example :
    (d e : Conn) × (process world shared
        (arrived (conn []) (request false (codes "a/6") fields []) 100)
      ≡ ok (e, modfd (pos 7) event_out (conn []).trig_mode shared))
    × SendsFile d (head_of true 12) 12 (true, e)
    × (d.file_address ≡ some (world.contents ((conn []).doc_root ++ file_of (codes "/a/6") 2)))
process-served_example =
    process-served world shared (conn []) (codes "a/6") fields [] 100 2 true twelve (ground arith)
      videos-IsPath fields-AllFields fields_say (omega arith) videos_last (ground arith)
      (omega arith) (omega arith) refl twelve-IsServed

-- A server without files.
abbrev bare : World
bare = record world { stat = λ name. none }

process-missing_example :
    (e : Conn) × (h : Shared) × (process bare shared
        (arrived (conn []) (request false (codes "a/6") fields []) 100)
      ≡ ok (e, h))
    × (e.sockfd ≡ negsuc 0)
    × (e.write_idx ≡ 0)
    × (h.user_count ≡ shared.user_count +ℤ negsuc 0)
    × (h.effects
        ≡ shared.effects
          ++ (deletes (pos 7)
              ∷ closes (pos 7)
              ∷ modifies (negsuc 0) event_out (conn []).trig_mode
              ∷ []))
process-missing_example =
    process-missing bare shared (conn []) (codes "a/6") fields [] 100 2 true twelve (ground arith)
      videos-IsPath fields-AllFields fields_say (omega arith) videos_last (ground arith)
      (omega arith) (omega arith) refl refl

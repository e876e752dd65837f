-- ===== src/Http/Request/Ends.antt =====
-- `do_request` ends: it has no loop of its own.
use cpp_server.Prelude.{ℕ, List, Option}
use cpp_server.Http.State.{Conn, Shared}
use cpp_server.Http.Ends.{IsDone, and_then, option_elim-Ends, done, ends}
use cpp_server.Http.Request.{
  World, Users, find_user, register, insert_statement, add_user, form, form_name, form_password,
  cgi_form, choose_file, do_request,
}

add_user-Ends :
    (w : World) (db : Option ℕ) (us : Users) (sql n p : List ℕ) → IsDone (add_user w db us sql n p)
unfolding add_user
add_user-Ends w db us sql n p = search ends

form-Ends : (buf : List ℕ) (s : ℕ) → IsDone (form buf s)
unfolding form form_name form_password
form-Ends buf s = search ends

insert_statement-Ends : (n p : List ℕ) → IsDone (insert_statement n p)
unfolding insert_statement
insert_statement-Ends n p = search ends

register-Ends :
    (w : World) (db : Option ℕ) (us : Users) (n p : List ℕ) → IsDone (register w db us n p)
unfolding register
register-Ends w db us n p =
    and_then (insert_statement-Ends n p)
      λ sql. option_elim-Ends (find_user n us) (add_user-Ends w db us sql n p) (λ q. done _)

cgi_form-Ends : (w : World) (us : Users) (c : Conn) (u kind : ℕ) → IsDone (cgi_form w us c u kind)
unfolding cgi_form
cgi_form-Ends w us c u kind = search (ends, form-Ends, register-Ends) depth 12

choose_file-Ends : (c : Conn) (u p : ℕ) → IsDone (choose_file c u p)
unfolding choose_file
choose_file-Ends c u p = search ends

pub do_request-Ends : (w : World) (g : Shared) (c : Conn) → IsDone (do_request w g c)
unfolding do_request
do_request-Ends w g c = search (ends, cgi_form-Ends, choose_file-Ends) depth 12

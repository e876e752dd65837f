-- ===== src/Http/Process/Body.antt =====
-- The body of a request.
use mathlib.Core.List.{append_assoc}
use cpp_server.Prelude.{
  ℕ, suc, ◌+◌, ◌≤◌, ◌≡◌, refl, sym, ap, ◌∙◌, Bool, true, some, List, [], ◌∷◌, ◌++◌, arith, pos,
  length, length-append, set, set-append, leb, ◌+ℤ◌, ltb, le→leb, lt→ltb, pos_part,
}
use cpp_server.Http.State.{Conn, Shared, content, line_ok, get_request, ok}
use cpp_server.Http.Line.{cr, lf, byte_at, get_line}
use cpp_server.Http.Parse.{parse_headers, parse_content, put_nul}
use cpp_server.Http.Request.{World, do_request}
use cpp_server.Http.Process.{read_lines, handle_line, handle_in}
use cpp_server.Http.Process.Text.{parse_line-placed, byte_at-append}
use cpp_server.Http.Process.Loop.{at_header, ended, length-ended}

sum_pos : (a b : ℕ) → pos a +ℤ pos b ≡ pos (a + b)
unfolding ◌+ℤ◌
sum_pos a b = ground arith

parse_content-body :
    (c : Conn) (pre body more : List ℕ) (b n m : ℕ)
    → length body ≡ n
    → c.read_idx ≡ pos m
    → length pre + n ≤ m
    → parse_content
        (record c {
          read_buf = pre ++ (body ++ b ∷ more);
          checked_idx = length pre;
          content_length = pos n;
        })
        (length pre)
      ≡ ok (
        get_request,
        record c {
          read_buf = pre ++ (body ++ 0 ∷ more);
          checked_idx = length pre;
          content_length = pos n;
          string = some (length pre);
        },
      )
unfolding parse_content put_nul
parse_content-body c pre body more b n m eb em le =
    let front = pre ++ body in
    let len = length-append pre body in
    let all = length-append pre (body ++ b ∷ more) in
    let len2 = length-append body (b ∷ more) in
    let put : set (pre ++ (body ++ b ∷ more)) (length pre + n) 0 ≡ pre ++ (body ++ 0 ∷ more) =
      ap (λ z. set z (length pre + n) 0) (sym (append_assoc pre body (b ∷ more)))
      ∙ set-append front b 0 more (length pre + n) (omega (arith, len))
      ∙ append_assoc pre body (0 ∷ more) in
    let start : pos n +ℤ pos (length pre) ≡ pos (n + length pre) = sum_pos n (length pre) in
    let there : pos (length pre) +ℤ pos n ≡ pos (length pre + n) = sum_pos (length pre) n in
    let whole : leb (n + length pre + 0) (m + 0) ≡ true = le→leb _ _ (omega arith) in
    let inside : ltb (length pre + n) (length (pre ++ (body ++ b ∷ more))) ≡ true =
      lt→ltb _ _ (omega arith) in
    rw (start, parse_content) (rw em (rw whole (rw there (rw inside (rw put refl)))))

-- The blank line before a body: the body is cut off behind its length.
pub read_lines-body :
    (w : World) (g : Shared) (c : Conn) (f : ℕ) (pre body more : List ℕ) (b n m : ℕ) (linger : Bool)
    → length body ≡ suc n
    → c.read_idx ≡ pos m
    → length pre + 2 + suc n ≤ m
    → read_lines
        (suc (suc f))
        w
        g
        line_ok
        (at_header c pre (cr ∷ lf ∷ (body ++ b ∷ more)) (linger, pos (suc n)))
      ≡ do_request w g
          (record (at_header c (ended pre []) (body ++ 0 ∷ more) (linger, pos (suc n))) {
            check_state = content;
            string = some (length (ended pre []));
          })
unfolding read_lines handle_line handle_in get_line parse_headers
read_lines-body w g c f pre body more b n m linger eb em le =
    let rest = body ++ b ∷ more in
    let d = at_header c pre (cr ∷ lf ∷ rest) (linger, pos (suc n)) in
    let line = parse_line-placed d pre [] rest tt (omega (arith, ap pos_part em)) in
    let nul : byte_at (ended pre [] ++ rest) (length pre) ≡ 0 =
      ap (λ z. byte_at z (length pre)) (append_assoc pre (0 ∷ 0 ∷ []) rest)
      ∙ byte_at-append pre 0 (0 ∷ rest) (length pre) refl in
    let d2 = record d {
      checked_idx = length (ended pre []);
      start_line = length (ended pre []);
      check_state = content;
    } in
    let found =
      parse_content-body d2 (ended pre []) body more b (suc n) m eb em
        (omega (arith, length-ended pre [])) in
    rw (line, read_lines) (rw nul (rw found refl))

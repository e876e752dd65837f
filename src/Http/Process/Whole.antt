-- ===== src/Http/Process/Whole.antt =====
-- A whole request, from its first line to its last byte.
use mathlib.Core.List.{append_assoc, append-nil}
use cpp_server.Prelude.{
  ℕ, suc, ◌+◌, ◌≤◌, ◌≡◌, refl, sym, ap, ◌∙◌, Bool, false, true, List, [], ◌∷◌, ◌++◌, arith, ℤ, pos,
  length, length-append, pos_part,
}
use cpp_server.CString.{c_str}
use cpp_server.CString.Buffers.{NoNul}
use cpp_server.Http.State.{Conn, Shared, line_ok, no_request, ok}
use cpp_server.Http.Line.{cr, lf, get_line}
use cpp_server.Http.Parse.{parse_request_line}
use cpp_server.Http.Request.{World}
use cpp_server.Http.Process.{reset, read_lines, handle_line, handle_in}
use cpp_server.Http.Process.Text.{IsLine, IsLine-NoNul, IsLine-append, parse_line-placed, c_str-at}
use cpp_server.Http.Process.RequestLine.{
  IsPath, page, behind_page, http_1_1, verb, verb_len, request_text, requested,
  parse_request_line-request, paged,
}
use cpp_server.Http.Process.Loop.{
  at_header, ended, all_ended, read_fields, lines_of, lines_len, AllFields, read_lines-fields,
}

-- The bytes of the buffer that the request line has become.
abbrev pub head_of : Bool → List ℕ → List ℕ
head_of posts p = (verb posts ++ 0 ∷ []) ++ (page p ++ 0 ∷ behind_page p)

request_text-IsLine : (posts : Bool) (p : List ℕ) → IsLine p → IsLine (request_text posts p)
request_text-IsLine posts p h =
    IsLine-append (verb posts) (b' ' ∷ b'/' ∷ (p ++ b' ' ∷ http_1_1)) (verb-IsLine posts) (
      IsLine-append (b' ' ∷ b'/' ∷ []) (p ++ b' ' ∷ http_1_1) (ground arith)
        (IsLine-append p (b' ' ∷ http_1_1) h (ground arith)))
  where
    verb-IsLine : (posts : Bool) → IsLine (verb posts)
    verb-IsLine true = ground arith
    verb-IsLine false = ground arith

paged-head_of :
    (posts : Bool) (p rest : List ℕ) → paged (verb posts ++ 0 ∷ []) p rest ≡ head_of posts p ++ rest
paged-head_of posts p rest = simp append_assoc

pub length-head_of :
    (posts : Bool) (p : List ℕ) → length (head_of posts p) ≡ length (request_text posts p) + 2
length-head_of true [] = refl
length-head_of true (b ∷ p) =
    omega (arith, length-append p (0 ∷ (http_1_1 ++ 0 ∷ 0 ∷ [])), length-append p (b' ' ∷ http_1_1))
length-head_of false [] = refl
length-head_of false (b ∷ p) =
    omega (arith, length-append p (0 ∷ (http_1_1 ++ 0 ∷ 0 ∷ [])), length-append p (b' ' ∷ http_1_1))

requested-at_header :
    (posts : Bool) (m : ℕ) (c : Conn) (p rest : List ℕ)
    → requested posts p (record (record (reset c) { read_idx = pos m }) {
      read_buf = head_of posts p ++ rest;
      checked_idx = length (head_of posts p);
      start_line = length (head_of posts p);
    })
      ≡ at_header
          (requested posts p (record (reset c) { read_idx = pos m }))
          (head_of posts p)
          rest
          (false, pos 0)
unfolding reset
requested-at_header true m c p rest = refl
requested-at_header false m c p rest = refl

pub requested-read_idx :
    (posts : Bool) (m : ℕ) (c : Conn) (p : List ℕ)
    → (requested posts p (record (reset c) { read_idx = pos m })).read_idx ≡ pos m
requested-read_idx true m c p = refl
requested-read_idx false m c p = refl

-- The lines stand behind what was there before.
all_ended-append :
    (pre : List ℕ) (ls : List (List ℕ)) → (more : List ℕ) × (all_ended pre ls ≡ pre ++ more)
all_ended-append pre [] = ([], sym (append-nil pre))
all_ended-append pre (l ∷ ls) =
    let (more, e) = all_ended-append (ended pre l) ls in
    ((l ++ 0 ∷ 0 ∷ []) ++ more, e ∙ append_assoc pre (l ++ 0 ∷ 0 ∷ []) more)

pub length-le-lines_len : (ls : List (List ℕ)) → length ls ≤ lines_len ls
length-le-lines_len [] = omega arith
length-le-lines_len (l ∷ ls) = omega (arith, length-le-lines_len ls)

page-NoNul : (p : List ℕ) → IsLine p → NoNul (page p)
page-NoNul [] h = omega arith
page-NoNul (b ∷ p) h = (omega arith, IsLine-NoNul (b ∷ p) h)

length-verb : (posts : Bool) → verb_len posts ≡ length (verb posts ++ 0 ∷ [])
length-verb true = refl
length-verb false = refl

-- The string of the URL stays in the buffer.
pub c_str-page :
    (posts : Bool) (p rest : List ℕ) (ls : List (List ℕ))
    → IsLine p
    → c_str (all_ended (head_of posts p) ls ++ rest) (verb_len posts) ≡ page p
c_str-page posts p rest ls h =
    let (more, e) = all_ended-append (head_of posts p) ls in
    let front = verb posts ++ 0 ∷ [] in
    let split : (head_of posts p ++ more) ++ rest
        ≡ front ++ (page p ++ 0 ∷ (behind_page p ++ (more ++ rest))) =
      simp append_assoc in
    ap (λ z. c_str (z ++ rest) (verb_len posts)) e
    ∙ ap (λ z. c_str z (verb_len posts)) split
    ∙ c_str-at front (page p) (behind_page p ++ (more ++ rest)) (verb_len posts) (length-verb posts)
        (page-NoNul p h)

module _ (w : World) (g : Shared) where
  read_lines-request :
      (f m : ℕ) (posts : Bool) (c : Conn) (p rest : List ℕ)
      → IsLine p
      → IsPath p
      → length (request_text posts p) + 2 ≤ m
      → read_lines
          (suc f)
          w
          g
          line_ok
          (record (reset c) { read_buf = request_text posts p ++ cr ∷ lf ∷ rest; read_idx = pos m })
        ≡ read_lines f w g line_ok (
            at_header
              (requested posts p (record (reset c) { read_idx = pos m }))
              (head_of posts p)
              rest
              (false, pos 0))
  unfolding read_lines handle_line handle_in get_line reset
  read_lines-request f m posts c p rest h s le =
      let d = record (reset c) { read_idx = pos m } in
      let line =
        parse_line-placed d [] (request_text posts p) rest (request_text-IsLine posts p h)
          (omega (arith, le)) in
      let behind = (request_text posts p ++ 0 ∷ 0 ∷ []) ++ rest in
      let n = length (request_text posts p ++ 0 ∷ 0 ∷ []) in
      let d1 = record d { checked_idx = n; start_line = n } in
      let ends : n ≡ length (head_of posts p) =
        omega (arith, length-append (request_text posts p) (0 ∷ 0 ∷ []), length-head_of posts p) in
      let split : verb posts ++ b' ' ∷ ((b'/' ∷ p) ++ b' ' ∷ (http_1_1 ++ 0 ∷ 0 ∷ rest)) ≡ behind =
        simp append_assoc in
      let parsed : parse_request_line (record d1 { read_buf = behind }) 0
          ≡ ok (no_request, requested posts p (record d1 { read_buf = head_of posts p ++ rest })) =
        ap (λ z. parse_request_line (record d1 { read_buf = z }) 0) (sym split)
        ∙ parse_request_line-request posts d1 p rest h s
        ∙ ap (λ z. ok (no_request, requested posts p (record d1 { read_buf = z })))
            (paged-head_of posts p rest) in
      rw (line, read_lines)
        (rw parsed (
          ap
            (λ z. read_lines f w g line_ok (
              requested posts p
                (record d { read_buf = head_of posts p ++ rest; checked_idx = z; start_line = z })))
            ends
          ∙ ap (read_lines f w g line_ok) (requested-at_header posts m c p rest)))

  -- The rounds up to the blank line.
  pub read_lines-head :
      (f m : ℕ) (posts : Bool) (c : Conn) (p rest : List ℕ) (ls : List (List ℕ)) (fs : Bool × ℤ)
      → IsLine p
      → IsPath p
      → AllFields ls
      → read_fields ls (false, pos 0) ≡ fs
      → length (request_text posts p) + lines_len ls + 2 ≤ m
      → read_lines (suc (length ls + f)) w g line_ok (record (reset c) {
        read_buf = request_text posts p ++ cr ∷ lf ∷ lines_of ls rest;
        read_idx = pos m;
      })
        ≡ read_lines f w g line_ok (
            at_header
              (requested posts p (record (reset c) { read_idx = pos m }))
              (all_ended (head_of posts p) ls)
              rest
              fs)
  read_lines-head f m posts c p rest ls fs h s a e le =
      let d = requested posts p (record (reset c) { read_idx = pos m }) in
      read_lines-request (length ls + f) m posts c p (lines_of ls rest) h s (omega (arith, le))
      ∙ read_lines-fields w g d f (head_of posts p) rest ls (false, pos 0) a
          (omega (arith, length-head_of posts p, ap pos_part (requested-read_idx posts m c p)))
      ∙ ap (λ z. read_lines f w g line_ok (at_header d (all_ended (head_of posts p) ls) rest z)) e

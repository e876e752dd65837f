-- ===== src/Http/Process/Loop.antt =====
-- The loop of `process_read` over the lines of a request.
use mathlib.Core.Path.{subst}
use mathlib.Core.List.{append_assoc}
use cpp_server.Prelude.{
  ℕ, suc, ◌+◌, ◌≤◌, ◌≡◌, refl, ap, ◌∙◌, Bool, List, [], ◌∷◌, ◌++◌, arith, ℤ, pos, length,
  length-append,
}
use cpp_server.Http.State.{Conn, Shared, header, line_ok, no_request}
use cpp_server.Http.Line.{cr, lf, byte_at, read_end, get_line}
use cpp_server.Http.Parse.{parse_headers}
use cpp_server.Http.Request.{World, do_request}
use cpp_server.Http.Process.{read_lines, handle_line, handle_in}
use cpp_server.Http.Process.Text.{parse_line-placed, byte_at-append}
use cpp_server.Http.Process.Fields.{IsField, read_field, parse_headers-field}

-- The connection at the beginning of a header line, behind `pre`.
abbrev pub at_header : Conn → List ℕ → List ℕ → Bool × ℤ → Conn
at_header c pre rest (linger, len) = record c {
  read_buf = pre ++ rest;
  checked_idx = length pre;
  start_line = length pre;
  check_state = header;
  linger = linger;
  content_length = len;
}

abbrev pub ended : List ℕ → List ℕ → List ℕ
ended pre l = pre ++ (l ++ 0 ∷ 0 ∷ [])

behind_line : (pre l rest : List ℕ) → pre ++ (l ++ 0 ∷ (0 ∷ rest)) ≡ ended pre l ++ rest
behind_line pre l rest = simp append_assoc

abbrev pub read_fields : List (List ℕ) → Bool × ℤ → Bool × ℤ
read_fields [] fs = fs
read_fields (l ∷ ls) fs = read_fields ls (read_field l fs)

abbrev pub lines_of : List (List ℕ) → List ℕ → List ℕ
lines_of [] rest = rest
lines_of (l ∷ ls) rest = l ++ cr ∷ lf ∷ lines_of ls rest

abbrev pub AllFields : List (List ℕ) → Type 0
AllFields [] = Unit
AllFields (l ∷ ls) = IsField l × AllFields ls

-- The bytes of the lines, with their ends.
abbrev pub lines_len : List (List ℕ) → ℕ
lines_len [] = 0
lines_len (l ∷ ls) = length l + 2 + lines_len ls

-- Behind the lines.
abbrev pub all_ended : List ℕ → List (List ℕ) → List ℕ
all_ended pre [] = pre
all_ended pre (l ∷ ls) = all_ended (ended pre l) ls

pub length-ended : (pre l : List ℕ) → length (ended pre l) ≡ length pre + length l + 2
length-ended pre l =
    omega (arith, length-append pre (l ++ 0 ∷ 0 ∷ []), length-append l (0 ∷ 0 ∷ []))

pub length-all_ended :
    (pre : List ℕ) (ls : List (List ℕ)) → length (all_ended pre ls) ≡ length pre + lines_len ls
length-all_ended pre [] = omega arith
length-all_ended pre (l ∷ ls) = omega (arith, length-all_ended (ended pre l) ls, length-ended pre l)

module _ (w : World) (g : Shared) (c : Conn) where
  -- One round of the loop at a header line.
  read_lines-field :
      (f : ℕ) (pre l rest : List ℕ) (fs : Bool × ℤ)
      → IsField l
      → length pre + length l + 2 ≤ read_end c
      → read_lines (suc f) w g line_ok (at_header c pre (l ++ cr ∷ lf ∷ rest) fs)
        ≡ read_lines f w g line_ok (at_header c (ended pre l) rest (read_field l fs))
  unfolding read_lines handle_line handle_in get_line
  read_lines-field f pre l rest fs h le =
      let d = at_header c pre (l ++ cr ∷ lf ∷ rest) fs in
      let line = parse_line-placed d pre l rest h.0 le in
      let d1 = record d { checked_idx = length (ended pre l); start_line = length (ended pre l) } in
      let parsed =
        subst
          (λ b. parse_headers (record d1 { read_buf = b }) (length pre) ≡ (
            no_request,
            record d1 {
              read_buf = b;
              linger = (read_field l fs).0;
              content_length = (read_field l fs).1;
            },
          ))
          (behind_line pre l rest) (parse_headers-field d1 pre l (0 ∷ rest) h) in
      rw (line, read_lines) (rw parsed refl)

  -- The rounds of the header lines.
  pub read_lines-fields :
      (f : ℕ) (pre rest : List ℕ) (ls : List (List ℕ)) (fs : Bool × ℤ)
      → AllFields ls
      → length pre + lines_len ls ≤ read_end c
      → read_lines (length ls + f) w g line_ok (at_header c pre (lines_of ls rest) fs)
        ≡ read_lines f w g line_ok (at_header c (all_ended pre ls) rest (read_fields ls fs))
  read_lines-fields f pre rest [] fs h le =
      let e : 0 + f ≡ f = omega arith in
      ap (λ k. read_lines k w g line_ok (at_header c pre rest fs)) e
  read_lines-fields f pre rest (l ∷ ls) fs h le =
      let e : suc (length ls) + f ≡ suc (length ls + f) = omega arith in
      ap (λ k. read_lines k w g line_ok (at_header c pre (lines_of (l ∷ ls) rest) fs)) e
      ∙ read_lines-field (length ls + f) pre l (lines_of ls rest) fs h.0 (omega arith)
      ∙ read_lines-fields f (ended pre l) rest ls (read_field l fs) h.1
          (omega (arith, length-ended pre l))

  -- The blank line: a request with no body is complete.
  pub read_lines-blank :
      (f : ℕ) (pre rest : List ℕ) (linger : Bool)
      → length pre + 2 ≤ read_end c
      → read_lines (suc f) w g line_ok (at_header c pre (cr ∷ lf ∷ rest) (linger, pos 0))
        ≡ do_request w g (at_header c (ended pre []) rest (linger, pos 0))
  unfolding read_lines handle_line handle_in get_line parse_headers
  read_lines-blank f pre rest linger le =
      let d = at_header c pre (cr ∷ lf ∷ rest) (linger, pos 0) in
      let line = parse_line-placed d pre [] rest tt (omega arith) in
      let nul : byte_at (ended pre [] ++ rest) (length pre) ≡ 0 =
        ap (λ b. byte_at b (length pre)) (append_assoc pre (0 ∷ 0 ∷ []) rest)
        ∙ byte_at-append pre 0 (0 ∷ rest) (length pre) refl in
      rw (line, read_lines) (rw nul refl)

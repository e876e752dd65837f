-- ===== src/Http/Process/Total.antt =====
-- The loop of `process_read` ends: the rounds that the model gives it are enough.
use cpp_server.Prelude.{
  ℕ, zero, suc, ◌+◌, ◌-◌, ◌≤◌, ◌<◌, ◌≡◌, refl, ap, ◌∙◌, ◌≢◌, pos_part, inl, inr, true, arith,
  Bool-cases,
}
use cpp_server.Http.State.{
  Conn, Shared, HttpCode, get_request, bad_request, CheckState, request_line, header, content,
  LineStatus, line_ok, line_bad, line_open, out_of_fuel,
}
use cpp_server.Http.Ends.{IsDone, bind, done, not-out_of_fuel}
use cpp_server.Http.Line.{parse_line, read_end}
use cpp_server.Http.Line.Scan.{parse_line-bounds}
use cpp_server.Http.Parse.Place.{
  SamePlace, parse_request_line-SamePlace, parse_headers-SamePlace, parse_content-get_request,
}
use cpp_server.Http.Request.{World}
use cpp_server.Http.Request.Ends.{do_request-Ends}
use cpp_server.Http.Process.{
  Reading, handle_in, handle_line, read_lines, process_read, is_content, on_line, after_content,
  next_line, after_header,
}

-- The continuation of the loop ends at every connection that is at the same place as `c`.
abbrev EndsFrom : Conn → (Conn → Reading) → Type 0
EndsFrom c more =
    (d : Conn) → d.read_idx ≡ c.read_idx → d.checked_idx ≡ c.checked_idx → IsDone (more d)

next_line-Ends :
    (g : Shared) (c : Conn) (r : HttpCode × Conn) (more : Conn → Reading)
    → EndsFrom c more
    → SamePlace c r
    → IsDone (next_line r more g)
next_line-Ends g c (bad_request, d) more ends same = done _
next_line-Ends g c (_, d) more ends same = ends d same.0 same.1

after_header-Ends :
    (w : World) (g : Shared) (c : Conn) (r : HttpCode × Conn) (more : Conn → Reading)
    → EndsFrom c more
    → SamePlace c r
    → IsDone (after_header w g r more)
after_header-Ends w g c (bad_request, d) more ends same = done _
after_header-Ends w g c (get_request, d) more ends same = do_request-Ends w g d
after_header-Ends w g c (_, d) more ends same = ends d same.0 same.1

after_content-Ends :
    (w : World) (g : Shared) (r : HttpCode × Conn) (more : Conn → Reading)
    → r.0 ≡ get_request
    → IsDone (after_content w g r more)
after_content-Ends w g (code, d) more e = rw e (do_request-Ends w g d)

handle_content-Ends :
    (w : World) (g : Shared) (more : LineStatus → Conn → Reading) (c : Conn)
    → IsDone (handle_in content w g more c)
unfolding handle_in
handle_content-Ends w g more c =
    bind (parse_content-get_request _ _) λ r e. after_content-Ends w g r (more line_open) e

handle_in-Ends :
    (s : CheckState) (w : World) (g : Shared) (more : LineStatus → Conn → Reading) (c : Conn)
    → EndsFrom c (more line_ok)
    → IsDone (handle_in s w g more c)
unfolding handle_in
handle_in-Ends request_line w g more c ends =
    bind (parse_request_line-SamePlace _ _) λ r same. next_line-Ends g c r (more line_ok) ends same
handle_in-Ends header w g more c ends =
    after_header-Ends w g c _ (more line_ok) ends (parse_headers-SamePlace _ _)
handle_in-Ends content w g more c ends = handle_content-Ends w g more c

at_content-Ends :
    (k : CheckState) (s : LineStatus) (w : World) (g : Shared) (more : LineStatus → Conn → Reading)
    (c : Conn)
    → is_content k s ≡ true
    → IsDone (handle_in k w g more c)
at_content-Ends content s w g more c e = handle_content-Ends w g more c
at_content-Ends request_line s w g more c e = absurd (cc)
at_content-Ends header s w g more c e = absurd (cc)

abbrev HasFuel : ℕ → Conn → Type 0
HasFuel f c = (c.checked_idx ≤ read_end c) × (read_end c - c.checked_idx < f)

on_line-Ends :
    (g : Shared) (r : LineStatus × Conn) (body : Conn → Reading)
    → (r.0 ≡ line_ok → IsDone (body r.1))
    → IsDone (on_line r body g)
on_line-Ends g (line_ok, d) body h = h refl
on_line-Ends g (line_bad, d) body h = done _
on_line-Ends g (line_open, d) body h = done _

read_lines-Ends :
    (f : ℕ) (w : World) (g : Shared) (s : LineStatus) (c : Conn)
    → HasFuel f c
    → IsDone (read_lines f w g s c)
unfolding read_lines handle_line
read_lines-Ends zero w g s c h = absurd (omega arith)
read_lines-Ends (suc f) w g s c h = elim (Bool-cases (is_content c.check_state s)) [
  | inl now ↦ rw (now, read_lines) (at_content-Ends c.check_state s w g (read_lines f w g) c now)
  | inr not_yet ↦
      rw (not_yet, read_lines)
        (on_line-Ends g (parse_line c) (handle_line w g (read_lines f w g)) λ e.
          handle_in-Ends (parse_line c).1.check_state w g (read_lines f w g) (parse_line c).1
            λ d same_end same_place.
              read_lines-Ends f w g line_ok d (fuel_left e d same_end same_place))
]
  where
    fuel_left :
        (parse_line c).0 ≡ line_ok
        → (d : Conn) → d.read_idx ≡ (parse_line c).1.read_idx
        → d.checked_idx ≡ (parse_line c).1.checked_idx
        → HasFuel f d
    fuel_left e d same_end same_place =
        let (from, to, ahead, kept_end, kept_size) = parse_line-bounds c h.0 in
        let at : read_end d ≡ read_end c = ap pos_part (same_end ∙ kept_end) in
        omega (arith, ahead e)

-- On a connection whose scanner is within what has been read, `process_read` never runs out of the
-- rounds that the model gives its loop: it returns, or it meets undefined behaviour.
pub process_read-ends :
    (w : World) (g : Shared) (c : Conn)
    → c.checked_idx ≤ read_end c
    → process_read w g c ≢ out_of_fuel
unfolding process_read
process_read-ends w g c h =
    not-out_of_fuel
      (read_lines-Ends (read_end c - c.checked_idx + 2) w g line_ok c (h, omega arith))

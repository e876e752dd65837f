-- ===== src/Http/Response/Append.antt =====
-- `add_response` appends its text to the response, or leaves the response as it was.
use mathlib.Core.List.{append_assoc}
use cpp_server.Prelude.{
  ℕ, zero, suc, ◌+◌, ◌≤◌, ◌<◌, ◌≡◌, refl, ap, ◌∙◌, Bool, true, false, List, [], ◌∷◌, ◌++◌, arith,
  leb, length, take, drop, length-append, length-take, length-take-le, length-drop, take-append,
  take_all,
}
use cpp_server.Http.State.{Conn, write_buffer_size}
use cpp_server.Http.Response.{print_at, room, add_response, and_then, after}

-- The response so far.
abbrev pub response : Conn → List ℕ
response c = take c.write_idx c.write_buf

-- The write buffer has its size, and its index is in it.
pub record HasBuffer (c : Conn) : Type 0 where
  pub sized : length c.write_buf ≡ write_buffer_size
  pub index_in : c.write_idx < write_buffer_size

-- What `vsnprintf` with room for n bytes does to a buffer that has this room.
length-print_at :
    (buf text : List ℕ) (i n : ℕ) → i + n ≤ length buf → length (print_at buf i n text) ≡ length buf
unfolding print_at
length-print_at buf text i zero h = refl
length-print_at buf text i (suc n) h =
    let out = take n text ++ 0 ∷ [] in
    omega (
      arith,
      length-append (take i buf) (out ++ drop (i + length out) buf),
      length-append out (drop (i + length out) buf),
      length-append (take n text) (0 ∷ []),
      length-take-le n text,
      length-take i buf,
      length-drop (i + length out) buf,
    )

take-print_at :
    (buf text : List ℕ) (i n : ℕ)
    → i + n ≤ length buf
    → length text < n
    → take (i + length text) (print_at buf i n text) ≡ take i buf ++ text
unfolding print_at
take-print_at buf text i zero h lt = absurd (omega arith)
take-print_at buf text i (suc n) h lt =
    let rest = drop (i + length (take n text ++ 0 ∷ [])) buf in
    ap (take (i + length text)) (regroup rest)
    ∙ take-append (take i buf ++ text) (0 ∷ rest) (i + length text)
        (omega (arith, length-append (take i buf) text, length-take i buf))
  where
    regroup :
        (rest : List ℕ)
        → take i buf ++ ((take n text ++ 0 ∷ []) ++ rest) ≡ (take i buf ++ text) ++ 0 ∷ rest
    regroup rest = rw (take_all n text (omega arith)) (simp append_assoc)

-- What stands below the index is left alone, whether or not the text fits.
take-print_at-le :
    (buf text : List ℕ) (i n : ℕ) → i + n ≤ length buf → take i (print_at buf i n text) ≡ take i buf
unfolding print_at
take-print_at-le buf text i zero h = refl
take-print_at-le buf text i (suc n) h =
    take-append (take i buf) _ i (omega (arith, length-take i buf))

-- `d` is `c` with `text` added to the response.
pub record Appended (c : Conn) (text : List ℕ) (d : Conn) : Type 0 where
  pub added : response d ≡ response c ++ text
  pub buffer : HasBuffer d
  pub index : d.write_idx ≡ c.write_idx + length text
  pub rest : d ≡ record c { write_buf = d.write_buf; write_idx = d.write_idx }

pub Appended-trans :
    {c d e : Conn} (s t : List ℕ) → Appended c s d → Appended d t e → Appended c (s ++ t) e
Appended-trans {c} {d} {e} s t a b = record {
  added = b.added ∙ (rw (a.added, append_assoc) refl);
  buffer = b.buffer;
  index = omega (arith, a.index, b.index, length-append s t);
  rest =
      b.rest
      ∙ ap (λ (x : Conn). record x { write_buf = e.write_buf; write_idx = e.write_idx }) a.rest;
}

abbrev pub Appends : Bool × Conn → Conn → List ℕ → Type 0
Appends r c text = (r.0 ≡ true) × Appended c text r.1

in_buffer : (c : Conn) → HasBuffer c → c.write_idx + room c ≤ length c.write_buf
in_buffer c h = omega (arith, h.sized, h.index_in)

-- A text that fits, with the NUL behind it and one byte to spare, is appended.
pub add_response-Appends :
    (c : Conn) (text : List ℕ)
    → HasBuffer c
    → c.write_idx + length text + 1 < write_buffer_size
    → Appends (add_response c text) c text
unfolding add_response
add_response-Appends c text h lt =
    let ok_index : leb write_buffer_size c.write_idx ≡ false = ground (arith, h.index_in) in
    let fits : leb (room c) (length text) ≡ false = ground arith in
    rw (ok_index, fits)
      (
        refl,
        record {
          added = take-print_at c.write_buf text c.write_idx (room c) (in_buffer c h) (omega arith);
          buffer = record {
            sized = length-print_at c.write_buf text c.write_idx (room c) (in_buffer c h) ∙ h.sized;
            index_in = omega arith;
          };
          index = refl;
          rest = refl;
        },
      )

-- A text that does not fit is refused, and the response is as it was.
pub add_response-refuses :
    (c : Conn) (text : List ℕ)
    → HasBuffer c
    → write_buffer_size ≤ c.write_idx + length text + 1
    → ((add_response c text).0 ≡ false)
      × (response (add_response c text).1 ≡ response c)
      × HasBuffer (add_response c text).1
unfolding add_response
add_response-refuses c text h ge =
    let ok_index : leb write_buffer_size c.write_idx ≡ false = ground (arith, h.index_in) in
    let full : leb (room c) (length text) ≡ true = ground arith in
    rw (ok_index, full)
      (
        refl,
        take-print_at-le c.write_buf text c.write_idx (room c) (in_buffer c h),
        record {
          sized = length-print_at c.write_buf text c.write_idx (room c) (in_buffer c h) ∙ h.sized;
          index_in = h.index_in;
        },
      )

-- Calls in a row append their texts in a row.
pub after-Appends :
    (r : Bool × Conn) (f : Conn → Bool × Conn) (c : Conn) (s t : List ℕ)
    → Appends r c s
    → ((d : Conn) → Appended c s d → Appends (f d) d t)
    → Appends (after r f) c (s ++ t)
after-Appends r f c s t h k = let next = k r.1 h.1 in (next.0, Appended-trans s t h.1 next.1)

pub and_then-Appends :
    (r : Bool × Conn) (f : Conn → Bool × Conn) (c : Conn) (s t : List ℕ)
    → Appends r c s
    → ((d : Conn) → Appended c s d → Appends (f d) d t)
    → Appends (and_then r f) c (s ++ t)
and_then-Appends (true, d) f c s t h k =
    let next = k d h.1 in (next.0, Appended-trans s t h.1 next.1)
and_then-Appends (false, d) f c s t h k = absurd (cc)

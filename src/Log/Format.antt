-- ===== src/Log/Format.antt =====
-- The second locked part of `write_log`: the line in `m_buf`.
use mathlib.Core.List.{append_assoc}
use cpp_server.Prelude.{
  ℕ, zero, suc, ◌+◌, ◌-◌, ◌≤◌, ◌<◌, ◌≡◌, refl, sym, ap, ◌∙◌, some, List, [], ◌∷◌, ◌++◌, arith,
  length, drop, length-append, length-drop, ℤ, pos, negsuc, inl, inr, Option-cases,
}
use cpp_server.CString.{until_nul, write_at, snprintf_at}
use cpp_server.CString.Buffers.{
  NoNul, NoNul-append, NoNul-joined, until_nul_at, write_at-fits, write_at-outside,
  snprintf_at-fits, length-snprintf_at, length-print_nat, length-print_padded, print_nat-NoNul,
  print_padded-NoNul,
}
use cpp_server.Http.State.{ok, undefined}
use cpp_server.Log.{
  Log, Time, finish_line, fill_buffer, formatted, format_line, line_head, line_parts, level_name,
}

-- What a clock shows, with a year of at most four digits.
pub record IsClock (t : Time) : Type 0 where
  pub year_in : t.year < 10000
  pub mon_in : t.mon < 100
  pub mday_in : t.mday < 100
  pub hour_in : t.hour < 100
  pub min_in : t.min < 100
  pub sec_in : t.sec < 100
  pub usec_in : t.usec < 1000000

level_name-NoNul : (level : ℤ) → NoNul (level_name level)
unfolding level_name
level_name-NoNul (negsuc k) = ground arith
level_name-NoNul (pos zero) = ground arith
level_name-NoNul (pos (suc zero)) = ground arith
level_name-NoNul (pos (suc (suc zero))) = ground arith
level_name-NoNul (pos (suc (suc (suc zero)))) = ground arith
level_name-NoNul (pos (suc (suc (suc (suc n))))) = ground arith

length-level_name : (level : ℤ) → length (level_name level) ≤ 8
unfolding level_name
length-level_name (negsuc k) = ground arith
length-level_name (pos zero) = ground arith
length-level_name (pos (suc zero)) = ground arith
length-level_name (pos (suc (suc zero))) = ground arith
length-level_name (pos (suc (suc (suc zero)))) = ground arith
length-level_name (pos (suc (suc (suc (suc n))))) = ground arith

-- The head of a line has room in the 48 bytes that `snprintf` is given.
pub length-line_head : (t : Time) (level : ℤ) → IsClock t → length (line_head t level) < 48
unfolding line_head
length-line_head t level k = simp length-append (
    omega (
      arith,
      length-print_nat 3 t.year k.year_in,
      length-print_padded 1 t.mon k.mon_in,
      length-print_padded 1 t.mday k.mday_in,
      length-print_padded 1 t.hour k.hour_in,
      length-print_padded 1 t.min k.min_in,
      length-print_padded 1 t.sec k.sec_in,
      length-print_padded 5 t.usec k.usec_in,
      length-level_name level,
    ))

pub line_head-NoNul : (t : Time) (level : ℤ) → NoNul (line_head t level)
unfolding line_head
line_head-NoNul t level = NoNul-joined (line_parts t level) (
  print_nat-NoNul t.year,
  (
    ground arith,
    (
      print_padded-NoNul 2 t.mon,
      (
        ground arith,
        (
          print_padded-NoNul 2 t.mday,
          (
            ground arith,
            (
              print_padded-NoNul 2 t.hour,
              (
                ground arith,
                (
                  print_padded-NoNul 2 t.min,
                  (
                    ground arith,
                    (
                      print_padded-NoNul 2 t.sec,
                      (
                        ground arith,
                        (
                          print_padded-NoNul 6 t.usec,
                          (ground arith, (level_name-NoNul level, (ground arith, tt))),
                        ),
                      ),
                    ),
                  ),
                ),
              ),
            ),
          ),
        ),
      ),
    ),
  ),
)

-- A line that fits.
fill_buffer-fits :
    (buf head text : List ℕ) (size : ℕ)
    → length buf ≡ size
    → length head < 48
    → NoNul head
    → NoNul text
    → length head + length text + 2 ≤ size
    → (b : List ℕ) × (fill_buffer buf size head text ≡ some b)
      × (until_nul b ≡ head ++ (text ++ 10 ∷ []))
      × (length b ≡ size)
unfolding fill_buffer finish_line
fill_buffer-fits buf head text size sized short h t fits =
    let r1 = 0 ∷ drop (length head + 1) buf in
    let r2 = 0 ∷ drop (length text + 1) r1 in
    let l1 = length-drop (length head + 1) buf (omega arith) in
    let l2 = length-drop (length text + 1) r1 (omega arith) in
    let l3 = length-drop 2 r2 (omega arith) in
    (
      (head ++ text) ++ 10 ∷ 0 ∷ drop 2 r2,
      rw (snprintf_at-fits [] buf head 0 48 refl short (omega arith), fill_buffer)
          (rw
            (
              snprintf_at-fits head r1 text (length head) (size - length head - 1) refl
                  (omega arith) (omega arith),
              finish_line,
            )
            (ap (λ z. write_at z (length head + length text) (10 ∷ 0 ∷ []))
                (sym (append_assoc head text r2))
              ∙ write_at-fits (head ++ text) r2 (10 ∷ 0 ∷ []) (length head + length text)
                  (sym (length-append head text)) (omega arith))),
      ap until_nul (whole (drop 2 r2))
          ∙ until_nul_at (head ++ (text ++ 10 ∷ [])) (drop 2 r2)
              (NoNul-append head _ h (NoNul-append text _ t (omega arith, tt))),
      omega (arith, length-append (head ++ text) (10 ∷ 0 ∷ drop 2 r2), length-append head text),
    )
  where
    whole : (r : List ℕ) → (head ++ text) ++ 10 ∷ 0 ∷ r ≡ (head ++ (text ++ 10 ∷ [])) ++ 0 ∷ r
    whole r = simp append_assoc

-- The line that `write_log` makes.
abbrev pub line_of : Time → ℤ → List ℕ → List ℕ
line_of t level text = line_head t level ++ (text ++ 10 ∷ [])

-- `m_buf` has the size that `init` has given it.
abbrev pub HasBuffer : Log → Type 0
HasBuffer s = length s.buf ≡ s.log_buf_size

-- What the caller has to see to: no NUL in the text, and room for it with the line feed and the NUL.
pub record Fits (size : ℕ) (t : Time) (level : ℤ) (text : List ℕ) : Type 0 where
  pub clock : IsClock t
  pub no_nul : NoNul text
  pub room : length (line_head t level) + length text + 2 ≤ size

-- The line is the time, the level, the whole text and a line feed; only the buffer changes.
pub format_line-Fits :
    (s : Log) (t : Time) (level : ℤ) (text : List ℕ)
    → HasBuffer s
    → Fits s.log_buf_size t level text
    → (b : List ℕ) × (format_line t level text s ≡ ok (line_of t level text, record s { buf = b }))
      × (length b ≡ s.log_buf_size)
unfolding format_line
format_line-Fits s t level text sized f =
    let (b, e, str, len) =
      fill_buffer-fits s.buf (line_head t level) text s.log_buf_size sized
        (length-line_head t level f.clock) (line_head-NoNul t level) f.no_nul f.room in
    (b, rw (e, str) refl, len)

text_outside :
    (s : Log) (t : Time) (level : ℤ) (text b1 : List ℕ)
    → length b1 ≡ s.log_buf_size
    → s.log_buf_size < length (line_head t level) + length text + 2
    → formatted s (finish_line b1 s.log_buf_size (line_head t level) text) ≡ undefined
unfolding finish_line
text_outside s t level text b1 sized long =
    let n = length (line_head t level) in
    elim (Option-cases (snprintf_at b1 n (s.log_buf_size - n - 1) text)) [
      | inl no_room ↦ rw (no_room, finish_line) refl
      | inr (b2, e2) ↦
          let l2 = length-snprintf_at b1 text b2 n (s.log_buf_size - n - 1) e2 in
          rw (e2, finish_line, write_at-outside b2 (10 ∷ 0 ∷ []) (n + length text) (omega arith))
            refl
    ]

-- A text for which the buffer has no room is not cut off: the line feed and the NUL are written
-- behind the whole text, outside the buffer.
pub format_line_outside :
    (s : Log) (t : Time) (level : ℤ) (text : List ℕ)
    → HasBuffer s
    → s.log_buf_size < length (line_head t level) + length text + 2
    → format_line t level text s ≡ undefined
unfolding format_line fill_buffer
format_line_outside s t level text sized long =
    elim (Option-cases (snprintf_at s.buf 0 48 (line_head t level))) [
      | inl no_room ↦ rw (no_room, fill_buffer) refl
      | inr (b1, e1) ↦
          let l1 = length-snprintf_at s.buf (line_head t level) b1 0 48 e1 in
          rw (e1, fill_buffer) (text_outside s t level text b1 (l1 ∙ sized) long)
    ]

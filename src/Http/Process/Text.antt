-- ===== src/Http/Process/Text.antt =====
-- A request as a text: where its lines stand in the read buffer.
use mathlib.Core.Path.{subst}
use mathlib.Core.List.{append_assoc}
use cpp_server.Prelude.{
  ℕ, zero, suc, ◌+◌, ◌≤◌, ◌<◌, ◌≡◌, refl, sym, ap, ap₂, ◌∙◌, false, List, [], ◌∷◌, ◌++◌, arith,
  length, length-append, set, drop-append, set-append,
}
use cpp_server.CString.{c_str, until_nul}
use cpp_server.CString.Buffers.{NoNul, until_nul_at}
use cpp_server.Http.State.{Conn, line_ok}
use cpp_server.Http.Line.{cr, lf, byte_at, is_break, parse_line, read_end}
use cpp_server.Http.Line.Scan.{NoBreak, parse_line_complete}

-- No byte ends a line or a string.
abbrev pub IsLine : List ℕ → Type 0
IsLine [] = Unit
IsLine (b ∷ l) = (is_break b ≡ false) × (0 < b) × IsLine l

pub IsLine-NoNul : (l : List ℕ) → IsLine l → NoNul l
IsLine-NoNul [] h = tt
IsLine-NoNul (b ∷ l) h = (h.1, IsLine-NoNul l h.2)

pub IsLine-append : (k l : List ℕ) → IsLine k → IsLine l → IsLine (k ++ l)
IsLine-append [] l h g = g
IsLine-append (b ∷ k) l h g = (h.0, h.1, IsLine-append k l h.2 g)

pub byte_at-append :
    (xs : List ℕ) (y : ℕ) (ys : List ℕ) (n : ℕ) → n ≡ length xs → byte_at (xs ++ y ∷ ys) n ≡ y
unfolding byte_at
byte_at-append [] y ys zero e = refl
byte_at-append [] y ys (suc n) e = absurd (omega arith)
byte_at-append (x ∷ xs) y ys zero e = absurd (omega arith)
byte_at-append (x ∷ xs) y ys (suc n) e = byte_at-append xs y ys n (omega arith)

-- The string behind `pre`, up to the first NUL.
pub c_str-at :
    (pre s rest : List ℕ) (n : ℕ) → n ≡ length pre → NoNul s → c_str (pre ++ (s ++ 0 ∷ rest)) n ≡ s
unfolding c_str
c_str-at pre s rest n e clean =
    ap until_nul (drop-append pre (s ++ 0 ∷ rest) n e) ∙ until_nul_at s rest clean

NoBreak-line :
    (pre l rest : List ℕ) (i : ℕ)
    → i ≡ length pre
    → IsLine l
    → NoBreak (pre ++ (l ++ rest)) i (length l)
NoBreak-line pre [] rest i e h = tt
NoBreak-line pre (b ∷ l) rest i e h =
    let assoc : (pre ++ b ∷ []) ++ (l ++ rest) ≡ pre ++ (b ∷ (l ++ rest)) =
      append_assoc pre (b ∷ []) (l ++ rest) in
    let len = length-append pre (b ∷ []) in
    (
      rw (byte_at-append pre b (l ++ rest) i e) h.0,
      subst (λ z. NoBreak z (i + 1) (length l)) assoc
          (NoBreak-line (pre ++ b ∷ []) l rest (i + 1) (omega arith) h.2),
    )

-- The connection with `pre` scanned and `rest` behind it in the buffer.
abbrev pub placed : Conn → List ℕ → List ℕ → Conn
placed c pre rest = record c { read_buf = pre ++ rest; checked_idx = length pre }

-- The two bytes behind a line become NULs.
cut_line :
    (pre l rest : List ℕ)
    → set
        (set (pre ++ (l ++ cr ∷ lf ∷ rest)) (length pre + length l) 0)
        (length pre + length l + 1)
        0
      ≡ (pre ++ (l ++ 0 ∷ 0 ∷ [])) ++ rest
cut_line pre l rest =
    let front = pre ++ l in
    let i = length pre + length l in
    let len = length-append pre l in
    let len2 = length-append front (0 ∷ []) in
    ap (λ b. set (set b i 0) (i + 1) 0) (sym (append_assoc pre l (cr ∷ lf ∷ rest)))
    ∙ ap (λ b. set b (i + 1) 0) (set-append front cr 0 (lf ∷ rest) i (omega arith))
    ∙ ap (λ b. set b (i + 1) 0) (sym (append_assoc front (0 ∷ []) (lf ∷ rest)))
    ∙ set-append (front ++ 0 ∷ []) lf 0 rest (i + 1) (omega arith)
    ∙ simp append_assoc

-- The next line, up to its CR LF, is cut off, and the scan goes on behind it.
pub parse_line-placed :
    (c : Conn) (pre l rest : List ℕ)
    → IsLine l
    → length pre + length l + 2 ≤ read_end c
    → parse_line (placed c pre (l ++ cr ∷ lf ∷ rest))
      ≡ (line_ok, placed c (pre ++ (l ++ 0 ∷ 0 ∷ [])) rest)
parse_line-placed c pre l rest h le =
    let front = pre ++ l in
    let d = placed c pre (l ++ cr ∷ lf ∷ rest) in
    let len = length-append pre l in
    let i = length pre + length l in
    let at : d.read_buf ≡ front ++ cr ∷ lf ∷ rest = sym (append_assoc pre l (cr ∷ lf ∷ rest)) in
    let at2 : front ++ cr ∷ lf ∷ rest ≡ (front ++ cr ∷ []) ++ lf ∷ rest =
      sym (append_assoc front (cr ∷ []) (lf ∷ rest)) in
    let len2 = length-append front (cr ∷ []) in
    let is_cr : byte_at d.read_buf i ≡ cr =
      ap (λ b. byte_at b i) at ∙ byte_at-append front cr (lf ∷ rest) i (omega arith) in
    let is_lf : byte_at d.read_buf (i + 1) ≡ lf =
      ap (λ b. byte_at b (i + 1)) (at ∙ at2)
      ∙ byte_at-append (front ++ cr ∷ []) lf rest (i + 1) (omega arith) in
    parse_line_complete d (length l) (NoBreak-line pre l (cr ∷ lf ∷ rest) (length pre) refl h) is_cr
      is_lf le
    ∙ ap₂ (λ b k. (line_ok, record c { read_buf = b; checked_idx = k })) (cut_line pre l rest)
        (omega (arith, length-append pre (l ++ 0 ∷ 0 ∷ []), length-append l (0 ∷ 0 ∷ [])))

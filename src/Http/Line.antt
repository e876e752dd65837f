-- ===== src/Http/Line.antt =====
-- `parse_line` and `get_line`: the scanner that cuts the read buffer into lines.
pub mod Scan
use cpp_server.Prelude.{
  ℕ, zero, suc, ◌+◌, ◌-◌, Bool, true, false, Option, none, some, List, [], ◌∷◌, ℤ, pos_part, ltb,
  ◌==◌, if◌then◌else◌, get_elem?, set, ◌&&◌,
}
use cpp_server.Http.State.{Conn, LineStatus, line_ok, line_bad, line_open}

abbrev pub cr : ℕ
cr = 13

abbrev pub lf : ℕ
lf = 10

-- The first unread offset; `m_read_idx` is negative only after a failed `recv`.
abbrev pub read_end : Conn → ℕ
read_end c = pos_part c.read_idx

-- A byte of the buffer; the scanner reads below `m_read_idx` only.
unfoldable pub byte_at : List ℕ → ℕ → ℕ
byte_at buf i = elim (get_elem? buf i) [ none ↦ 0 | some b ↦ b ]

abbrev pub end_line : Conn → ℕ → ℕ → ℕ → Conn
end_line c i j next = record c { read_buf = set (set c.read_buf i 0) j 0; checked_idx = next }

-- One byte that is CR or LF at offset `i`.
unfoldable pub at_break : Conn → ℕ → LineStatus × Conn
at_break c i =
    if byte_at c.read_buf i == cr
    then if i + 1 == read_end c
      then (line_open, record c { checked_idx = i })
      else if byte_at c.read_buf (i + 1) == lf
      then (line_ok, end_line c i (i + 1) (i + 2))
      else (line_bad, record c { checked_idx = i })
    else if ltb 1 i && (byte_at c.read_buf (i - 1) == cr)
    then (line_ok, end_line c (i - 1) i (i + 1))
    else (line_bad, record c { checked_idx = i })

abbrev pub is_break : ℕ → Bool
is_break b = if b == cr then true else b == lf

-- The `for` loop, with the rounds that are left.
unfoldable pub scan : ℕ → Conn → ℕ → LineStatus × Conn
scan zero c i = (line_open, record c { checked_idx = i })
scan (suc k) c i = elim (is_break (byte_at c.read_buf i)) [
  | true ↦ at_break c i
  | false ↦ scan k c (i + 1)
]

unfoldable pub parse_line : Conn → LineStatus × Conn
parse_line c = scan (read_end c - c.checked_idx) c c.checked_idx

-- The offset of the line that `parse_line` has ended.
unfoldable pub get_line : Conn → ℕ
get_line c = c.start_line

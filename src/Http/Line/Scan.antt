-- ===== src/Http/Line/Scan.antt =====
-- What `parse_line` finds: complete lines, lines that wait for more bytes, and its bounds.
use cpp_server.Prelude.{
  ℕ, zero, suc, ◌+◌, ◌-◌, ◌≤◌, ◌<◌, ◌≡◌, refl, sym, ap₂, ◌∙◌, inl, inr, false, List, pos, arith,
  Bool-cases, length, set, length-set,
}
use cpp_server.Http.State.{Conn, LineStatus, line_ok, line_open}
use cpp_server.Http.Line.{cr, lf, read_end, byte_at, end_line, at_break, is_break, scan, parse_line}

-- The `k` bytes from offset `i` on are neither CR nor LF.
abbrev pub NoBreak : List ℕ → ℕ → ℕ → Type 0
NoBreak buf i zero = Unit
NoBreak buf i (suc k) = (is_break (byte_at buf i) ≡ false) × NoBreak buf (i + 1) k

-- Bytes that end no line are passed over.
pub scan-add :
    (k : ℕ) (c : Conn) (m n i j : ℕ)
    → n ≡ k + m
    → j ≡ i + k
    → NoBreak c.read_buf i k
    → scan n c i ≡ scan m c j
scan-add zero c m n i j en ej h = ap₂ (λ a b. scan a c b) (omega arith) (omega arith)
scan-add (suc k) c m zero i j en ej h = absurd (omega arith)
scan-add (suc k) c m (suc n) i j en ej h =
    step ∙ scan-add k c m n (i + 1) j (omega arith) (omega arith) h.1
  where
    step : scan (suc n) c i ≡ scan n c (i + 1)
    step = unfold scan in rw (h.0, scan) refl

-- A line that ends in CR LF below `m_read_idx` is found whole: the two bytes become NULs, and the
-- next line begins behind them.
pub parse_line_complete :
    (c : Conn) (k : ℕ)
    → NoBreak c.read_buf c.checked_idx k
    → byte_at c.read_buf (c.checked_idx + k) ≡ cr
    → byte_at c.read_buf (c.checked_idx + k + 1) ≡ lf
    → c.checked_idx + k + 2 ≤ read_end c
    → parse_line c
      ≡ (line_ok, end_line c (c.checked_idx + k) (c.checked_idx + k + 1) (c.checked_idx + k + 2))
unfolding parse_line scan at_break
parse_line_complete c k h ecr elf le =
    scan-add k c (suc rest) (read_end c - c.checked_idx) c.checked_idx (c.checked_idx + k)
      (omega arith) (omega arith) h
    ∙ stop
  where
    rest : ℕ
    rest = read_end c - c.checked_idx - k - 1

    stop :
        scan (suc rest) c (c.checked_idx + k)
        ≡ (line_ok, end_line c (c.checked_idx + k) (c.checked_idx + k + 1) (c.checked_idx + k + 2))
    stop = ground arith

at_break-open : (c d : Conn) (i : ℕ) → at_break c i ≡ (line_open, d) → d.checked_idx ≡ i
unfolding at_break
at_break-open c d i h = ground arith

-- Where a scan leaves the line open.
scan-open :
    (c d : Conn) (k i : ℕ)
    → i + k ≡ read_end c
    → scan k c i ≡ (line_open, d)
    → (j : ℕ) × (j ≤ k) × (d.checked_idx ≡ i + j) × NoBreak c.read_buf i j
unfolding scan
scan-open c d zero i e h = (0, omega arith, ground arith, tt)
scan-open c d (suc k) i e h = elim (Bool-cases (is_break (byte_at c.read_buf i))) [
  | inl stop ↦ (0, omega arith, omega (arith, at_break-open c d i (rw (stop, scan) at h)), tt)
  | inr go ↦
      let (j, le, at, nb) = scan-open c d k (i + 1) (omega arith) (rw (go, scan) at h) in
      (suc j, omega arith, omega arith, (go, nb))
]

NoBreak-agree :
    (a b : List ℕ) (i k n : ℕ)
    → ((j : ℕ) → j < n → byte_at b j ≡ byte_at a j)
    → i + k ≤ n
    → NoBreak a i k
    → NoBreak b i k
NoBreak-agree a b i zero n same le h = tt
NoBreak-agree a b i (suc k) n same le h =
    (rw (same i (omega arith)) h.0, NoBreak-agree a b (i + 1) k n same (omega arith) h.1)

-- A scan does not read the offset where the last one stopped.
scan-checked_idx :
    (k : ℕ) (c : Conn) (x i : ℕ) → scan k (record c { checked_idx = x }) i ≡ scan k c i
unfolding scan at_break
scan-checked_idx zero c x i = refl
scan-checked_idx (suc k) c x i = elim (Bool-cases (is_break (byte_at c.read_buf i))) [
  | inl stop ↦ rw (stop, scan) refl
  | inr go ↦ rw (go, scan) (scan-checked_idx k c x (i + 1))
]

-- A line that waits for more bytes is not scanned twice: once more bytes have been read behind
-- those that were there, the scan that goes on where the last one stopped finds what a scan from
-- the beginning of the line finds.
pub parse_line-resume :
    (c d : Conn) (buf : List ℕ) (n : ℕ)
    → c.checked_idx ≤ read_end c
    → parse_line c ≡ (line_open, d)
    → ((j : ℕ) → j < read_end c → byte_at buf j ≡ byte_at c.read_buf j)
    → read_end c ≤ n
    → parse_line (record c { read_buf = buf; read_idx = pos n; checked_idx = d.checked_idx })
      ≡ parse_line (record c { read_buf = buf; read_idx = pos n })
parse_line-resume c d buf n le e same more =
    let (j, lj, at, nb) =
      scan-open c d (read_end c - c.checked_idx) c.checked_idx (omega arith) (opened e) in
    let c2 = record c { read_buf = buf; read_idx = pos n } in
    let clear : NoBreak buf c.checked_idx j =
      NoBreak-agree c.read_buf buf c.checked_idx j (read_end c) same (omega arith) nb in
    unfold parse_line in
    (scan-checked_idx (n - d.checked_idx) c2 d.checked_idx d.checked_idx
      ∙ sym (
          scan-add j c2 (n - d.checked_idx) (n - c.checked_idx) c.checked_idx d.checked_idx
            (omega arith) at clear))
  where
    opened :
        parse_line c ≡ (line_open, d)
        → scan (read_end c - c.checked_idx) c c.checked_idx ≡ (line_open, d)
    opened h = unfold parse_line in h

record Moves (c : Conn) (i : ℕ) (s : LineStatus) (d : Conn) : Type 0 where
  from : i ≤ d.checked_idx
  to : d.checked_idx ≤ read_end c
  ahead : s ≡ line_ok → i < d.checked_idx
  same_end : d.read_idx ≡ c.read_idx
  same_size : length d.read_buf ≡ length c.read_buf

length-end_line : (buf : List ℕ) (i j : ℕ) → length (set (set buf i 0) j 0) ≡ length buf
length-end_line buf i j = length-set (set buf i 0) j 0 ∙ length-set buf i 0

at_break-Moves : (c : Conn) (i : ℕ) → i < read_end c → Moves c i (at_break c i).0 (at_break c i).1
unfolding at_break
at_break-Moves c i lt =
    ground (arith, length-end_line c.read_buf i (i + 1), length-end_line c.read_buf (i - 1) i)

scan-Moves :
    (k : ℕ) (c : Conn) (i : ℕ) → i + k ≡ read_end c → Moves c i (scan k c i).0 (scan k c i).1
unfolding scan
scan-Moves zero c i e = record {
  from = omega arith;
  to = omega arith;
  ahead = λ h. cc;
  same_end = refl;
  same_size = refl;
}
scan-Moves (suc k) c i e = elim (Bool-cases (is_break (byte_at c.read_buf i))) [
  | inl stop ↦ rw (stop, scan) (at_break-Moves c i (omega arith))
  | inr go ↦ rw (go, scan) (weaken (scan-Moves k c (i + 1) (omega arith)))
]
  where
    weaken :
        Moves c (i + 1) (scan k c (i + 1)).0 (scan k c (i + 1)).1
        → Moves c i (scan k c (i + 1)).0 (scan k c (i + 1)).1
    weaken m = record {
      from = omega (arith, m.from);
      to = m.to;
      ahead = λ h. omega (arith, m.ahead h);
      same_end = m.same_end;
      same_size = m.same_size;
    }

-- `parse_line` moves forward, by one byte at least where it ends a line, and stays below
-- `m_read_idx`; it changes neither the size of the buffer nor what has been read.
pub parse_line-bounds :
    (c : Conn)
    → c.checked_idx ≤ read_end c
    → let (s, d) = parse_line c in
      (c.checked_idx ≤ d.checked_idx)
      × (d.checked_idx ≤ read_end c)
      × (s ≡ line_ok → c.checked_idx < d.checked_idx)
      × (d.read_idx ≡ c.read_idx)
      × (length d.read_buf ≡ length c.read_buf)
unfolding parse_line
parse_line-bounds c le =
    let m = scan-Moves (read_end c - c.checked_idx) c c.checked_idx (omega arith) in
    (m.from, m.to, m.ahead, m.same_end, m.same_size)

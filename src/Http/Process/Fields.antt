-- ===== src/Http/Process/Fields.antt =====
-- The header lines of a request, as strings.
use mathlib.Core.List.{append_assoc}
use cpp_server.Prelude.{
  ℕ, zero, suc, ◌+◌, ◌≤◌, ◌<◌, ◌≡◌, ◌≢◌, refl, sym, ap, ◌∙◌, inl, inr, Bool, false, true, List, [],
  ◌∷◌, ◌++◌, arith, ℤ, length, length-append, take, drop, length-drop, drop-drop, ◌==◌, ne→==,
  if◌then◌else◌, Bool-cases,
}
use cpp_server.CString.{codes, c_str, count_blanks, case_eq, case_eq_n, atol}
use cpp_server.CString.Buffers.{NoNul}
use cpp_server.Http.State.{Conn, no_request}
use cpp_server.Http.Line.{byte_at}
use cpp_server.Http.Parse.{parse_headers, header_value}
use cpp_server.Http.Parse.Host.{case_eq-length, not_host}
use cpp_server.Http.Process.Text.{IsLine, IsLine-NoNul, c_str-at, byte_at-append}

-- The string behind the first `n` bytes and the blanks that follow them.
abbrev pub value_from : ℕ → List ℕ → List ℕ
value_from n l = drop (count_blanks (drop n l)) (drop n l)

-- What the server takes from a header line: whether the connection stays, and the length of the body.
abbrev pub read_field : List ℕ → Bool × ℤ → Bool × ℤ
read_field l (linger, len) =
    if case_eq_n l (codes "Connection:") 11
    then (if case_eq (value_from 11 l) (codes "keep-alive") then (true, len) else (linger, len))
    else if case_eq_n l (codes "Content-length:") 15
    then (linger, atol (value_from 15 l))
    else (linger, len)

-- A header line: not empty, and not of four bytes, as no line but "Host" is ever taken for the host.
abbrev pub IsField : List ℕ → Type 0
IsField l = IsLine l × (0 < length l) × (length l ≢ 4)

c_str-drop :
    (pre l rest : List ℕ) (n m : ℕ)
    → n ≤ length l
    → m ≡ length pre + n
    → NoNul l
    → c_str (pre ++ (l ++ 0 ∷ rest)) m ≡ drop n l
c_str-drop pre l rest zero m le e h = c_str-at pre l rest m (omega arith) h
c_str-drop pre [] rest (suc n) m le e h = absurd (omega arith)
c_str-drop pre (b ∷ l) rest (suc n) m le e h =
    ap (λ z. c_str z m) (sym (append_assoc pre (b ∷ []) (l ++ 0 ∷ rest)))
    ∙ c_str-drop (pre ++ b ∷ []) l rest n m (omega arith)
        (omega (arith, length-append pre (b ∷ []))) h.1

count_blanks-le : (l : List ℕ) → count_blanks l ≤ length l
unfolding count_blanks
count_blanks-le [] = omega arith
count_blanks-le (b ∷ l) = ground (arith, count_blanks-le l)

length-take-le_self : (n : ℕ) (l : List ℕ) → length (take n l) ≤ length l
length-take-le_self zero l = omega arith
length-take-le_self (suc n) [] = omega arith
length-take-le_self (suc n) (b ∷ l) = omega (arith, length-take-le_self n l)

-- A line that begins with a name is as long as the name.
case_eq_n-le :
    (l t : List ℕ) (n : ℕ) → length (take n t) ≡ n → case_eq_n l t n ≡ true → n ≤ length l
unfolding case_eq_n
case_eq_n-le l t n e same =
    omega (arith, case_eq-length (take n l) (take n t) same, length-take-le_self n l)

-- The value that the code finds in the buffer is the one of the string.
c_str-header_value :
    (pre l rest : List ℕ) (n : ℕ)
    → n ≤ length l
    → NoNul l
    → c_str (pre ++ (l ++ 0 ∷ rest)) (header_value (pre ++ (l ++ 0 ∷ rest)) (length pre) n)
      ≡ value_from n l
unfolding header_value
c_str-header_value pre l rest n le h =
    let blanks = count_blanks (drop n l) in
    let found = c_str-drop pre l rest n (length pre + n) le refl h in
    let room : n + blanks ≤ length l =
      omega (arith, count_blanks-le (drop n l), length-drop n l le) in
    rw found (
      c_str-drop pre l rest (n + blanks) (length pre + n + blanks) room (omega arith) h
      ∙ drop-drop blanks n l)

-- A header line sets what `read_field` says, and nothing else.
pub parse_headers-field :
    (c : Conn) (pre l rest : List ℕ)
    → IsField l
    → parse_headers (record c { read_buf = pre ++ (l ++ 0 ∷ rest) }) (length pre) ≡ (
      no_request,
      record c {
        read_buf = pre ++ (l ++ 0 ∷ rest);
        linger = (read_field l (c.linger, c.content_length)).0;
        content_length = (read_field l (c.linger, c.content_length)).1;
      },
    )
unfolding parse_headers
parse_headers-field c pre [] rest f = absurd (omega arith)
parse_headers-field c pre (b ∷ k) rest f =
    let l = b ∷ k in
    let buf = pre ++ (l ++ 0 ∷ rest) in
    let clean = IsLine-NoNul l f.0 in
    let str = c_str-at pre l rest (length pre) refl clean in
    let first : byte_at buf (length pre) ≡ b =
      byte_at-append pre b (k ++ 0 ∷ rest) (length pre) refl in
    let more : (byte_at buf (length pre) == 0) ≡ false =
      rw first (ne→== b 0 (omega (arith, f.0.1))) in
    rw (more, parse_headers)
      (rw str (elim (Bool-cases (case_eq_n l (codes "Connection:") 11)) [
        | inl conn ↦
            let at =
              c_str-header_value pre l rest 11 (case_eq_n-le l (codes "Connection:") 11 refl conn)
                clean in
            rw (conn, at)
              (elim (Bool-cases (case_eq (value_from 11 l) (codes "keep-alive"))) [
                | inl stays ↦ rw stays refl
                | inr ends ↦ rw ends refl
              ])
        | inr other ↦ rw other (elim (Bool-cases (case_eq_n l (codes "Content-length:") 15)) [
          | inl len ↦
              let at =
                c_str-header_value pre l rest 15
                  (case_eq_n-le l (codes "Content-length:") 15 refl len) clean in
              rw (len, at) refl
          | inr plain ↦ rw (plain, not_host l f.2) refl
        ])
      ]))

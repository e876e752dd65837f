-- ===== src/Http/Request/Files.antt =====
-- `do_request` of a plain path: the file that is looked for.
use mathlib.Core.Path.{subst}
use mathlib.Core.List.{append_assoc}
use cpp_server.Prelude.{
  ℕ, zero, suc, ◌+◌, ◌-◌, ◌<◌, ◌≤◌, ◌≡◌, refl, sym, ap, ◌∙◌, inl, inr, true, false, none, some,
  Option-cases, List, [], ◌∷◌, ◌++◌, arith, length, drop, take, take_all, length-append,
  length-drop, drop-drop, length-replicate, append_nil, replicate, ◌==◌, ==→ne, if◌then◌else◌,
  ==→eq, Bool-cases,
}
use cpp_server.CString.{codes, c_str, until_nul, find_last_char, strcpy_at, strncpy_at, write_at}
use cpp_server.CString.Buffers.{NoNul, until_nul_at, write_at-fits}
use cpp_server.Http.State.{Conn, Shared, filename_len}
use cpp_server.Http.Line.{byte_at}
use cpp_server.Http.Request.{World, choose_file, page_for, do_request}
use cpp_server.Http.Request.Page.{strncpy-behind}
use cpp_server.Http.Request.Answer.{answered, until_nul-append, root_there}

-- A string and the buffer that it stands in agree up to the NUL.
byte_at-until_nul :
    (buf : List ℕ) (i : ℕ) → i ≤ length (until_nul buf) → byte_at buf i ≡ byte_at (until_nul buf) i
unfolding until_nul byte_at
byte_at-until_nul [] i le = refl
byte_at-until_nul (x ∷ buf) zero le = elim (Bool-cases (x == 0)) [
  | inl nul ↦ rw (nul, until_nul) (==→eq x 0 nul)
  | inr other ↦ rw (other, until_nul) refl
]
byte_at-until_nul (x ∷ buf) (suc i) le = elim (Bool-cases (x == 0)) [
  | inl nul ↦ absurd (too_far nul)
  | inr other ↦
      let le' : suc i ≤ suc (length (until_nul buf)) = rw (other, until_nul) at le in
      rw (other, until_nul) (byte_at-until_nul buf i (omega (arith, le')))
]
  where
    too_far : (x == 0) ≡ true → ⊥
    too_far nul = let no : suc i ≤ 0 = rw (nul, until_nul) at le in omega (arith, no)

byte_at-drop_add : (buf : List ℕ) (n i : ℕ) → byte_at buf (n + i) ≡ byte_at (drop n buf) i
unfolding byte_at
byte_at-drop_add buf zero i = let e : 0 + i ≡ i = omega arith in ap (byte_at buf) e
byte_at-drop_add [] (suc n) i =
    let e : suc n + i ≡ suc (n + i) = omega arith in ap (byte_at []) e ∙ nothing (n + i) i
  where
    nothing : (i j : ℕ) → byte_at [] (suc i) ≡ byte_at [] j
    nothing i j = refl
byte_at-drop_add (x ∷ buf) (suc n) i =
    let e : suc n + i ≡ suc (n + i) = omega arith in
    ap (byte_at (x ∷ buf)) e ∙ byte_at-drop_add buf n i

byte_at-c_str :
    (buf s : List ℕ) (u i : ℕ) → c_str buf u ≡ s → i ≤ length s → byte_at buf (u + i) ≡ byte_at s i
unfolding c_str
byte_at-c_str buf s u i e le =
    byte_at-drop_add buf u i
    ∙ byte_at-until_nul (drop u buf) i (omega (arith, ap length e))
    ∙ ap (λ z. byte_at z i) e

nuls-after : (n k : ℕ) → k < n → (m : ℕ) × (drop k (replicate {A = ℕ} n 0) ≡ 0 ∷ replicate m 0)
nuls-after zero k lt = absurd (omega arith)
nuls-after (suc n) zero lt = (n, refl)
nuls-after (suc n) (suc k) lt = nuls-after n k (omega arith)

find_last_char-lt : (c : ℕ) (s : List ℕ) (k : ℕ) → find_last_char c s ≡ some k → k < length s
unfolding find_last_char
find_last_char-lt c [] k e = absurd (cc)
find_last_char-lt c (x ∷ s) k e = elim (Option-cases (find_last_char c s)) [
  | inl none_there ↦
      let e' : (if x == c then some 0 else none) ≡ some k = rw (none_there, find_last_char) at e in
      ground arith
  | inr (j, there) ↦
      let e' : some (suc j) ≡ some k = rw (there, find_last_char) at e in
      let lt = find_last_char-lt c s j there in ground arith
]

until_nul-NoNul : (buf : List ℕ) → NoNul (until_nul buf)
unfolding until_nul
until_nul-NoNul [] = tt
until_nul-NoNul (x ∷ buf) = elim (Bool-cases (x == 0)) [
  | inl nul ↦ rw (nul, until_nul) tt
  | inr other ↦ let ne = ==→ne x 0 other in rw (other, until_nul) (omega arith, until_nul-NoNul buf)
]

-- The file that a path asks for, `k` the place of its last '/': a digit behind it stands for a page.
abbrev pub file_of : List ℕ → ℕ → List ℕ
file_of s k = elim (page_for (byte_at s (k + 1))) [ some page ↦ page | none ↦ s ]

-- A connection that asks for a file, as `do_request` finds it.
abbrev pub asking : Conn → List ℕ → ℕ → Conn
asking c buf u = record c {
  read_buf = buf;
  url = some u;
  cgi = false;
  real_file = replicate filename_len 0;
}

-- A page that a digit stands for.
abbrev IsDigitPage : List ℕ → Type 0
IsDigitPage page = (n : ℕ) × (length page ≡ suc n) × (n < 14) × NoNul page

digit_page : (b : ℕ) (page : List ℕ) → page_for b ≡ some page → IsDigitPage page
unfolding page_for
digit_page b page e = elim (Bool-cases (b == b'0')) [
  | inl same ↦
      is (codes "/register.html") (rw (same, page_for) at e) (13, refl, omega arith, omega arith)
  | inr n0 ↦ elim (Bool-cases (b == b'1')) [
    | inl same ↦
        is (codes "/log.html") (rw (n0, same, page_for) at e) (8, refl, omega arith, omega arith)
    | inr n1 ↦ elim (Bool-cases (b == b'5')) [
      | inl same ↦
          is (codes "/picture.html") (rw (n0, n1, same, page_for) at e)
            (12, refl, omega arith, omega arith)
      | inr n5 ↦ elim (Bool-cases (b == b'6')) [
        | inl same ↦
            is (codes "/video.html") (rw (n0, n1, n5, same, page_for) at e)
              (10, refl, omega arith, omega arith)
        | inr n6 ↦ elim (Bool-cases (b == b'7')) [
          | inl same ↦
              is (codes "/fans.html") (rw (n0, n1, n5, n6, same, page_for) at e)
                (9, refl, omega arith, omega arith)
          | inr n7 ↦
              let no : none ≡ some page = rw (n0, n1, n5, n6, n7, page_for) at e in absurd (cc)
        ]
      ]
    ]
  ]
]
  where
    is : (p : List ℕ) → some p ≡ some page → IsDigitPage p → IsDigitPage page
    is p same v = let e' : p ≡ page = cc in subst IsDigitPage e' v

exact : (s : List ℕ) → take (length s) s ++ replicate (length s - length s) 0 ≡ s
exact s =
    let none_left : length s - length s ≡ 0 = omega arith in
    ap (λ z. z ++ replicate (length s - length s) 0) (take_all (length s) s (omega arith))
    ∙ ap (λ z. s ++ replicate z 0) none_left
    ∙ append_nil s

-- The root in the empty array, and a page of a digit behind it, which ends at a NUL.
digit_there :
    (root page : List ℕ)
    → length root < 180
    → NoNul root
    → IsDigitPage page
    → (rest real : List ℕ) × (strcpy_at (replicate filename_len 0) 0 root ≡ some (root ++ rest))
      × (strncpy_at (root ++ rest) (length root) page (length page) ≡ some real)
      × (c_str real 0 ≡ root ++ page)
unfolding strcpy_at strncpy_at c_str
digit_there root page lt root_clean (n, size, small, clean) =
    let zeros = replicate {A = ℕ} filename_len 0 in
    let len = length-append root (0 ∷ []) in
    let m = length (root ++ 0 ∷ []) in
    let rest = 0 ∷ drop m zeros in
    let total = length-replicate {A = ℕ} filename_len 0 in
    let (j, ends) = nuls-after filename_len (m + n) (omega arith) in
    let after : drop (length page) rest ≡ 0 ∷ replicate j 0 =
      ap (λ z. drop z rest) size ∙ sym (drop-drop n m zeros) ∙ ends in
    (
      rest,
      root ++ (page ++ (0 ∷ replicate j 0)),
      write_at-fits [] zeros (root ++ 0 ∷ []) 0 refl (omega (arith, len, total))
          ∙ ap some (append_assoc root (0 ∷ []) (drop m zeros)),
      ap (write_at (root ++ rest) (length root)) (exact page)
          ∙ write_at-fits root rest page (length root) refl
              (omega (arith, len, total, length-drop m zeros (omega (arith, len, total))))
          ∙ ap (λ z. some (root ++ (page ++ z))) after,
      until_nul-append root (page ++ 0 ∷ replicate j 0) root_clean
          ∙ ap (λ z. root ++ z) (until_nul_at page (replicate j 0) clean),
    )

module _ (w : World) (g : Shared) (c : Conn) (buf s : List ℕ) (u k : ℕ) (url_is : c_str buf u ≡ s)
    (last : find_last_char b'/' s ≡ some k) (root_clean : NoNul c.doc_root)
    (root_short : length c.doc_root < 180) where
  behind_slash : byte_at buf (u + k + 1) ≡ byte_at s (k + 1)
  behind_slash =
      let lt = find_last_char-lt b'/' s k last in
      let i : u + k + 1 ≡ u + (k + 1) = omega arith in
      ap (byte_at buf) i ∙ byte_at-c_str buf s u (k + 1) url_is (omega arith)

  -- A digit behind the last '/' is answered by its page.
  do_request-digit :
      (page : List ℕ)
      → page_for (byte_at s (k + 1)) ≡ some page
      → (real : List ℕ) × (do_request w g (asking c buf u)
          ≡ answered w g (record (asking c buf u) { real_file = real }))
        × (c_str real 0 ≡ c.doc_root ++ page)
  unfolding do_request choose_file
  do_request-digit page digit =
      let (rest, real, e1, e2, named) =
        digit_there c.doc_root page root_short root_clean (digit_page _ page digit) in
      (
        real,
        rw (e1, do_request) (rw url_is (rw last (rw behind_slash (rw digit (rw e2 refl))))),
        named,
      )

  -- Any other path is looked for under its own name.
  do_request-path :
      page_for (byte_at s (k + 1)) ≡ none
      → length s + length c.doc_root + 1 < filename_len
      → (real : List ℕ) × (do_request w g (asking c buf u)
          ≡ answered w g (record (asking c buf u) { real_file = real }))
        × (c_str real 0 ≡ c.doc_root ++ s)
  unfolding do_request choose_file c_str
  do_request-path no_digit fits =
      let (rest, e1, room) = root_there c.doc_root (omega arith) in
      let n = filename_len - length c.doc_root - 1 in
      let (rest', e2, _, ends) = strncpy-behind c.doc_root rest s n (omega arith) in
      let clean = subst NoNul url_is (until_nul-NoNul (drop u buf)) in
      (
        c.doc_root ++ rest',
        rw (e1, do_request)
            (rw url_is (rw last (rw behind_slash (rw no_digit (rw url_is (rw e2 refl)))))),
        until_nul-append c.doc_root rest' root_clean
            ∙ ap (λ z. c.doc_root ++ z) (ends (omega arith) clean),
      )

  -- A request that is no form is answered by the file that its path asks for, below the root.
  pub do_request-file :
      length s + length c.doc_root + 1 < filename_len
      → (real : List ℕ) × (do_request w g (asking c buf u)
          ≡ answered w g (record (asking c buf u) { real_file = real }))
        × (c_str real 0 ≡ c.doc_root ++ file_of s k)
  do_request-file fits = elim (Option-cases (page_for (byte_at s (k + 1)))) [
    | inl no_digit ↦ rw (no_digit, file_of) (do_request-path no_digit fits)
    | inr (page, digit) ↦ rw (digit, file_of) (do_request-digit page digit)
  ]

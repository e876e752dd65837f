-- ===== src/Http/Request/Page.antt =====
-- The page that answers a login: what the server sends after the form has been read.
use mathlib.Core.List.{append_assoc}
use cpp_server.Prelude.{Option-cases}
use cpp_server.Prelude.{
  ℕ, zero, suc, ◌+◌, ◌-◌, ◌<◌, ◌≤◌, ◌≡◌, refl, sym, ap, ◌∙◌, inl, inr, none, some, List, [], ◌∷◌,
  ◌++◌, arith, length, take, drop, drop-append, drop-drop, length-append, length-take, length-drop,
  take_all, length-replicate, replicate, ◌==◌, ltb, ltb→lt, ltb→le, Bool-cases,
}
use cpp_server.CString.{codes, c_str, until_nul, strcpy_at, strncpy_at, bytes_eq}
use cpp_server.CString.Buffers.{NoNul, until_nul_at, write_at-fits}
use cpp_server.Http.Line.{byte_at}
use cpp_server.Http.Request.{Users, find_user, login, page_for}

-- A page that a form leads to.
abbrev pub IsPage : List ℕ → Type 0
IsPage page =
    (b : ℕ) × (k : List ℕ) × (page ≡ b'/' ∷ b ∷ k)
    × (page_for b ≡ none)
    × NoNul page
    × (length page ≤ 14)

pub login-IsPage : (us : Users) (name password : List ℕ) → IsPage (login us name password)
unfolding login page_for
login-IsPage us name password = elim (Option-cases (find_user name us)) [
  | inl none_there ↦
      rw (none_there, login) (b'l', codes "ogError.html", refl, refl, omega arith, omega arith)
  | inr (p, there) ↦
      rw (there, login)
        (elim (Bool-cases (bytes_eq p password)) [
          | inl same ↦ rw same (b'w', codes "elcome.html", refl, refl, omega arith, omega arith)
          | inr other ↦ rw other (b'l', codes "ogError.html", refl, refl, omega arith, omega arith)
        ])
]

-- The bytes behind the front of a string.
pub take-drop : (n : ℕ) (buf : List ℕ) → buf ≡ take n buf ++ drop n buf
take-drop zero buf = refl
take-drop (suc n) [] = refl
take-drop (suc n) (b ∷ buf) = ap (λ z. b ∷ z) (take-drop n buf)

until_nul-head :
    (buf rest : List ℕ) (b : ℕ)
    → until_nul buf ≡ b ∷ rest
    → (more : List ℕ) × (buf ≡ b ∷ more) × (until_nul more ≡ rest)
unfolding until_nul
until_nul-head [] rest b e = absurd (cc)
until_nul-head (x ∷ buf) rest b e = elim (Bool-cases (x == 0)) [
  | inl nul ↦ let no : [] ≡ b ∷ rest = rw (nul, until_nul) at e in absurd (cc)
  | inr other ↦ let e' : x ∷ until_nul buf ≡ b ∷ rest = rw (other, until_nul) at e in (buf, cc, cc)
]

pub byte_at-drop : (buf more : List ℕ) (b n : ℕ) → drop n buf ≡ b ∷ more → byte_at buf n ≡ b
unfolding byte_at
byte_at-drop [] more b zero e = absurd (cc)
byte_at-drop [] more b (suc n) e = absurd (cc)
byte_at-drop (x ∷ buf) more b zero e = cc
byte_at-drop (x ∷ buf) more b (suc n) e = byte_at-drop buf more b n e

-- A string that is longer than two bytes, from its second and its third byte on.
pub c_str-from :
    (buf q : List ℕ) (a b u : ℕ)
    → c_str buf u ≡ a ∷ b ∷ q
    → (byte_at buf (u + 1) ≡ b) × (c_str buf (u + 2) ≡ q)
unfolding c_str
c_str-from buf q a b u e =
    let (r, er, e1) = until_nul-head (drop u buf) (b ∷ q) a e in
    let (r2, er2, e2) = until_nul-head r q b e1 in
    let one : drop (u + 1) buf ≡ r = drop-drop 1 u buf ∙ ap (drop 1) er in
    let two : drop (u + 2) buf ≡ r2 = drop-drop 2 u buf ∙ ap (drop 2) (er ∙ ap (λ z. a ∷ z) er2) in
    (byte_at-drop buf r2 b (u + 1) (one ∙ er2), ap until_nul two ∙ e2)

-- A string that has been copied to an offset is there.
pub strcpy-there :
    (buf s : List ℕ) (u : ℕ)
    → u + length s + 1 ≤ length buf
    → NoNul s
    → (buf' : List ℕ) × (strcpy_at buf u s ≡ some buf') × (c_str buf' u ≡ s)
unfolding strcpy_at c_str
strcpy-there buf s u le clean =
    let front = take u buf in
    let rest = drop u buf in
    let len = length-take u buf (omega arith) in
    let more = drop (length (s ++ 0 ∷ [])) rest in
    (
      front ++ ((s ++ 0 ∷ []) ++ more),
      ap (λ z. strcpy_at z u s) (take-drop u buf)
          ∙ write_at-fits front rest (s ++ 0 ∷ []) u (sym len)
              (omega (arith, length-append s (0 ∷ []), length-drop u buf (omega arith))),
      ap until_nul (drop-append front ((s ++ 0 ∷ []) ++ more) u (sym len))
          ∙ ap until_nul (append_assoc s (0 ∷ []) more)
          ∙ until_nul_at s more clean,
    )

length-strncpy : (s : List ℕ) (n : ℕ) → length (take n s ++ replicate (n - length s) 0) ≡ n
length-strncpy s n =
    let pad = length-replicate {A = ℕ} (n - length s) 0 in
    let both = length-append (take n s) (replicate (n - length s) 0) in
    elim (Bool-cases (ltb (length s) n)) [
      | inl short ↦
          let lt = ltb→lt _ _ short in
          omega (arith, both, pad, ap length (take_all n s (omega arith)))
      | inr long ↦
          let ge : n ≤ length s = ltb→le _ _ long in omega (arith, both, pad, length-take n s ge)
    ]

pub padded_ends :
    (s more : List ℕ) (n : ℕ)
    → length s < n
    → NoNul s
    → until_nul ((take n s ++ replicate (n - length s) 0) ++ more) ≡ s
padded_ends s more n short clean =
    let k = n - length s - 1 in
    let one_more : n - length s ≡ suc k = omega arith in
    ap (λ z. until_nul ((z ++ replicate (n - length s) 0) ++ more)) (take_all n s (omega arith))
    ∙ ap (λ z. until_nul ((s ++ replicate z 0) ++ more)) one_more
    ∙ ap until_nul (append_assoc s (0 ∷ replicate k 0) more)
    ∙ until_nul_at s (replicate k 0 ++ more) clean

-- `strncpy` behind a front leaves the front and the size.
pub strncpy-behind :
    (front rest s : List ℕ) (n : ℕ)
    → n ≤ length rest
    → (rest' : List ℕ) × (strncpy_at (front ++ rest) (length front) s n ≡ some (front ++ rest'))
      × (length rest' ≡ length rest)
      × (length s < n → NoNul s → until_nul rest' ≡ s)
unfolding strncpy_at
strncpy-behind front rest s n le =
    let bytes = take n s ++ replicate (n - length s) 0 in
    let size = length-strncpy s n in
    let more = drop (length bytes) rest in
    (
      bytes ++ more,
      write_at-fits front rest bytes (length front) refl (omega (arith, size)),
      omega (
        arith,
        size,
        length-append bytes more,
        length-drop (length bytes) rest (omega (arith, size)),
      ),
      λ short clean. padded_ends s more n short clean,
    )

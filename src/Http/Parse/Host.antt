-- ===== src/Http/Parse/Host.antt =====
-- The header Host.
use cpp_server.Prelude.{
  ℕ, zero, suc, ◌<◌, ◌≡◌, refl, sym, ap, ◌∙◌, ◌≢◌, inl, inr, true, false, List, [], ◌∷◌, arith,
  ◌==◌, length, take, Bool-cases,
}
use cpp_server.CString.{codes, c_str, case_eq, case_eq_n, to_lower}
use cpp_server.Http.State.{Conn}
use cpp_server.Http.Parse.{parse_headers}

pub case_eq-length : (s t : List ℕ) → case_eq s t ≡ true → length s ≡ length t
unfolding case_eq
case_eq-length [] [] e = refl
case_eq-length [] (y ∷ t) e = absurd (cc)
case_eq-length (x ∷ s) [] e = absurd (cc)
case_eq-length (x ∷ s) (y ∷ t) e = elim (Bool-cases (to_lower x == to_lower y)) [
  | inl same ↦ ap suc (case_eq-length s t (rw (same, case_eq) at e))
  | inr other ↦ let no : false ≡ true = rw (other, case_eq) at e in absurd (cc)
]

length-take_short : (n : ℕ) (s : List ℕ) → length (take n s) < n → length (take n s) ≡ length s
length-take_short zero s lt = absurd (omega arith)
length-take_short (suc n) [] lt = refl
length-take_short (suc n) (c ∷ s) lt = ap suc (length-take_short n s (omega arith))

pub not_host : (s : List ℕ) → length s ≢ 4 → case_eq_n s (codes "Host") 5 ≡ false
unfolding case_eq_n
not_host s ne = elim (Bool-cases (case_eq (take 5 s) (codes "Host"))) [
  | inl same ↦
      let four : length (take 5 s) ≡ 4 = case_eq-length (take 5 s) (codes "Host") same in
      absurd (ne (sym (length-take_short 5 s (omega arith)) ∙ four))
  | inr other ↦ other
]

-- A header line that is not four bytes long leaves the host as it was; this is so of every line that
-- begins with the five bytes `Host:`.
pub parse_headers-host :
    (c : Conn) (text : ℕ)
    → length (c_str c.read_buf text) ≢ 4
    → (parse_headers c text).1.host ≡ c.host
unfolding parse_headers
parse_headers-host c text ne = let other = not_host (c_str c.read_buf text) ne in ground arith

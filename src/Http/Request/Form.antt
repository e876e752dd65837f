-- ===== src/Http/Request/Form.antt =====
-- The form of a POST: what the page sends is what the server takes from it.
use mathlib.Core.List.{append_assoc}
use cpp_server.Prelude.{
  ℕ, ◌+◌, ◌<◌, ◌≡◌, refl, ap, ◌∙◌, true, false, some, List, [], ◌∷◌, ◌++◌, arith, length, take,
  drop, take-append, drop-append, drop-drop, length-append, ◌==◌, lt→ltb, ne→==,
}
use cpp_server.CString.{codes, find_char, until_nul}
use cpp_server.CString.Buffers.{NoNul, until_nul_at}
use cpp_server.Http.State.{ok}
use cpp_server.Http.Request.{form, form_name, form_password}

abbrev pub Without : ℕ → List ℕ → Type 0
Without c [] = Unit
Without c (b ∷ s) = ((b == c) ≡ false) × Without c s

abbrev pub form_text : List ℕ → List ℕ → List ℕ
form_text name password = codes "user=" ++ (name ++ (codes "&password=" ++ password))

find_char-append :
    (c : ℕ) (s rest : List ℕ)
    → Without c s
    → (c == c) ≡ true
    → find_char c (s ++ c ∷ rest) ≡ some (length s)
unfolding find_char
find_char-append c [] rest h e = rw (e, find_char) refl
find_char-append c (b ∷ s) rest h e =
    rw (h.0, find_char) (rw (find_char-append c s rest h.1 e) refl)

Without-nul : (s : List ℕ) → NoNul s → Without 0 s
Without-nul [] h = tt
Without-nul (b ∷ s) h = (ne→== b 0 (omega (arith, h.0)), Without-nul s h.1)

until_nul_all : (s : List ℕ) → NoNul s → until_nul s ≡ s
unfolding until_nul
until_nul_all [] h = refl
until_nul_all (b ∷ s) h =
    rw (ne→== b 0 (omega (arith, h.0)), until_nul) (ap (λ z. b ∷ z) (until_nul_all s h.1))

drop-add :
    (buf rest s : List ℕ) (n k : ℕ) → drop n buf ≡ s ++ rest → k ≡ n + length s → drop k buf ≡ rest
drop-add buf rest s n k e ek =
    ap (λ z. drop z buf) ek
    ∙ drop-drop (length s) n buf
    ∙ ap (drop (length s)) e
    ∙ drop-append s rest (length s) refl

-- A name without '&' and a password, both shorter than their arrays, come out of the form as they
-- were put in.
pub form-form_text :
    (buf name password more : List ℕ) (s : ℕ)
    → drop s buf ≡ form_text name password ++ 0 ∷ more
    → NoNul name
    → Without b'&' name
    → NoNul password
    → length name < 100
    → length password < 100
    → form buf s ≡ ok (name, password)
unfolding form form_name form_password
form-form_text buf name password more s e clean no_amp clean2 short short2 =
    let tail = codes "password=" ++ (password ++ 0 ∷ more) in
    let at_name : drop (s + 5) buf ≡ name ++ b'&' ∷ tail =
      drop-add buf (name ++ b'&' ∷ tail) (codes "user=") s (s + 5) (e ∙ simp append_assoc) refl in
    let at_password : drop (s + 5 + length name + 10) buf ≡ password ++ 0 ∷ more =
      drop-add buf (password ++ 0 ∷ more) (codes "user=" ++ (name ++ codes "&password=")) s _
        (e ∙ simp append_assoc) (omega (arith, length-append name (codes "&password="))) in
    let found : find_char b'&' (name ++ b'&' ∷ tail) ≡ some (length name) =
      find_char-append b'&' name tail no_amp refl in
    let taken : until_nul (take (length name) (name ++ b'&' ∷ tail)) ≡ name =
      ap until_nul (take-append name (b'&' ∷ tail) (length name) refl) ∙ until_nul_all name clean in
    let ends : find_char 0 (password ++ 0 ∷ more) ≡ some (length password) =
      find_char-append 0 password more (Without-nul password clean2) refl in
    rw (at_name, form)
      (rw found (
        rw (lt→ltb (length name) 100 short) (
          rw at_password (
            rw ends (
              rw (lt→ltb (length password) 100 short2)
                (rw (taken, until_nul_at password more clean2) refl))))))

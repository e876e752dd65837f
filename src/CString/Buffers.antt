-- ===== src/CString/Buffers.antt =====
-- What the string calls leave in a buffer.
use mathlib.Core.List.{append_assoc}
use mathlib.Core.Option.{some-injective}
use cpp_server.Prelude.{
  ℕ, zero, suc, ◌+◌, ◌-◌, ◌*◌, ◌/◌, ◌%◌, ◌≤◌, ◌<◌, ◌≡◌, refl, sym, ap, ◌∙◌, inl, inr, Bool-cases,
  some, none, List, [], ◌∷◌, ◌++◌, arith, ltb, leb, length, take, drop, replicate, length-append,
  length-drop, length-take, leb→le, take-append, take_all, ne→==, le→leb, ltb→le, lt→ltb,
  length-replicate,
}
use cpp_server.CString.{until_nul, joined, write_at, snprintf_at}
use cpp_server.CString.Decimal.{digits_onto, print_nat, print_padded}

abbrev pub NoNul : List ℕ → Type 0
NoNul [] = Unit
NoNul (c ∷ cs) = (0 < c) × NoNul cs

pub NoNul-append : (s t : List ℕ) → NoNul s → NoNul t → NoNul (s ++ t)
NoNul-append [] t a b = b
NoNul-append (c ∷ s) t a b = (a.0, NoNul-append s t a.1 b)

abbrev pub AllNoNul : List (List ℕ) → Type 0
AllNoNul [] = Unit
AllNoNul (s ∷ ss) = NoNul s × AllNoNul ss

pub NoNul-joined : (ss : List (List ℕ)) → AllNoNul ss → NoNul (joined ss)
NoNul-joined [] a = tt
NoNul-joined (s ∷ ss) a = NoNul-append s (joined ss) a.0 (NoNul-joined ss a.1)

-- A string that stands in an array ends at its NUL.
pub until_nul_at : (s rest : List ℕ) → NoNul s → until_nul (s ++ 0 ∷ rest) ≡ s
unfolding until_nul
until_nul_at [] rest a = refl
until_nul_at (c ∷ s) rest a =
    rw (ne→== c 0 (omega arith), until_nul) (ap (λ z. c ∷ z) (until_nul_at s rest a.1))

-- Bytes that fit replace as many bytes of what stands behind `front`.
pub write_at-fits :
    (front rest bytes : List ℕ) (i : ℕ)
    → i ≡ length front
    → length bytes ≤ length rest
    → write_at (front ++ rest) i bytes ≡ some (front ++ (bytes ++ drop (length bytes) rest))
unfolding write_at
write_at-fits front rest bytes i e le =
    rw
      (
        le→leb (i + length bytes) (length (front ++ rest))
            (omega (arith, length-append front rest)),
        take-append front rest i e,
        drop_more front (i + length bytes) (omega arith),
      )
      refl
  where
    drop_more :
        (xs : List ℕ) (d : ℕ)
        → d ≡ length xs + length bytes
        → drop d (xs ++ rest) ≡ drop (length bytes) rest
    drop_more [] d e = ap (λ k. drop k rest) (omega arith)
    drop_more (x ∷ xs) zero e = absurd (omega arith)
    drop_more (x ∷ xs) (suc d) e = drop_more xs d (omega arith)

pub write_at-outside :
    (buf bytes : List ℕ) (i : ℕ) → length buf < i + length bytes → write_at buf i bytes ≡ none
unfolding write_at
write_at-outside buf bytes i lt = ground arith

pub length-write_at :
    (buf bytes b : List ℕ) (i : ℕ) → write_at buf i bytes ≡ some b → length b ≡ length buf
unfolding write_at
length-write_at buf bytes b i e = elim (Bool-cases (leb (i + length bytes) (length buf))) [
  | inl fits ↦
      let le = leb→le _ _ fits in
      let same = some-injective _ _ (rw (fits, write_at) at e) in
      ap length (sym same)
      ∙ omega (
        arith,
        length-append (take i buf) (bytes ++ drop (i + length bytes) buf),
        length-append bytes (drop (i + length bytes) buf),
        length-take i buf (omega arith),
        length-drop (i + length bytes) buf le,
      )
  | inr outside ↦ let bad : none ≡ some b = rw (outside, write_at) at e in absurd (cc)
]

pub length-snprintf_at :
    (buf text b : List ℕ) (i size : ℕ)
    → snprintf_at buf i size text ≡ some b
    → length b ≡ length buf
unfolding snprintf_at
length-snprintf_at buf text b i zero e = ap length (sym (some-injective _ _ e))
length-snprintf_at buf text b i (suc n) e = length-write_at buf (take n text ++ 0 ∷ []) b i e

-- A text that fits stands behind `front`, with its NUL.
pub snprintf_at-fits :
    (front rest text : List ℕ) (i size : ℕ)
    → i ≡ length front
    → length text < size
    → length text < length rest
    → snprintf_at (front ++ rest) i size text
      ≡ some (front ++ (text ++ 0 ∷ drop (length text + 1) rest))
unfolding snprintf_at
snprintf_at-fits front rest text i zero e room inside = absurd (omega arith)
snprintf_at-fits front rest text i (suc n) e room inside = rw (take_all n text (omega arith)) (
    write_at-fits front rest (text ++ 0 ∷ []) i e (omega (arith, len))
    ∙ ap (λ z. some (front ++ z))
        (append_assoc text (0 ∷ []) _ ∙ ap (λ k. text ++ 0 ∷ drop k rest) len))
  where
    len : length (text ++ 0 ∷ []) ≡ length text + 1
    len = length-append text (0 ∷ [])

abbrev pub ten_to : ℕ → ℕ
ten_to zero = 1
ten_to (suc k) = 10 * ten_to k

length-digits_onto :
    (k f n : ℕ) (rest : List ℕ)
    → n < ten_to (suc k)
    → length (digits_onto f n rest) ≤ suc k + length rest
unfolding digits_onto
length-digits_onto k zero n rest lt = omega arith
length-digits_onto zero (suc f) n rest lt =
    rw (lt→ltb n 10 (omega arith), digits_onto) (omega arith)
length-digits_onto (suc k) (suc f) n rest lt = elim (Bool-cases (ltb n 10)) [
  | inl one ↦ rw (one, digits_onto) (omega arith)
  | inr more ↦
      rw (more, digits_onto)
        (omega (
          arith,
          length-digits_onto k f (n / 10) ((n % 10 + b'0') ∷ rest)
              (omega (arith, ltb→le n 10 more)),
        ))
]

-- A number below a power of ten has at most as many digits.
pub length-print_nat : (k n : ℕ) → n < ten_to (suc k) → length (print_nat n) ≤ suc k
unfolding print_nat
length-print_nat k n lt = omega (arith, length-digits_onto k (n + 1) n [] lt)

-- A number that fits its field takes exactly the field.
pub length-print_padded : (k n : ℕ) → n < ten_to (suc k) → length (print_padded (suc k) n) ≡ suc k
unfolding print_padded
length-print_padded k n lt = omega (
  arith,
  length-print_nat k n lt,
  length-append (replicate (suc k - length (print_nat n)) b'0') (print_nat n),
  length-replicate {A = ℕ} (suc k - length (print_nat n)) b'0',
)

digits_onto-NoNul : (f n : ℕ) (rest : List ℕ) → NoNul rest → NoNul (digits_onto f n rest)
unfolding digits_onto
digits_onto-NoNul zero n rest a = a
digits_onto-NoNul (suc f) n rest a = elim (Bool-cases (ltb n 10)) [
  | inl one ↦ rw (one, digits_onto) (omega arith, a)
  | inr more ↦ rw (more, digits_onto) (digits_onto-NoNul f (n / 10) _ (omega arith, a))
]

pub print_nat-NoNul : (n : ℕ) → NoNul (print_nat n)
unfolding print_nat
print_nat-NoNul n = digits_onto-NoNul (n + 1) n [] tt

zeros-NoNul : (k : ℕ) → NoNul (replicate k b'0')
zeros-NoNul zero = tt
zeros-NoNul (suc k) = (omega arith, zeros-NoNul k)

pub print_padded-NoNul : (w n : ℕ) → NoNul (print_padded w n)
unfolding print_padded
print_padded-NoNul w n =
    NoNul-append (replicate (w - length (print_nat n)) b'0') (print_nat n) (zeros-NoNul _)
      (print_nat-NoNul n)

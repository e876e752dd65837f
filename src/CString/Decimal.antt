-- ===== src/CString/Decimal.antt =====
-- `%d`: a number in decimal.
use cpp_server.Prelude.{
  ℕ, zero, suc, ◌+◌, ◌/◌, ◌%◌, ◌-◌, ◌++◌, true, false, List, [], ◌∷◌, ℤ, pos, negsuc, ltb, length,
  replicate,
}

-- The digits in front of `rest`; fuel above the number of digits.
unfoldable pub digits_onto : ℕ → ℕ → List ℕ → List ℕ
digits_onto zero n rest = rest
digits_onto (suc f) n rest = elim (ltb n 10) [
  | true ↦ (n + b'0') ∷ rest
  | false ↦ digits_onto f (n / 10) ((n % 10 + b'0') ∷ rest)
]

unfoldable pub print_nat : ℕ → List ℕ
unfolding digits_onto
print_nat n = digits_onto (n + 1) n []

-- `%d` of an int.
unfoldable pub print_int : ℤ → List ℕ
unfolding print_nat
print_int (pos n) = print_nat n
print_int (negsuc n) = b'-' ∷ print_nat (n + 1)

-- `%0wd` of a number that is not negative.
unfoldable pub print_padded : ℕ → ℕ → List ℕ
unfolding print_nat
print_padded w n = replicate (w - length (print_nat n)) b'0' ++ print_nat n

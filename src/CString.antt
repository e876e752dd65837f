-- ===== src/CString.antt =====
-- What the sources use of <string.h>, <strings.h> and <stdlib.h>, over arrays of bytes.
-- A pointer into an array is an offset. A string ends at a NUL byte or at the end of its array.
pub mod Decimal
pub mod Buffers
use Prim.Native.Char.{code}
use Prim.Native.String
use Prim.Native.String.{String}
use cpp_server.Prelude.{
  ℕ, zero, suc, ◌+◌, ◌-◌, ◌*◌, ◌/◌, ◌%◌, ◌^◌, Bool, true, false, ◌&&◌, ◌||◌, Option, none, some,
  List, [], ◌∷◌, ◌++◌, ℤ, pos, negsuc, ltb, leb, ◌==◌, if◌then◌else◌, length, get_elem?, take, drop,
  replicate, set,
}

-- The bytes of an ASCII literal.
abbrev pub codes : String → List ℕ
codes String.[] = []
codes (String.◌∷◌ c s) = code c ∷ codes s

-- The bytes before the first NUL.
unfoldable pub until_nul : List ℕ → List ℕ
until_nul [] = []
until_nul (c ∷ cs) = if c == 0 then [] else c ∷ until_nul cs

abbrev pub joined : List (List ℕ) → List ℕ
joined [] = []
joined (s ∷ ss) = s ++ joined ss

-- The string at offset `i`.
unfoldable pub c_str : List ℕ → ℕ → List ℕ
unfolding until_nul
c_str buf i = until_nul (drop i buf)

unfoldable pub bytes_eq : List ℕ → List ℕ → Bool
bytes_eq [] [] = true
bytes_eq [] (y ∷ ys) = false
bytes_eq (x ∷ xs) [] = false
bytes_eq (x ∷ xs) (y ∷ ys) = (x == y) && bytes_eq xs ys

unfoldable pub to_lower : ℕ → ℕ
to_lower c = if leb b'A' c && leb c b'Z' then c + 32 else c

-- `strcasecmp(s, t) == 0`
unfoldable pub case_eq : List ℕ → List ℕ → Bool
unfolding to_lower
case_eq [] [] = true
case_eq [] (y ∷ ys) = false
case_eq (x ∷ xs) [] = false
case_eq (x ∷ xs) (y ∷ ys) = (to_lower x == to_lower y) && case_eq xs ys

-- `strncasecmp(s, t, n) == 0`: the NUL of the shorter string is compared too.
unfoldable pub case_eq_n : List ℕ → List ℕ → ℕ → Bool
unfolding case_eq
case_eq_n s t n = case_eq (take n s) (take n t)

unfoldable pub is_blank : ℕ → Bool
is_blank c = (c == b' ') || (c == 9)

-- `strpbrk(s, " \t")` as a distance from the start of the string.
unfoldable pub find_blank : List ℕ → Option ℕ
unfolding is_blank
find_blank [] = none
find_blank (c ∷ cs) = elim (is_blank c) [
  | true ↦ some 0
  | false ↦ elim (find_blank cs) [ none ↦ none | some k ↦ some (suc k) ]
]

-- `strspn(s, " \t")`
unfoldable pub count_blanks : List ℕ → ℕ
unfolding is_blank
count_blanks [] = 0
count_blanks (c ∷ cs) = if is_blank c then suc (count_blanks cs) else 0

-- `strchr(s, c)` for a `c` that is not NUL.
unfoldable pub find_char : ℕ → List ℕ → Option ℕ
find_char c [] = none
find_char c (x ∷ xs) = elim (x == c) [
  | true ↦ some 0
  | false ↦ elim (find_char c xs) [ none ↦ none | some k ↦ some (suc k) ]
]

-- `strrchr(s, c)` for a `c` that is not NUL.
unfoldable pub find_last_char : ℕ → List ℕ → Option ℕ
find_last_char c [] = none
find_last_char c (x ∷ xs) = elim (find_last_char c xs) [
  | some k ↦ some (suc k)
  | none ↦ if x == c then some 0 else none
]

-- Bytes written from offset `i` on; `none` where they do not fit.
unfoldable pub write_at : List ℕ → ℕ → List ℕ → Option (List ℕ)
write_at buf i bytes =
    if leb (i + length bytes) (length buf)
    then some (take i buf ++ (bytes ++ drop (i + length bytes) buf))
    else none

-- `strcpy(buf + i, s)`
unfoldable pub strcpy_at : List ℕ → ℕ → List ℕ → Option (List ℕ)
unfolding write_at
strcpy_at buf i s = write_at buf i (s ++ 0 ∷ [])

-- `strncpy(buf + i, s, n)`: exactly n bytes, filled up by NULs, and no NUL after a longer string.
unfoldable pub strncpy_at : List ℕ → ℕ → List ℕ → ℕ → Option (List ℕ)
unfolding write_at
strncpy_at buf i s n = write_at buf i (take n s ++ replicate (n - length s) 0)

-- `snprintf(buf + i, size, …)` of the text: its first `size - 1` bytes and a NUL.
unfoldable pub snprintf_at : List ℕ → ℕ → ℕ → List ℕ → Option (List ℕ)
unfolding write_at
snprintf_at buf i zero text = some buf
snprintf_at buf i (suc n) text = write_at buf i (take n text ++ 0 ∷ [])

unfoldable pub is_digit : ℕ → Bool
is_digit c = leb b'0' c && leb c b'9'

unfoldable pub is_space : ℕ → Bool
is_space c = (c == b' ') || (leb 9 c && leb c 13)

unfoldable pub skip_spaces : List ℕ → List ℕ
unfolding is_space
skip_spaces [] = []
skip_spaces (c ∷ cs) = if is_space c then skip_spaces cs else c ∷ cs

-- The value of the digits at the front, behind `acc`.
unfoldable pub read_digits : ℕ → List ℕ → ℕ
unfolding is_digit
read_digits acc [] = acc
read_digits acc (c ∷ cs) = elim (is_digit c) [
  | true ↦ read_digits (acc * 10 + (c - b'0')) cs
  | false ↦ acc
]

abbrev long_max : ℕ
long_max = 2 ^ 63 - 1

abbrev negate_long : ℕ → ℤ
negate_long zero = pos 0
negate_long (suc k) = negsuc k

abbrev clamp_to : ℕ → ℕ → ℕ
clamp_to hi n = if leb n hi then n else hi

abbrev signed_digits : List ℕ → ℤ
signed_digits [] = pos 0
signed_digits (c ∷ cs) =
    if c == b'-'
    then negate_long (clamp_to (2 ^ 63) (read_digits 0 cs))
    else pos (clamp_to long_max (read_digits 0 (if c == b'+' then cs else c ∷ cs)))

-- `atol(s)`, which stops at the ends of `long`.
unfoldable pub atol : List ℕ → ℤ
unfolding skip_spaces read_digits
atol s = signed_digits (skip_spaces s)

-- ===== src/NetLog/Pattern.antt =====
-- `LogFormatter::init`: the loops over the pattern.
-- Fuel counts the rounds of each loop; `out_of_fuel` is a loop that has not ended.
use cpp_server.Prelude.{
  ℕ, zero, suc, ◌+◌, ◌-◌, ◌%◌, ◌^◌, Bool, true, false, ◌&&◌, none, some, List, [], ◌∷◌, ◌++◌, leb,
  ◌==◌, if◌then◌else◌, length, get_elem?, take, drop,
}
use cpp_server.CString.{codes, is_space}
use cpp_server.Http.State.{Run, ok, undefined, out_of_fuel, ◌>>=◌}

-- An entry of `vec`: the string, the format and the type.
pub record Piece : Type 0 where
  pub str : List ℕ
  pub fmt : List ℕ
  pub type : ℕ

-- The variables of the inner loop.
pub record Scan : Type 0 where
  pub n : ℕ
  pub fmt_status : ℕ
  pub fmt_begin : ℕ
  pub str : List ℕ
  pub fmt : List ℕ

-- `pattern.substr(at, n)`; it throws where `at` is behind the end.
abbrev pub substr : List ℕ → ℕ → ℕ → Run (List ℕ)
substr pattern at n = if leb at (length pattern) then ok (take n (drop at pattern)) else undefined

-- What a round of the inner loop does: it breaks, or goes on.
pub data Round : Type 0 where
  breaks goes_on : Scan → Round

abbrev open_format : Scan → List ℕ → Scan
open_format s str = record s { str = str; fmt_status = 1; n = s.n + 1; fmt_begin = s.n + 1 }

-- `a - b` of `size_t`
abbrev pub sub_size : ℕ → ℕ → ℕ
sub_size a b = (a + 2 ^ 64 - b) % 2 ^ 64

-- One round at the character `c`, behind the '%' at `i`. A character that is neither a space nor one
-- of the two tests changes nothing, `n` included.
unfoldable pub scan_round : List ℕ → ℕ → ℕ → Scan → Run Round
scan_round pattern i c s =
    if is_space c
    then ok (breaks s)
    else if (s.fmt_status == 0) && (c == b'{')
    then substr pattern (i + 1) (s.n - i) >>= (λ str. ok (goes_on (open_format s str)))
    else if (s.fmt_status == 1) && (c == b'}')
    then substr pattern (s.fmt_begin + 1) (sub_size s.n (s.fmt_begin + 1))
      >>= (λ fmt. ok (breaks (record s { fmt = fmt; fmt_status = 2 })))
    else ok (goes_on s)

-- The inner loop.
unfoldable pub scan_format : ℕ → List ℕ → ℕ → Scan → Run Scan
scan_format zero pattern i s = out_of_fuel
scan_format (suc f) pattern i s = elim (get_elem? pattern s.n) [
  | none ↦ ok s
  | some c ↦ scan_round pattern i c s >>= λ r. elim r [
    | breaks s' ↦ ok s'
    | goes_on s' ↦ scan_format f pattern i s'
  ]
]

-- `vec` with the text before the '%', where there is any; `vstr` is never emptied.
abbrev pub flush : List ℕ → List Piece → List Piece
flush [] vec = vec
flush (c ∷ cs) vec = vec ++ record { str = c ∷ cs; fmt = []; type = 0 } ∷ []

-- What follows the inner loop: the vector, and where the outer loop stands.
unfoldable pub end_format : List ℕ → ℕ → Scan → List ℕ → List Piece → Run (ℕ × List Piece)
end_format pattern i s vstr vec =
    if s.fmt_status == 0
    then substr pattern (i + 1) (s.n - i - 1)
      >>= (λ str. ok (s.n, flush vstr vec ++ record { str = str; fmt = s.fmt; type = 1 } ∷ []))
    else if s.fmt_status == 1
    then ok (i, vec ++ record { str = codes "<<pattern_error>>"; fmt = s.fmt; type = 0 } ∷ [])
    else ok (s.n, flush vstr vec ++ record { str = s.str; fmt = s.fmt; type = 1 } ∷ [])

-- Whether the character behind place `i` is a '%'.
abbrev pub doubled : List ℕ → ℕ → Bool
doubled pattern i = elim (get_elem? pattern (i + 1)) [ none ↦ false | some c ↦ c == b'%' ]

-- The outer loop, with the vector it has made so far.
unfoldable pub init_from : ℕ → List ℕ → ℕ → List ℕ → List Piece → Run (List Piece)
init_from zero pattern i vstr vec = out_of_fuel
init_from (suc f) pattern i vstr vec = elim (get_elem? pattern i) [
  | none ↦ ok (flush vstr vec)
  | some c ↦ elim (c == b'%') [
    | false ↦ init_from f pattern (i + 1) (vstr ++ c ∷ []) vec
    | true ↦ elim (doubled pattern i) [
      | true ↦ init_from f pattern (i + 1) (vstr ++ b'%' ∷ []) vec
      | false ↦
          scan_format f pattern i
            (record { n = i + 1; fmt_status = 0; fmt_begin = 0; str = []; fmt = [] })
          >>= λ s. end_format pattern i s vstr vec >>= λ r. init_from f pattern (r.0 + 1) vstr r.1
    ]
  ]
]

-- `init`. Its vector is a local variable: the formatter gets no item from it.
unfoldable pub init : ℕ → List ℕ → Run (List Piece)
init f pattern = init_from f pattern 0 [] []

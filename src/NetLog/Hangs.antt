-- ===== src/NetLog/Hangs.antt =====
-- Where the loops of `init` end, and where they do not.
use mathlib.Core.List.{append_assoc}
use cpp_server.Prelude.{
  ℕ, zero, suc, ◌+◌, ◌<◌, ◌≡◌, ◌≢◌, refl, sym, ap, ◌∙◌, false, some, List, [], ◌∷◌, ◌++◌, arith,
  length, get_elem?, ne→==, append_nil, length-append, get_elem?_out,
}
use cpp_server.CString.{is_space}
use cpp_server.Http.State.{ok, out_of_fuel}
use cpp_server.NetLog.Pattern.{
  Piece, Scan, goes_on, scan_round, scan_format, flush, init_from, init,
}

-- A character that the inner loop passes by without looking at the next one.
pub record Stuck (c : ℕ) : Type 0 where
  pub no_space : is_space c ≡ false
  pub no_brace : c ≢ b'{'
  pub no_percent : c ≢ b'%'

stays_here :
    (pattern : List ℕ) (i c : ℕ) (s : Scan)
    → Stuck c
    → s.fmt_status ≡ 0
    → scan_round pattern i c s ≡ ok (goes_on s)
unfolding scan_round
stays_here pattern i c s k st = simp (k.no_space, ne→== c b'{' k.no_brace, st, scan_round) refl

-- The inner loop stays at such a character for ever.
scan_format_stays :
    (f : ℕ) (pattern : List ℕ) (i c : ℕ) (s : Scan)
    → get_elem? pattern s.n ≡ some c
    → Stuck c
    → s.fmt_status ≡ 0
    → scan_format f pattern i s ≡ out_of_fuel
unfolding scan_format
scan_format_stays zero pattern i c s at k st = refl
scan_format_stays (suc f) pattern i c s at k st =
    rw (at, scan_format)
      (rw (stays_here pattern i c s k st) (scan_format_stays f pattern i c s at k st))

-- What the text in front of the first '%' is.
abbrev pub NoPercent : List ℕ → Type 0
NoPercent [] = Unit
NoPercent (c ∷ cs) = (c ≢ b'%') × NoPercent cs

get_elem?-here : (xs ys : List ℕ) (y i : ℕ) → i ≡ length xs → get_elem? (xs ++ y ∷ ys) i ≡ some y
get_elem?-here [] ys y zero e = refl
get_elem?-here [] ys y (suc i) e = absurd (omega arith)
get_elem?-here (x ∷ xs) ys y zero e = absurd (omega arith)
get_elem?-here (x ∷ xs) ys y (suc i) e = get_elem?-here xs ys y i (omega arith)

-- The outer loop behind `front`, in front of `rest`, a '%' and a character at which the inner loop
-- stays.
abbrev pub ahead : List ℕ → List ℕ → ℕ → List ℕ → List ℕ
ahead front rest c behind = front ++ (rest ++ b'%' ∷ c ∷ behind)

init_from_hangs :
    (f : ℕ) (front rest : List ℕ) (c i : ℕ) (behind vstr : List ℕ) (vec : List Piece)
    → i ≡ length front
    → NoPercent rest
    → Stuck c
    → init_from f (ahead front rest c behind) i vstr vec ≡ out_of_fuel
unfolding init_from
init_from_hangs zero front rest c i behind vstr vec e clean k = refl
init_from_hangs (suc f) front [] c i behind vstr vec e clean k =
    let here = get_elem?-here front (c ∷ behind) b'%' i e in
    let regroup : (front ++ b'%' ∷ []) ++ c ∷ behind ≡ ahead front [] c behind =
      append_assoc front (b'%' ∷ []) (c ∷ behind) in
    let next =
      ap (λ z. get_elem? z (i + 1)) (sym regroup)
      ∙ get_elem?-here (front ++ b'%' ∷ []) behind c (i + 1)
          (omega (arith, length-append front (b'%' ∷ []))) in
    let start : Scan = record { n = i + 1; fmt_status = 0; fmt_begin = 0; str = []; fmt = [] } in
    rw (here, init_from)
      (rw next (
        rw (ne→== c b'%' k.no_percent)
          (rw (scan_format_stays f (ahead front [] c behind) i c start next k refl) refl)))
init_from_hangs (suc f) front (x ∷ rest) c i behind vstr vec e clean k =
    let here = get_elem?-here front (rest ++ b'%' ∷ c ∷ behind) x i e in
    let regroup : (front ++ x ∷ []) ++ (rest ++ b'%' ∷ c ∷ behind)
        ≡ ahead front (x ∷ rest) c behind =
      append_assoc front (x ∷ []) (rest ++ b'%' ∷ c ∷ behind) in
    rw (here, init_from)
      (rw (ne→== x b'%' clean.0) (
        ap (λ z. init_from f z (i + 1) (vstr ++ x ∷ []) vec) (sym regroup)
        ∙ init_from_hangs f (front ++ x ∷ []) rest c (i + 1) behind (vstr ++ x ∷ []) vec
            (omega (arith, length-append front (x ∷ []))) clean.1 k))

-- `init` never ends on a pattern whose first '%' is followed by a conversion character: by anything
-- but a space, a '{' or another '%'. No number of rounds is enough.
pub init_hangs :
    (f : ℕ) (before : List ℕ) (c : ℕ) (behind : List ℕ)
    → NoPercent before
    → Stuck c
    → init f (before ++ b'%' ∷ c ∷ behind) ≡ out_of_fuel
unfolding init
init_hangs f before c behind clean k = init_from_hangs f [] before c 0 behind [] [] refl clean k

init_from_plain :
    (f : ℕ) (front rest vstr : List ℕ) (i : ℕ) (vec : List Piece)
    → i ≡ length front
    → NoPercent rest
    → length rest < f
    → init_from f (front ++ rest) i vstr vec ≡ ok (flush (vstr ++ rest) vec)
unfolding init_from
init_from_plain zero front rest vstr i vec e clean lt = absurd (omega arith)
init_from_plain (suc f) front [] vstr i vec e clean lt =
    let at_end = get_elem?_out (front ++ []) i (omega (arith, length-append front [])) in
    rw (at_end, init_from) (ap (λ z. ok (flush z vec)) (sym (append_nil vstr)))
init_from_plain (suc f) front (x ∷ rest) vstr i vec e clean lt =
    let regroup : (front ++ x ∷ []) ++ rest ≡ front ++ x ∷ rest =
      append_assoc front (x ∷ []) rest in
    rw (get_elem?-here front rest x i e, init_from)
      (rw (ne→== x b'%' clean.0) (
        ap (λ z. init_from f z (i + 1) (vstr ++ x ∷ []) vec) (sym regroup)
        ∙ init_from_plain f (front ++ x ∷ []) rest (vstr ++ x ∷ []) (i + 1) vec
            (omega (arith, length-append front (x ∷ []))) clean.1 (omega arith)
        ∙ ap (λ z. ok (flush z vec)) (append_assoc vstr (x ∷ []) rest)))

-- On a pattern without '%' the loop ends after one round for each character, and one more: the
-- vector has the pattern as its only piece of text, or nothing for the empty pattern.
pub init_plain :
    (f : ℕ) (pattern : List ℕ)
    → NoPercent pattern
    → length pattern < f
    → init f pattern ≡ ok (flush pattern [])
unfolding init
init_plain f pattern clean lt = init_from_plain f [] pattern [] 0 [] refl clean lt

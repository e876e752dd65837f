-- ===== src/Log/Start.antt =====
-- `init`: the queue, the buffer and the names of the files.
use mathlib.Core.List.{append_assoc}
use cpp_server.Prelude.{
  ℕ, zero, suc, ◌+◌, ◌-◌, ◌<◌, ◌≡◌, refl, sym, ap, ap₂, ◌∙◌, some, none, Bool, false, List, [], ◌∷◌,
  ◌++◌, ℤ, pos, arith, length, take, drop, replicate, length-append, length-replicate, take-append,
  drop-append, append_nil, ==_refl,
}
use cpp_server.CString.{until_nul, find_last_char, strcpy_at, strncpy_at}
use cpp_server.CString.Buffers.{NoNul, NoNul-append, until_nul_at, write_at-fits}
use cpp_server.BlockQueue.Refine.{create-Holds}
use cpp_server.Http.State.{ok}
use cpp_server.Log.{
  Log, Time, new_log, init, store_names, start_queue, full_name, day_file, date_prefix,
}
use cpp_server.Log.Rotate.{AllOpen}
use cpp_server.Log.Writes.{Ready}

find_last-append :
    (c : ℕ) (dir base : List ℕ)
    → find_last_char c base ≡ none
    → find_last_char c (dir ++ c ∷ base) ≡ some (length dir)
unfolding find_last_char
find_last-append c [] base e = rw (e, find_last_char) (rw (==_refl c) refl)
find_last-append c (x ∷ dir) base e = rw (find_last-append c dir base e, find_last_char) refl

drop_zeros : (j n : ℕ) → j < n → (r : List ℕ) × (drop j (replicate n 0) ≡ 0 ∷ r)
drop_zeros j zero lt = absurd (omega arith)
drop_zeros zero (suc n) lt = (replicate n 0, refl)
drop_zeros (suc j) (suc n) lt = drop_zeros j n (omega arith)

abbrev zeros : List ℕ
zeros = replicate 128 0

-- A string of at most 127 bytes is copied into a zeroed array, with its NUL or without.
strcpy-zeros :
    (s : List ℕ)
    → NoNul s
    → length s < 128
    → (b : List ℕ) × (strcpy_at zeros 0 s ≡ some b) × (until_nul b ≡ s)
unfolding strcpy_at
strcpy-zeros s clean short =
    let len = length-append s (0 ∷ []) in
    let size = length-replicate {A = ℕ} 128 0 in
    let r = drop (length (s ++ 0 ∷ [])) zeros in
    (
      (s ++ 0 ∷ []) ++ r,
      write_at-fits [] zeros (s ++ 0 ∷ []) 0 refl (omega arith),
      ap until_nul (append_assoc s (0 ∷ []) r) ∙ until_nul_at s r clean,
    )

strncpy-zeros :
    (s rest : List ℕ)
    → NoNul s
    → length s < 128
    → (b : List ℕ) × (strncpy_at zeros 0 (s ++ rest) (length s) ≡ some b) × (until_nul b ≡ s)
unfolding strncpy_at
strncpy-zeros s rest clean short =
    let (r, er) = drop_zeros (length s) 128 short in
    let size = length-replicate {A = ℕ} 128 0 in
    let none_left : length s - length (s ++ rest) ≡ 0 = omega (arith, length-append s rest) in
    (
      s ++ drop (length s) zeros,
      rw (take-append s rest (length s) refl, none_left, append_nil s)
          (write_at-fits [] zeros s 0 refl (omega arith)),
      ap (λ z. until_nul (s ++ z)) er ∙ until_nul_at s r clean,
    )

abbrev slash : ℕ
slash = b'/'

-- A name of a directory and of a file in it, as `init` takes them.
pub record Path2 (dir base : List ℕ) : Type 0 where
  pub dir_clean : NoNul dir
  pub base_clean : NoNul base
  pub no_slash : find_last_char b'/' base ≡ none
  pub dir_room : length dir < 127
  pub base_room : length base < 128

store_names-Path2 :
    (dir base : List ℕ) (s : Log)
    → Path2 dir base
    → s.log_name ≡ zeros
    → s.dir_name ≡ zeros
    → (name d : List ℕ) × (store_names (dir ++ b'/' ∷ base) (some (length dir)) s
        ≡ some (record s { log_name = name; dir_name = d }))
      × (until_nul name ≡ base)
      × (until_nul d ≡ dir ++ b'/' ∷ [])
unfolding store_names
store_names-Path2 dir base s p en ed =
    let front = dir ++ slash ∷ [] in
    let whole : front ++ base ≡ dir ++ slash ∷ base = append_assoc dir (slash ∷ []) base in
    let len : length front ≡ length dir + 1 = length-append dir (slash ∷ []) in
    let behind : drop (length dir + 1) (dir ++ slash ∷ base) ≡ base =
      ap (drop (length dir + 1)) (sym whole) ∙ drop-append front base (length dir + 1) (sym len) in
    let (name, e1, u1) = strcpy-zeros base p.base_clean p.base_room in
    let clean = NoNul-append dir (slash ∷ []) p.dir_clean (omega arith, tt) in
    let (d, e2, u2) = strncpy-zeros front base clean (omega (arith, len, p.dir_room)) in
    let e2' = ap₂ (λ z k. strncpy_at zeros 0 z k) (sym whole) (sym len) ∙ e2 in
    (
      name,
      d,
      simp (behind, ap (λ z. strcpy_at z 0 base) en ∙ e1, store_names)
          (simp (ap (λ z. strncpy_at z 0 (dir ++ slash ∷ base) (length dir + 1)) ed ∙ e2') refl),
      u1,
      u2,
    )

-- The name that `init` opens for a file in a directory: the directory stands in it twice.
abbrev pub first_file : List ℕ → List ℕ → Time → List ℕ
first_file dir base t = take 254 ((dir ++ b'/' ∷ []) ++ (date_prefix t ++ (dir ++ b'/' ∷ base)))

-- The fields that `init` sets behind the names.
abbrev set_up : Time → List ℕ → ℤ → ℕ → ℕ → Log → Log
set_up t name close_log size split s = record s {
  close_log = close_log;
  log_buf_size = size;
  buf = replicate size 0;
  split_lines = split;
  today = t.mday;
  fp = some name;
}

init_at :
    (opens : List ℕ → Bool) (t : Time) (file_name : List ℕ) (close_log : ℤ) (size split : ℕ)
    (places : ℤ) (k : ℕ) (s s1 : Log)
    → AllOpen opens
    → find_last_char b'/' file_name ≡ some k
    → store_names file_name (some k) (start_queue places s) ≡ some s1
    → init opens t file_name close_log size split places s
      ≡ ok (false, set_up t (full_name s1.dir_name t file_name (some k)) close_log size split s1)
unfolding init
init_at opens t file_name close_log size split places k s s1 all ef es =
    simp (ef, es, all, init) refl

-- `init` of a file in a directory, with a queue, where `fopen` succeeds, returns false; the log is
-- then ready with an empty queue. The open file has the directory twice in its name, while the name
-- for any later day has it once.
pub init-Ready :
    (opens : List ℕ → Bool) (t u : Time) (dir base : List ℕ) (close_log : ℤ) (size split n : ℕ)
    → AllOpen opens
    → Path2 dir base
    → 0 < split
    → (s : Log) × (init opens t (dir ++ b'/' ∷ base) close_log size split (pos (suc n)) new_log
        ≡ ok (false, s))
      × Ready s size (suc n) []
      × (s.fp ≡ some (first_file dir base t))
      × (day_file s u ≡ take 254 ((dir ++ b'/' ∷ []) ++ (take 15 (date_prefix u) ++ base)))
unfolding start_queue full_name day_file
init-Ready opens t u dir base close_log size split n all p lt =
    let (q, eq, h, places) = create-Holds [] (suc n) (omega arith) in
    let s0 = start_queue (pos (suc n)) new_log in
    let (name, d, es, u1, u2) = store_names-Path2 dir base s0 p refl refl in
    let s1 : Log = record s0 { log_name = name; dir_name = d } in
    let s2 =
      set_up t (full_name d t (dir ++ slash ∷ base) (some (length dir))) close_log size split s1 in
    let file : s2.fp ≡ some (first_file dir base t) =
      ap (λ z. some (take 254 (z ++ (date_prefix t ++ (dir ++ slash ∷ base))))) u2 in
    (
      s2,
      init_at opens t (dir ++ slash ∷ base) close_log size split (pos (suc n)) (length dir) new_log
          s1 all (find_last-append slash dir base p.no_slash) es,
      record {
        open_file = (first_file dir base t, file);
        splits = lt;
        buffer = length-replicate size 0;
        sized = refl;
        queues = record { async = refl; queue = q; queue_at = eq; holds = h; places = places };
      },
      file,
      ap₂ (λ z w. take 254 (z ++ (take 15 (date_prefix u) ++ w))) u2 u1,
    )

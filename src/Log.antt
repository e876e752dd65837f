-- ===== src/Log.antt =====
-- ocean_http/log/log.cpp, log.h: the log with its files, which change by day and by number of lines,
-- and its queue, which a thread empties into the file.
-- `opens name` tells whether `fopen(name, "a")` succeeds. What `fputs` has written is `disk`: the
-- name of the file and the string, in the order of the calls. `text` is what the caller's format and
-- arguments come to. The object is static, so its memory is zero before the constructor.
pub mod Format
pub mod Rotate
pub mod Deliver
pub mod Thread
pub mod Writes
pub mod Drains
pub mod Calls
pub mod Order
pub mod Start
mod Tests
use cpp_server.Prelude.{
  ℕ, zero, suc, ◌+◌, ◌-◌, ◌/◌, ◌%◌, Bool, true, false, not, Option, none, some, List, [], ◌∷◌, ◌++◌,
  ℤ, pos, negsuc, ◌==◌, if◌then◌else◌, length, take, drop, replicate,
}
use cpp_server.CString.{
  codes, joined, until_nul, find_last_char, strcpy_at, strncpy_at, snprintf_at, write_at,
}
use cpp_server.CString.Decimal.{print_nat, print_padded}
use cpp_server.BlockQueue.{BlockQueue, create, is_full, push}
use cpp_server.Http.State.{Run, ok, undefined, ◌>>=◌, or_undefined}

-- What `localtime` makes of the clock, with the year and the month as they are printed, and the
-- microseconds.
pub record Time : Type 0 where
  pub year : ℕ
  pub mon : ℕ
  pub mday : ℕ
  pub hour : ℕ
  pub min : ℕ
  pub sec : ℕ
  pub usec : ℕ

-- `single_log` is the local variable of the thread that empties the queue: the string that it has
-- taken and not yet written.
pub record Log : Type 0 where
  pub dir_name : List ℕ
  pub log_name : List ℕ
  pub split_lines : ℕ
  pub log_buf_size : ℕ
  pub count : ℕ
  pub today : ℕ
  pub fp : Option (List ℕ)
  pub buf : List ℕ
  pub log_queue : Option (BlockQueue (List ℕ))
  pub is_async : Bool
  pub close_log : ℤ
  pub single_log : Option (List ℕ)
  pub disk : List (List ℕ × List ℕ)

-- The constructor, on zeroed memory.
abbrev pub new_log : Log
new_log = record {
  dir_name = replicate 128 0;
  log_name = replicate 128 0;
  split_lines = 0;
  log_buf_size = 0;
  count = 0;
  today = 0;
  fp = none;
  buf = [];
  log_queue = none;
  is_async = false;
  close_log = pos 0;
  single_log = none;
  disk = [];
}

abbrev pub fopen : (List ℕ → Bool) → List ℕ → Option (List ℕ)
fopen opens name = if opens name then some name else none

-- "%d_%02d_%02d_"
unfoldable pub date_prefix : Time → List ℕ
date_prefix t = joined (
    print_nat t.year
    ∷ codes "_"
    ∷ print_padded 2 t.mon
    ∷ codes "_"
    ∷ print_padded 2 t.mday
    ∷ codes "_"
    ∷ [])

-- `log_full_name` of `init`; `k` is the place of the last '/'.
unfoldable pub full_name : List ℕ → Time → List ℕ → Option ℕ → List ℕ
full_name dir_name t file_name none = take 254 (date_prefix t ++ file_name)
full_name dir_name t file_name (some k) =
    take 254 (until_nul dir_name ++ (date_prefix t ++ file_name))

-- The two copies of `init`; without a '/' there are none.
unfoldable pub store_names : List ℕ → Option ℕ → Log → Option Log
store_names file_name none s = some s
store_names file_name (some k) s = elim (strcpy_at s.log_name 0 (drop (k + 1) file_name)) [
  | none ↦ none
  | some name ↦ elim (strncpy_at s.dir_name 0 file_name (k + 1)) [
    | none ↦ none
    | some dir ↦ some (record s { log_name = name; dir_name = dir })
  ]
]

-- The first lines of `init`. `new` of the queue cannot fail here, as its size is positive.
unfoldable pub start_queue : ℤ → Log → Log
start_queue (negsuc k) s = s
start_queue (pos zero) s = s
start_queue (pos (suc n)) s = record s { is_async = true; log_queue = create [] (pos (suc n)) }

-- The result is what the code returns: false where the file is open.
unfoldable pub init : (List ℕ → Bool) → Time → List ℕ → ℤ → ℕ → ℕ → ℤ → Log → Run (Bool × Log)
init opens t file_name close_log log_buf_size split_lines max_queue_size s =
    let slash = find_last_char b'/' file_name in
    elim (store_names file_name slash (start_queue max_queue_size s)) [
      | none ↦ undefined
      | some s1 ↦
          let name = full_name s1.dir_name t file_name slash in
          ok (
            not (opens name),
            record s1 {
              close_log = close_log;
              log_buf_size = log_buf_size;
              buf = replicate log_buf_size 0;
              split_lines = split_lines;
              today = t.mday;
              fp = fopen opens name;
            },
          )
    ]

abbrev pub info : List ℕ
info = codes "[info]:"

unfoldable pub level_name : ℤ → List ℕ
level_name (negsuc k) = info
level_name (pos zero) = codes "[debug]:"
level_name (pos (suc zero)) = info
level_name (pos (suc (suc zero))) = codes "[warn]:"
level_name (pos (suc (suc (suc zero)))) = codes "[error]:"
level_name (pos (suc (suc (suc (suc n))))) = info

-- The names of the file of a day, and of the one behind `k` times `split_lines` lines.
unfoldable pub day_file : Log → Time → List ℕ
day_file s t = take 254 (until_nul s.dir_name ++ (take 15 (date_prefix t) ++ until_nul s.log_name))

unfoldable pub split_file : Log → Time → ℕ → List ℕ
split_file s t k = take 254 (
    until_nul s.dir_name
    ++ (take 15 (date_prefix t) ++ (until_nul s.log_name ++ (b'.' ∷ print_nat k))))

-- `fclose` and `fopen`; `fclose(NULL)` is undefined.
unfoldable pub reopen : (List ℕ → Bool) → List ℕ → Log → Run Log
reopen opens name s = elim s.fp [
  | none ↦ undefined
  | some old ↦ ok (record s { fp = fopen opens name })
]

-- `m_count % m_split_lines == 0`, of the count that has just gone up; `% 0` is undefined.
unfoldable pub split_log : (List ℕ → Bool) → Time → Log → Run Log
split_log opens t s =
    if s.split_lines == 0
    then undefined
    else if (s.count % s.split_lines) == 0
    then reopen opens (split_file s t (s.count / s.split_lines)) s
    else ok s

-- The first locked part of `write_log`.
unfoldable pub rotate : (List ℕ → Bool) → Time → Log → Run Log
rotate opens t s =
    let s1 : Log = record s { count = s.count + 1 } in
    elim (s.today == t.mday) [
      | true ↦ split_log opens t s1
      | false ↦ reopen opens (day_file s1 t) (record s1 { today = t.mday; count = 0 })
    ]

-- "%d-%02d-%02d %02d:%02d:%02d.%06ld %s "
abbrev pub line_parts : Time → ℤ → List (List ℕ)
line_parts t level =
    print_nat t.year
    ∷ codes "-"
    ∷ print_padded 2 t.mon
    ∷ codes "-"
    ∷ print_padded 2 t.mday
    ∷ codes " "
    ∷ print_padded 2 t.hour
    ∷ codes ":"
    ∷ print_padded 2 t.min
    ∷ codes ":"
    ∷ print_padded 2 t.sec
    ∷ codes "."
    ∷ print_padded 6 t.usec
    ∷ codes " "
    ∷ level_name level
    ∷ codes " "
    ∷ []

unfoldable pub line_head : Time → ℤ → List ℕ
line_head t level = joined (line_parts t level)

-- The second locked part of `write_log` on the buffer: the two `snprintf`s, the line feed and the
-- NUL. The lengths are those of the whole texts, as the calls return them.
unfoldable pub finish_line : List ℕ → ℕ → List ℕ → List ℕ → Option (List ℕ)
finish_line b size head text = elim (snprintf_at b (length head) (size - length head - 1) text) [
  | none ↦ none
  | some b2 ↦ write_at b2 (length head + length text) (10 ∷ 0 ∷ [])
]

unfoldable pub fill_buffer : List ℕ → ℕ → List ℕ → List ℕ → Option (List ℕ)
fill_buffer buf size head text = elim (snprintf_at buf 0 48 head) [
  | none ↦ none
  | some b1 ↦ finish_line b1 size head text
]

abbrev pub formatted : Log → Option (List ℕ) → Run (List ℕ × Log)
formatted s none = undefined
formatted s (some b) = ok (until_nul b, record s { buf = b })

unfoldable pub format_line : Time → ℤ → List ℕ → Log → Run (List ℕ × Log)
format_line t level text s = formatted s (fill_buffer s.buf s.log_buf_size (line_head t level) text)

-- `fputs(line, m_fp)`
unfoldable pub fputs : List ℕ → Log → Run Log
fputs line s = elim s.fp [
  | none ↦ undefined
  | some name ↦ ok (record s { disk = s.disk ++ (name, line) ∷ [] })
]

-- `push`, whose result the code throws away.
unfoldable pub push_line : List ℕ → Log → Run Log
push_line line s = elim s.log_queue [
  | none ↦ undefined
  | some q ↦ elim (push q line) [
    | none ↦ undefined
    | some (done, q') ↦ ok (record s { log_queue = some q' })
  ]
]

-- The end of `write_log`. `between` is what other threads do between `full()` and `push`, which are
-- two separate steps.
unfoldable pub deliver : (Log → Run Log) → List ℕ → Log → Run Log
deliver between line s = elim s.is_async [
  | false ↦ fputs line s
  | true ↦ elim s.log_queue [
    | none ↦ undefined
    | some q ↦ elim (is_full q) [ true ↦ fputs line s | false ↦ between s >>= push_line line ]
  ]
]

unfoldable pub write_log : (List ℕ → Bool) → (Log → Run Log) → Time → ℤ → List ℕ → Log → Run Log
write_log opens between t level text s =
    rotate opens t s >>= format_line t level text >>= λ p. deliver between p.0 p.1

-- ===== src/BlockQueue.antt =====
-- ocean_http/log/block_queue.h: the bounded queue in a circular array behind the asynchronous log.
-- Every method holds `m_mutex` from its first line to its return, so each is one step of the model;
-- only `cond.wait` lets other threads in, and what they did is an argument of `pop`.
-- `new T[n]` gives n default values; `none` of `create` is `exit(-1)`.
pub mod Inv
pub mod Refine
pub mod Front
pub mod Wait
mod Tests
use cpp_server.Prelude.{
  ℕ, zero, suc, ◌+◌, ◌-◌, ◌*◌, ◌/◌, ◌%◌, Bool, true, false, Option, none, some, List, [], ◌∷◌, ℤ,
  pos, negsuc, leb, ◌==◌, if◌then◌else◌, replicate, get_elem?, set,
}

pub record BlockQueue {ℓ} (A : Type ℓ) : Type ℓ where
  pub array : List A
  pub size : ℕ
  pub max_size : ℕ
  pub front : ℤ
  pub back : ℤ

-- `(i + 1) % n` of C, which rounds to 0 at a negative `i + 1`.
abbrev pub next_index : ℤ → ℕ → ℤ
next_index (pos i) n = pos ((i + 1) % n)
next_index (negsuc zero) n = pos (0 % n)
next_index (negsuc (suc k)) n = if (suc k % n) == 0 then pos 0 else negsuc (suc k % n - 1)

-- What a method that hands out an element comes to; `fault` is an access outside the array.
pub data Got {ℓ} (A : Type ℓ) : Type ℓ where
  got : A → BlockQueue A → Got A
  refused : BlockQueue A → Got A
  blocked : BlockQueue A → Got A
  fault : Got A

module _ {ℓ} {A : Type ℓ} where
  -- `m_array[i]`; an index outside the array reads nothing.
  abbrev pub read : List A → ℤ → Option A
  read xs (pos i) = get_elem? xs i
  read xs (negsuc k) = none

  -- `m_array[i] = v`; nothing comes of a write outside the array.
  abbrev pub write : List A → ℤ → A → Option (List A)
  write xs (pos i) v = elim (get_elem? xs i) [ none ↦ none | some _ ↦ some (set xs i v) ]
  write xs (negsuc k) v = none

  unfoldable pub create : A → ℤ → Option (BlockQueue A)
  create dflt (negsuc k) = none
  create dflt (pos n) =
      if n == 0
      then none
      else some (record {
        array = replicate n dflt;
        size = 0;
        max_size = n;
        front = negsuc 0;
        back = negsuc 0;
      })

  unfoldable pub clear : BlockQueue A → BlockQueue A
  clear q = record q { size = 0; front = negsuc 0; back = negsuc 0 }

  unfoldable pub is_full : BlockQueue A → Bool
  is_full q = leb q.max_size q.size

  unfoldable pub is_empty : BlockQueue A → Bool
  is_empty q = 0 == q.size

  abbrev or_fault : Option A → BlockQueue A → Got A
  or_fault none q = fault
  or_fault (some a) q = got a q

  unfoldable pub peek_front : BlockQueue A → Got A
  peek_front q = if 0 == q.size then refused q else or_fault (read q.array q.front) q

  unfoldable pub peek_back : BlockQueue A → Got A
  peek_back q = if 0 == q.size then refused q else or_fault (read q.array q.back) q

  abbrev stored : BlockQueue A → ℤ → Option (List A) → Option (Bool × BlockQueue A)
  stored q i none = none
  stored q i (some xs) = some (true, record q { array = xs; size = q.size + 1; back = i })

  -- `none` is a write outside the array.
  unfoldable pub push : BlockQueue A → A → Option (Bool × BlockQueue A)
  push q item =
      if leb q.max_size q.size
      then some (false, q)
      else stored q (next_index q.back q.max_size)
          (write q.array (next_index q.back q.max_size) item)

  -- The last lines of both `pop`s, where the queue is not empty.
  unfoldable pub take_next : BlockQueue A → Got A
  take_next q =
      or_fault (read q.array (next_index q.front q.max_size))
        (record q { front = next_index q.front q.max_size; size = q.size - 1 })

-- What other threads do while this one waits.
pub data Op {ℓ} (A : Type ℓ) : Type ℓ where
  pushes : A → Op A
  takes : Op A
  clears : Op A

-- One call of `cond.wait` or `cond.timewait`: it fails, or it returns once the others have run.
pub data Wake {ℓ} (A : Type ℓ) : Type ℓ where
  fails : Wake A
  wakes : List (Op A) → Wake A

module _ {ℓ} {A : Type ℓ} where
  abbrev pushed : Option (Bool × BlockQueue A) → Option (BlockQueue A)
  pushed none = none
  pushed (some (done, q)) = some q

  abbrev taken : Got A → Option (BlockQueue A)
  taken (got a q) = some q
  taken (refused q) = some q
  taken (blocked q) = some q
  taken fault = none

  -- A `pop` of another thread takes an element only where there is one.
  unfoldable pub step : BlockQueue A → Op A → Option (BlockQueue A)
  step q (pushes a) = pushed (push q a)
  step q takes = if q.size == 0 then some q else taken (take_next q)
  step q clears = some (clear q)

  unfoldable pub run : BlockQueue A → List (Op A) → Option (BlockQueue A)
  run q [] = some q
  run q (o ∷ os) = elim (step q o) [ none ↦ none | some q' ↦ run q' os ]

  -- `pop(item)`. Where the list of wake-ups ends the thread is still waiting.
  unfoldable pub pop : List (Wake A) → BlockQueue A → Got A
  pop [] q = if q.size == 0 then blocked q else take_next q
  pop (fails ∷ ws) q = if q.size == 0 then refused q else take_next q
  pop (wakes os ∷ ws) q = elim (q.size == 0) [
    | false ↦ take_next q
    | true ↦ elim (run q os) [ none ↦ fault | some q' ↦ pop ws q' ]
  ]

  abbrev take_or_refuse : BlockQueue A → Got A
  take_or_refuse q = if q.size == 0 then refused q else take_next q

  -- `pop(item, ms_timeout)`: one wait, and a second test of the size.
  unfoldable pub pop_timed : Wake A → BlockQueue A → Got A
  pop_timed fails q = if q.size == 0 then refused q else take_next q
  pop_timed (wakes os) q = elim (q.size == 0) [
    | false ↦ take_next q
    | true ↦ elim (run q os) [ none ↦ fault | some q' ↦ take_or_refuse q' ]
  ]

pub record Timespec : Type 0 where
  pub tv_sec : ℕ
  pub tv_nsec : ℕ

-- The absolute time that the timed `pop` waits for; `sec` is the clock's whole seconds.
unfoldable pub deadline : ℕ → ℕ → Timespec
deadline sec ms_timeout = record {
  tv_sec = sec + ms_timeout / 1000;
  tv_nsec = (ms_timeout % 100) * 1000;
}

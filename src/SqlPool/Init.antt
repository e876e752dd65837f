-- ===== src/SqlPool/Init.antt =====
-- What `init` makes of the connections that it opens.
use mathlib.Core.List.{append_assoc}
use cpp_server.Prelude.{
  ℕ, zero, suc, ◌+◌, ◌≡◌, refl, sym, ap, ◌∙◌, Option, some, List, [], ◌∷◌, ◌++◌, pos, ◌+ℤ◌, arith,
  length, length-append, append_nil, replicate,
}
use cpp_server.SqlPool.{SqlPool, new_pool, Phase, idle, init, open_connections}
use cpp_server.SqlPool.Inv.{IsValid, total, owed, held, one_more}

-- The connections of the rounds from `i` on.
abbrev pub names : (ℕ → ℕ) → ℕ → ℕ → List ℕ
names name i zero = []
names name i (suc n) = name i ∷ names name (i + 1) n

record Opened (p : SqlPool) (ns : List ℕ) (q : SqlPool) : Type 0 where
  listed : q.conn_list ≡ p.conn_list ++ ns
  counted : q.free_conn ≡ pos (length q.conn_list)
  unused : q.cur_conn ≡ p.cur_conn

open_connections-Opened :
    (connect : ℕ → Option ℕ) (name : ℕ → ℕ) (i n : ℕ) (p : SqlPool)
    → ((j : ℕ) → connect j ≡ some (name j))
    → p.free_conn ≡ pos (length p.conn_list)
    → (q : SqlPool) × (open_connections connect i n p ≡ some q) × Opened p (names name i n) q
unfolding open_connections
open_connections-Opened connect name i zero p opens e =
    (p, refl, record { listed = sym (append_nil p.conn_list); counted = e; unused = refl })
open_connections-Opened connect name i (suc n) p opens e =
    let p1 : SqlPool = record p {
      conn_list = p.conn_list ++ name i ∷ [];
      free_conn = p.free_conn +ℤ pos 1;
    } in
    let e1 : p.free_conn +ℤ pos 1 ≡ pos (length (p.conn_list ++ name i ∷ [])) = rw e (
      one_more (length p.conn_list)
      ∙ ap pos (omega (arith, length-append p.conn_list (name i ∷ [])))) in
    let (q, run, o) = open_connections-Opened connect name (i + 1) n p1 opens e1 in
    (
      q,
      rw (opens i, open_connections) run,
      record {
        listed = o.listed ∙ append_assoc p.conn_list (name i ∷ []) (names name (i + 1) n);
        counted = o.counted;
        unused = o.unused;
      },
    )

total-idle : (w : Phase → ℕ) (k : ℕ) → w idle ≡ 0 → total w (replicate k idle) ≡ 0
total-idle w zero e = refl
total-idle w (suc k) e = omega (arith, total-idle w k e)

-- `init` fills a new pool with the connections that it opens, and the counters and the semaphore
-- are then those of the list and of any number of threads that have not started.
pub init-IsValid :
    (connect : ℕ → Option ℕ) (name : ℕ → ℕ) (n k : ℕ)
    → ((j : ℕ) → connect j ≡ some (name j))
    → (p : SqlPool) × (init connect n new_pool ≡ some p)
      × (p.conn_list ≡ names name 0 n)
      × IsValid (record { pool = p; threads = replicate k idle })
unfolding init
init-IsValid connect name n k opens =
    let (q, run, o) = open_connections-Opened connect name 0 n new_pool opens refl in
    (
      record q { reserve = length q.conn_list; max_conn = q.free_conn },
      rw run (rw o.counted refl),
      o.listed,
      record {
        listed = omega (arith, total-idle owed k refl);
        counted_free = o.counted;
        counted_used = o.unused ∙ ap pos (sym (total-idle held k refl));
      },
    )

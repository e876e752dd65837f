-- ===== src/BlockQueue/Refine.antt =====
-- A valid block_queue against a bounded first-in first-out list.
use native.Mathlib.Nat.{mod-add-mod, mod-eq_of_lt, mod-lt, add-zero}
use mathlib.Core.Path.{subst}
use cpp_server.Prelude.{
  ℕ, suc, ◌+◌, ◌-◌, ◌%◌, ◌≤◌, ◌<◌, ◌≡◌, refl, sym, ap, ◌∙◌, true, false, some, List, [], ◌∷◌, ◌++◌,
  pos, arith, leb, length, length-append, get_elem?, set, get_elem?-set_self, get_elem?-set_ne,
  mod_ne_of_lt, get_elem?_in, length-set, length-replicate, replicate, negsuc, ne→==, ◌==◌,
}
use cpp_server.BlockQueue.{
  BlockQueue, clear, push, take_next, write, got, create, is_full, is_empty,
}
use cpp_server.BlockQueue.Inv.{IsValid, slot, next_index-slot}

module _ {ℓ} {A : Type ℓ} where
  -- From index `s` on, going round at `n`, the array holds the elements `vs`.
  abbrev pub Window : List A → ℕ → ℕ → List A → Type ℓ
  Window xs n s [] = Unit
  Window xs n s (v ∷ vs) = (get_elem? xs s ≡ some v) × Window xs n ((s + 1) % n) vs

  -- `q` stands for the queue `vs`, oldest first.
  pub record Holds (q : BlockQueue A) (vs : List A) : Type ℓ where
    pub valid : IsValid q
    pub counted : q.size ≡ length vs
    pub window : Window q.array q.max_size (slot q.front % q.max_size) vs

  pub Window-set :
      (xs : List A) (n s i : ℕ) (v : A) (vs : List A)
      → Window xs n s vs
      → s < n
      → length vs < n
      → n ≤ length xs
      → i ≡ (s + length vs) % n
      → Window (set xs i v) n s (vs ++ v ∷ [])
  Window-set xs n s i v [] w hs hl hn e = (rw (e', get_elem?-set_self xs s v (omega arith)), tt)
    where
      e' : i ≡ s
      e' = e ∙ rw add-zero (mod-eq_of_lt hs)
  Window-set xs n s i v (u ∷ us) w hs hl hn e = (
    rw (get_elem?-set_ne xs i s v (rw e (mod_ne_of_lt n s (length us) hs hl))) w.0,
    Window-set xs n ((s + 1) % n) i v us w.1 (mod-lt (s + 1) (omega arith)) (omega arith) hn
        (e ∙ shift),
  )
    where
      shift : (s + suc (length us)) % n ≡ ((s + 1) % n + length us) % n
      shift = rw mod-add-mod (ap (λ k. k % n) (omega arith))

  -- Where `push` writes.
  abbrev tail_index : BlockQueue A → ℕ
  tail_index q = slot q.back % q.max_size

  module _ {q : BlockQueue A} {vs : List A} (h : Holds q vs) where
    tail_in : tail_index q < length q.array
    tail_in = let v = h.valid in omega (arith, mod-lt (slot q.back) v.room, v.storage)

    write-tail :
        (a : A) → write q.array (pos (tail_index q)) a ≡ some (set q.array (tail_index q) a)
    write-tail a = let (x, e) = get_elem?_in q.array (tail_index q) tail_in in rw (e, write)

    -- A `push` with room appends the item and says so.
    pub push-room :
        (a : A)
        → length vs < q.max_size
        → (q' : BlockQueue A) × (push q a ≡ some (true, q'))
          × Holds q' (vs ++ a ∷ [])
          × (q'.max_size ≡ q.max_size)
    unfolding push
    push-room a lt = (
      record q {
        array = set q.array (tail_index q) a;
        size = q.size + 1;
        back = pos (tail_index q);
      },
      rw (full, next_index-slot q.back q.max_size h.valid.back_in, write-tail a) refl,
      record {
        valid = record {
          room = v.room;
          storage = rw (length-set q.array (tail_index q) a) v.storage;
          size_in = omega (arith, h.counted);
          front_in = v.front_in;
          back_in = mod-lt (slot q.back) v.room;
          used = λ _. omega arith;
          linked = relinked;
        };
        counted = omega (arith, h.counted, length-append vs (a ∷ []));
        window =
            Window-set q.array q.max_size (slot q.front % q.max_size) (tail_index q) a vs h.window
              (mod-lt (slot q.front) v.room) lt v.storage tail_at;
      },
      refl,
    )
      where
        full : leb q.max_size q.size ≡ false
        full = ground (arith, h.counted)

        v : IsValid q
        v = h.valid

        relinked : (tail_index q + 1) % q.max_size ≡ (slot q.front + (q.size + 1)) % q.max_size
        relinked =
            rw (v.linked, mod-add-mod (slot q.front + q.size) q.max_size 1)
              (ap (λ k. k % q.max_size) (omega arith))

        tail_at : tail_index q ≡ (slot q.front % q.max_size + length vs) % q.max_size
        tail_at = v.linked ∙ rw (mod-add-mod, h.counted)

    -- A `push` without room changes nothing and says so.
    pub push-full : (a : A) → q.max_size ≤ length vs → push q a ≡ some (false, q)
    unfolding push
    push-full a le = ground (arith, h.counted)

    -- `pop`'s last lines hand out the oldest element, and leave the others.
    pub take_next-oldest :
        (a : A) (us : List A)
        → vs ≡ a ∷ us
        → (q' : BlockQueue A) × (take_next q ≡ got a q') × Holds q' us × (q'.max_size ≡ q.max_size)
    unfolding take_next
    take_next-oldest a us e = (
      record q { front = pos (slot q.front % q.max_size); size = q.size - 1 },
      rw (next_index-slot q.front q.max_size h.valid.front_in, w.0) refl,
      record {
        valid = record {
          room = v.room;
          storage = v.storage;
          size_in = omega (arith, v.size_in);
          front_in = mod-lt (slot q.front) v.room;
          back_in = v.back_in;
          used = λ lt. v.used (omega arith);
          linked = relinked;
        };
        counted = omega (arith, h.counted, ap length e);
        window = w.1;
      },
      refl,
    )
      where
        v : IsValid q
        v = h.valid

        w : Window q.array q.max_size (slot q.front % q.max_size) (a ∷ us)
        w = subst (Window q.array q.max_size (slot q.front % q.max_size)) e h.window

        relinked :
            slot q.back % q.max_size ≡ (slot q.front % q.max_size + 1 + (q.size - 1)) % q.max_size
        relinked =
            v.linked
            ∙ sym (
                ap (λ k. k % q.max_size) (omega (arith, h.counted, ap length e))
                ∙ mod-add-mod (slot q.front) q.max_size q.size)

    pub clear-max_size : (clear q).max_size ≡ q.max_size
    unfolding clear
    clear-max_size = refl

    pub clear-Holds : Holds (clear q) []
    unfolding clear
    clear-Holds = record {
      valid = record {
        room = v.room;
        storage = v.storage;
        size_in = omega arith;
        front_in = tt;
        back_in = tt;
        used = λ lt. absurd (omega arith);
        linked = refl;
      };
      counted = refl;
      window = tt;
    }
      where
        v : IsValid q
        v = h.valid

  -- A fresh queue is valid and empty, for every size that the constructor accepts.
  pub create-Holds :
      (dflt : A) (n : ℕ)
      → 0 < n
      → (q : BlockQueue A) × (create dflt (pos n) ≡ some q) × Holds q [] × (q.max_size ≡ n)
  unfolding create
  create-Holds dflt n h = (
    record { array = replicate n dflt; size = 0; max_size = n; front = negsuc 0; back = negsuc 0 },
    rw (ne→== n 0 (omega arith)),
    record {
      valid = record {
        room = h;
        storage = omega (arith, length-replicate n dflt);
        size_in = omega arith;
        front_in = tt;
        back_in = tt;
        used = λ lt. absurd (omega arith);
        linked = refl;
      };
      counted = refl;
      window = tt;
    },
    refl,
  )

  -- `full()` and `empty()` tell the same of the queue and of the list.
  pub is_full-is_empty :
      {q : BlockQueue A} {vs : List A}
      → Holds q vs
      → (is_full q ≡ leb q.max_size (length vs)) × (is_empty q ≡ (0 == length vs))
  unfolding is_full is_empty
  is_full-is_empty h = (rw h.counted, rw h.counted)

-- ===== src/BlockQueue/Front.antt =====
-- `front()` and `back()` of block_queue. `m_front` is the index before the oldest element, and
-- `front()` reads it as if it were the index of that element.
use native.Mathlib.Nat.{mod-eq_of_lt, mod_self, mod-add-mod, mod-lt, add-zero, add_assoc}
use native.Mathlib.Decide.{dec_lt}
use mathlib.Core.Path.{subst}
use cpp_server.Prelude.{
  ℕ, suc, ◌+◌, ◌%◌, ◌<◌, ◌≡◌, refl, ap, ◌∙◌, false, some, List, [], ◌∷◌, ◌++◌, ℤ, pos, negsuc,
  arith, ◌==◌, length, length-append, get_elem?, ne→==,
}
use cpp_server.BlockQueue.{BlockQueue, got, fault, peek_front, peek_back, take_next, read}
use cpp_server.BlockQueue.Inv.{IsValid, slot, InArray}
use cpp_server.BlockQueue.Refine.{Holds, Window}

-- Steps round the array are told apart.
suc-mod-injective : (n b c : ℕ) → b < n → c < n → (b + 1) % n ≡ (c + 1) % n → b ≡ c
suc-mod-injective n b c hb hc e = elim (dec_lt (b + 1) n) [
  | yes p ↦ elim (dec_lt (c + 1) n) [
    | yes q ↦ omega (arith, mod-eq_of_lt p, mod-eq_of_lt q)
    | no q ↦ omega (arith, mod-eq_of_lt p, wraps c hc q)
  ]
  | no p ↦ elim (dec_lt (c + 1) n) [
    | yes q ↦ omega (arith, wraps b hb p, mod-eq_of_lt q)
    | no q ↦ omega arith
  ]
]
  where
    wraps : (k : ℕ) → k < n → ¬ (k + 1 < n) → (k + 1) % n ≡ 0
    wraps k hk ge = let e : k + 1 ≡ n = omega arith in rw e (mod_self n)

module _ {ℓ} {A : Type ℓ} where
  -- `back()` reads the newest element.
  Window-last :
      (xs : List A) (n s : ℕ) (vs : List A) (a : A)
      → Window xs n s (vs ++ a ∷ [])
      → s < n
      → get_elem? xs ((s + length vs) % n) ≡ some a
  Window-last xs n s [] a w hs = rw (add-zero, mod-eq_of_lt hs) w.0
  Window-last xs n s (u ∷ us) a w hs =
      rw shift (Window-last xs n ((s + 1) % n) us a w.1 (mod-lt (s + 1) (omega arith)))
    where
      shift : (s + suc (length us)) % n ≡ ((s + 1) % n + length us) % n
      shift = rw mod-add-mod (ap (λ k. k % n) (omega arith))

  back_at :
      (q : BlockQueue A) (b : ℤ) (vs : List A) (a : A)
      → q.back ≡ b
      → Holds q (vs ++ a ∷ [])
      → read q.array b ≡ some a
  back_at q (negsuc k) vs a e h =
      absurd (
        omega
          (arith, h.valid.used (omega (arith, h.counted, length-append vs (a ∷ []))), ap slot e))
  back_at q (pos i) vs a e h =
      rw (suc-mod-injective n i x inside (mod-lt (f % n + length vs) v.room) same)
        (Window-last q.array n (f % n) vs a h.window (mod-lt f v.room))
    where
      v : IsValid q
      v = h.valid

      n : ℕ
      n = q.max_size

      f : ℕ
      f = slot q.front

      x : ℕ
      x = (f % n + length vs) % n

      inside : i < n
      inside = subst (λ b. InArray b n) e v.back_in

      same : (i + 1) % n ≡ (x + 1) % n
      same =
          subst (λ b. slot b % n ≡ (f + q.size) % n) e v.linked
          ∙ rw (mod-add-mod, add_assoc, mod-add-mod)
              (ap (λ k. (f + k) % n) (omega (arith, h.counted, length-append vs (a ∷ []))))

  -- On a queue that is not empty `back()` returns the newest element.
  pub peek_back-newest :
      {q : BlockQueue A} (vs : List A) (a : A) → Holds q (vs ++ a ∷ []) → peek_back q ≡ got a q
  unfolding peek_back
  peek_back-newest {q} vs a h =
      let more : (0 == q.size) ≡ false = ground (arith, h.counted, length-append vs (a ∷ [])) in
      rw (more, back_at q q.back vs a refl h)

  -- `front()` never returns the oldest element by its place: before the first `pop` it reads
  -- index -1, and after a `pop` it returns, once more, the element that this `pop` took away.
  pub peek_front-stale :
      (q : BlockQueue A)
      → 0 < q.size
      → (q.front ≡ negsuc 0 → peek_front q ≡ fault)
        × ((p : BlockQueue A) (a : A) → take_next p ≡ got a q → peek_front q ≡ got a q)
  unfolding peek_front take_next
  peek_front-stale q h = (λ e. rw (ne→== 0 q.size (omega arith), e), λ p a e. ground arith)

-- ===== src/Dbproxy/Keys.antt =====
-- The keys of redis: one word for each user, and one word for all users of GetSessions.
use cpp_server.Prelude.{
  ℕ, zero, suc, ◌+◌, ◌/◌, ◌<◌, ◌≡◌, refl, none, List, [], ◌∷◌, ◌++◌, ℤ, pos, negsuc, arith, length,
  ltb, append_nil, ap, Bool-cases, inl, inr, ne→==,
}
use cpp_server.CString.{codes}
use cpp_server.CString.Decimal.{digits_onto, print_nat, print_int}
use cpp_server.Dbproxy.{whole, Item, array, replied, Backend, returns, aborts, session_key}
use cpp_server.Dbproxy.Select.{keys_of, session_of, sessions_of, get_sessions}

-- A word of a command: it is not empty and has no blank.
abbrev pub NoBlank : List ℕ → Type 0
NoBlank [] = Unit
NoBlank (c ∷ cs) = (b' ' < c) × NoBlank cs

NoBlank-append : (s t : List ℕ) → NoBlank s → NoBlank t → NoBlank (s ++ t)
NoBlank-append [] t a b = b
NoBlank-append (c ∷ s) t a b = (a.0, NoBlank-append s t a.1 b)

digits_onto-NoBlank : (f n : ℕ) (rest : List ℕ) → NoBlank rest → NoBlank (digits_onto f n rest)
unfolding digits_onto
digits_onto-NoBlank zero n rest a = a
digits_onto-NoBlank (suc f) n rest a = elim (Bool-cases (ltb n 10)) [
  | inl one ↦ rw (one, digits_onto) (omega arith, a)
  | inr more ↦ rw (more, digits_onto) (digits_onto-NoBlank f (n / 10) _ (omega arith, a))
]

print_int-NoBlank : (n : ℤ) → NoBlank (print_int n)
unfolding print_int print_nat
print_int-NoBlank (pos n) = digits_onto-NoBlank (n + 1) n [] tt
print_int-NoBlank (negsuc n) = (omega arith, digits_onto-NoBlank (n + 1 + 1) (n + 1) [] tt)

session_key-NoBlank : (u : ℤ) → NoBlank (session_key u)
session_key-NoBlank u =
    (omega arith, NoBlank-append (print_int u) _ (print_int-NoBlank u) (ground arith))

keys_of-NoBlank : (us : List ℤ) → NoBlank (keys_of us)
unfolding keys_of
keys_of-NoBlank [] = tt
keys_of-NoBlank (u ∷ us) =
    NoBlank-append (session_key u) (keys_of us) (session_key-NoBlank u) (keys_of-NoBlank us)

-- What redis and brpc promise: a text is taken apart at its blanks, and MGET of one key answers with
-- an array of one item, that of the key.
abbrev pub MgetAnswers : {W : Type 0} → Backend W → (List ℕ → W → Item) → Type 0
MgetAnswers {W} b item =
    (key : List ℕ) (w : W)
    → NoBlank key
    → 0 < length key
    → (w1 : W) × (b.call_redis (whole (codes "MGET " ++ key)) w
        ≡ (replied (array (item key w ∷ [])), w1))

-- Where redis answers MGET of a key with the item of this key, GetSessions of one user answers with
-- the item of the key that is the user's number between "{" and "}a"; of two users or more it aborts
-- the process, as the keys have no blank between them and redis is asked for one key.
pub get_sessions_many :
    {W : Type 0} (b : Backend W) (item : List ℕ → W → Item) (u v : ℤ) (us : List ℤ) (w : W)
    → MgetAnswers b item
    → ((w1 : W) × (get_sessions b (u ∷ []) w
          ≡ returns none
              (session_of u (item (codes "{" ++ (print_int u ++ codes "}a")) w) ∷ [])
              w1))
      × (get_sessions b (u ∷ v ∷ us) w ≡ aborts)
unfolding get_sessions sessions_of keys_of
get_sessions_many b item u v us w law =
    let (w1, e) = law (keys_of (u ∷ [])) w (keys_of-NoBlank (u ∷ [])) (omega arith) in
    let (w2, e2) = law (keys_of (u ∷ v ∷ us)) w (keys_of-NoBlank (u ∷ v ∷ us)) (omega arith) in
    let key : keys_of (u ∷ []) ≡ codes "{" ++ (print_int u ++ codes "}a") =
      append_nil (session_key u) in
    (
      (w1, rw e (ap (λ k. returns none (session_of u (item k w) ∷ []) w1) key)),
      rw e2 (rw (ne→== 1 (suc (suc (length us))) (omega arith)) refl),
    )

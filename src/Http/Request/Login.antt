-- ===== src/Http/Request/Login.antt =====
-- Registration and login, against the map of users.
use cpp_server.Prelude.{
  ℕ, ◌+◌, ◌<◌, ◌≡◌, refl, sym, ap, ◌∙◌, ap₂, ◌≢◌, inl, inr, true, false, none, some, List, [], ◌∷◌,
  ◌++◌, arith, ltb, ◌==◌, ==_refl, ==→eq, if◌then◌else◌, length, length-append, Bool-cases, lt→ltb,
}
use cpp_server.CString.{codes, bytes_eq}
use cpp_server.Http.State.{ok}
use cpp_server.Http.Request.{
  World, Users, find_user, insert_user, insert_statement, add_user, register, login, set_user,
  load_users,
}

bytes_eq_refl : (s : List ℕ) → bytes_eq s s ≡ true
unfolding bytes_eq
bytes_eq_refl [] = refl
bytes_eq_refl (c ∷ s) = rw (==_refl c) (bytes_eq_refl s)

bytes_eq→eq : (s t : List ℕ) → bytes_eq s t ≡ true → s ≡ t
unfolding bytes_eq
bytes_eq→eq [] [] e = refl
bytes_eq→eq [] (y ∷ t) e = absurd (cc)
bytes_eq→eq (x ∷ s) [] e = absurd (cc)
bytes_eq→eq (x ∷ s) (y ∷ t) e = elim (Bool-cases (x == y)) [
  | inl same ↦ ap₂ (λ a b. a ∷ b) (==→eq x y same) (bytes_eq→eq s t (rw (same, bytes_eq) at e))
  | inr other ↦ let no : false ≡ true = rw (other, bytes_eq) at e in absurd (cc)
]

-- A new pair at the end of the map is found under its name.
find_new :
    (name password : List ℕ) (us : Users)
    → find_user name us ≡ none
    → find_user name (us ++ (name, password) ∷ []) ≡ some password
unfolding find_user
find_new name password [] e = rw (bytes_eq_refl name) refl
find_new name password ((n, p) ∷ us) e = elim (Bool-cases (bytes_eq n name)) [
  | inl same ↦ let no : some p ≡ none = rw (same, find_user) at e in absurd (cc)
  | inr other ↦ rw (other, find_user) (find_new name password us (rw (other, find_user) at e))
]

find_other :
    (name other password : List ℕ) (us : Users)
    → other ≢ name
    → find_user other (us ++ (name, password) ∷ []) ≡ find_user other us
unfolding find_user
find_other name other password [] ne = elim (Bool-cases (bytes_eq name other)) [
  | inl same ↦ absurd (ne (sym (bytes_eq→eq name other same)))
  | inr differs ↦ rw differs refl
]
find_other name other password ((n, p) ∷ us) ne = elim (Bool-cases (bytes_eq n other)) [
  | inl same ↦ rw (same, find_user) refl
  | inr differs ↦ rw (differs, find_user) (find_other name other password us ne)
]

abbrev statement : List ℕ → List ℕ → List ℕ
statement name password =
    codes "INSERT INTO user(username,passwd) VALUES("
    ++ (codes "'" ++ (name ++ (codes "', '" ++ (password ++ codes "')"))))

statement_size :
    (name password : List ℕ) → length (statement name password) ≡ length name + length password + 48
statement_size name password = omega (
  arith,
  length-append name (codes "', '" ++ (password ++ codes "')")),
  length-append password (codes "')"),
)

statement_fits :
    (name password : List ℕ)
    → length name + length password < 152
    → insert_statement name password ≡ ok (statement name password)
unfolding insert_statement
statement_fits name password lt =
    let fits : ltb (length (statement name password)) 200 ≡ true =
      lt→ltb _ 200 (omega (arith, statement_size name password)) in
    rw fits refl

insert_new :
    (name password : List ℕ) (us : Users)
    → find_user name us ≡ none
    → insert_user name password us ≡ us ++ (name, password) ∷ []
unfolding insert_user
insert_new name password us new = rw (new, insert_user) refl

-- With a connection to the database and a name and a password that fit the statement, a name that is
-- not in the map is registered: a login with the same pair is welcome from then on, even where
-- the query has failed, and what the map says of every other name is unchanged.
pub register-login :
    (w : World) (db : ℕ) (us : Users) (name password : List ℕ)
    → find_user name us ≡ none
    → length name + length password < 152
    → (page : List ℕ) × (us' : Users) × (register w (some db) us name password ≡ ok (page, us'))
      × (login us' name password ≡ codes "/welcome.html")
      × ((other : List ℕ) → other ≢ name → find_user other us' ≡ find_user other us)
unfolding register add_user login insert_user
register-login w db us name password new lt =
    let sql = statement name password in
    (
      if w.query_fails db sql then codes "/registerError.html" else codes "/log.html",
      us ++ (name, password) ∷ [],
      rw (statement_fits name password lt, register)
          (rw (new, register) (rw (insert_new name password us new, add_user) refl)),
      rw (find_new name password us new, login) (rw (bytes_eq_refl password, login) refl),
      λ other ne. find_other name other password us ne,
    )

set_user_found :
    (name password : List ℕ) (us : Users)
    → find_user name (set_user name password us) ≡ some password
unfolding set_user find_user
set_user_found name password [] = rw (bytes_eq_refl name) refl
set_user_found name password ((n, p) ∷ us) = elim (Bool-cases (bytes_eq n name)) [
  | inl same ↦ rw (same, set_user) (rw (same, find_user) refl)
  | inr other ↦ rw (other, set_user) (rw (other, find_user) (set_user_found name password us))
]

set_user_other :
    (name other password : List ℕ) (us : Users)
    → bytes_eq name other ≡ false
    → find_user other (set_user name password us) ≡ find_user other us
unfolding set_user find_user
set_user_other name other password [] ne = rw ne refl
set_user_other name other password ((n, p) ∷ us) ne = elim (Bool-cases (bytes_eq n name)) [
  | inl same ↦
      let n_other : bytes_eq n other ≡ false =
        ap (λ z. bytes_eq z other) (bytes_eq→eq n name same) ∙ ne in
      rw (same, set_user) (rw (n_other, find_user) refl)
  | inr differs ↦
      rw (differs, set_user)
        (elim (Bool-cases (bytes_eq n other)) [
          | inl here ↦ rw (here, find_user) refl
          | inr there ↦ rw (there, find_user) (set_user_other name other password us ne)
        ])
]

load_users_other :
    (rows us : Users) (name : List ℕ)
    → find_user name rows ≡ none
    → find_user name (load_users rows us) ≡ find_user name us
unfolding load_users find_user
load_users_other [] us name e = refl
load_users_other ((n, p) ∷ rows) us name e = elim (Bool-cases (bytes_eq n name)) [
  | inl same ↦ let no : some p ≡ none = rw (same, find_user) at e in absurd (cc)
  | inr differs ↦
      load_users_other rows (set_user n p us) name (rw (differs, find_user) at e)
      ∙ set_user_other n name p us differs
]

-- Every user of the database can log in once its table is loaded: of the rows with one name the last
-- one gives the password, whatever rows stand before it and behind it.
pub load_users-login :
    (before after us : Users) (name password : List ℕ)
    → find_user name after ≡ none
    → login (load_users (before ++ (name, password) ∷ after) us) name password
      ≡ codes "/welcome.html"
unfolding load_users login
load_users-login [] after us name password last =
    let found =
      load_users_other after (set_user name password us) name last
      ∙ set_user_found name password us in
    rw (found, login) (rw (bytes_eq_refl password, login) refl)
load_users-login ((n, p) ∷ before) after us name password last =
    load_users-login before after (set_user n p us) name password last

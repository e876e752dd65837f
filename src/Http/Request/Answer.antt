-- ===== src/Http/Request/Answer.antt =====
-- `do_request` of a login: the form is read, and the page of the answer is looked for.
use mathlib.Core.List.{append_assoc}
use cpp_server.Prelude.{
  ne→==, ℕ, suc, ◌+◌, ◌-◌, ◌<◌, ◌≤◌, ◌≡◌, refl, ap, ◌∙◌, true, none, some, List, [], ◌∷◌, ◌++◌,
  arith, length, drop, length-append, length-drop, length-replicate, replicate, lt→ltb,
}
use cpp_server.CString.{c_str, until_nul, find_last_char, strcpy_at}
use cpp_server.CString.Buffers.{NoNul, write_at-fits}
use cpp_server.Http.State.{Conn, Shared, ok, filename_len, Run, HttpCode}
use cpp_server.Http.Line.{byte_at}
use cpp_server.Http.Request.{World, Users, login, cgi_form, choose_file, open_file, do_request}
use cpp_server.Http.Request.Form.{form_text, form-form_text, Without}
use cpp_server.Http.Request.Page.{IsPage, login-IsPage, c_str-from, strcpy-there, strncpy-behind}

-- A connection with a form in its buffer, as `do_request` finds it.
abbrev pub with_form : Conn → List ℕ → ℕ → ℕ → Conn
with_form d buf u s = record d {
  read_buf = buf;
  url = some u;
  cgi = true;
  string = some s;
  real_file = replicate filename_len 0;
}

-- The root of the documents stands in front of the name of the file.
pub root_there :
    (root : List ℕ)
    → length root < filename_len
    → (rest : List ℕ) × (strcpy_at (replicate filename_len 0) 0 root ≡ some (root ++ rest))
      × (length rest + length root ≡ filename_len)
unfolding strcpy_at
root_there root lt =
    let zeros = replicate filename_len 0 in
    let size = length-replicate {A = ℕ} filename_len 0 in
    let more = drop (length (root ++ 0 ∷ [])) zeros in
    let len = length-append root (0 ∷ []) in
    (
      0 ∷ more,
      write_at-fits [] zeros (root ++ 0 ∷ []) 0 refl (omega arith)
          ∙ ap some (append_assoc root (0 ∷ []) more),
      omega (arith, length-drop (length (root ++ 0 ∷ [])) zeros (omega arith)),
    )

module _ (w : World) (us : Users) (c : Conn) (buf q name password more rest : List ℕ) (u s : ℕ)
    (url_is : c_str buf u ≡ b'/' ∷ b'2' ∷ q) (short : length q < 199)
    (body_is : drop s buf ≡ form_text name password ++ 0 ∷ more) (name_clean : NoNul name)
    (no_amp : Without b'&' name) (password_clean : NoNul password) (name_short : length name < 100)
    (password_short : length password < 100) (root_short : length c.doc_root < 180)
    (room : length rest + length c.doc_root ≡ filename_len) (fits : u + 15 ≤ length buf) where
  -- The page of the answer stands in the place of the URL.
  cgi_form-login :
      (buf' rest' : List ℕ) × (cgi_form w us
          (record (with_form c buf u s) { real_file = c.doc_root ++ rest })
          u
          b'2'
        ≡ ok (record (with_form c buf' u s) { real_file = c.doc_root ++ rest' }, us))
      × (c_str buf' u ≡ login us name password)
      × (length rest' ≡ length rest)
  unfolding cgi_form
  cgi_form-login =
      let (_, _, _, _, clean, size) = login-IsPage us name password in
      let target = b'/' ∷ q in
      let n = filename_len - length c.doc_root - 1 in
      let (rest', e1, len, _) = strncpy-behind c.doc_root rest target n (omega arith) in
      let (buf', e2, there) = strcpy-there buf (login us name password) u (omega arith) clean in
      let tail = (c_str-from buf q b'/' b'2' u url_is).1 in
      let read =
        form-form_text buf name password more s body_is name_clean no_amp password_clean name_short
          password_short in
      (
        buf',
        rest',
        rw (tail, cgi_form)
            (rw (lt→ltb (suc (length q)) 200 (omega arith)) (rw e1 (rw read (rw e2 refl)))),
        there,
        len,
      )

pub until_nul-append : (s rest : List ℕ) → NoNul s → until_nul (s ++ rest) ≡ s ++ until_nul rest
unfolding until_nul
until_nul-append [] rest h = refl
until_nul-append (b ∷ s) rest h =
    rw (ne→== b 0 (omega (arith, h.0)), until_nul) (ap (λ z. b ∷ z) (until_nul-append s rest h.1))

-- A page with no digit behind its '/' is looked for under its own name.
pub choose_file-page :
    (c : Conn) (buf page rest : List ℕ) (u : ℕ)
    → c_str buf u ≡ page
    → IsPage page
    → NoNul c.doc_root
    → length c.doc_root < 180
    → length rest + length c.doc_root ≡ filename_len
    → (real : List ℕ) × (choose_file
          (record c { read_buf = buf; real_file = c.doc_root ++ rest })
          u
          (u + 0)
        ≡ ok (record c { read_buf = buf; real_file = real }))
      × (c_str real 0 ≡ c.doc_root ++ page)
unfolding choose_file c_str
choose_file-page c buf page rest u there (b, k, shape, no_digit, clean, size) root_clean lt room =
    let n = filename_len - length c.doc_root - 1 in
    let (rest', e, _, ends) = strncpy-behind c.doc_root rest page n (omega arith) in
    let first : byte_at buf (u + 0 + 1) ≡ b =
      let i : u + 0 + 1 ≡ u + 1 = omega arith in
      ap (byte_at buf) i ∙ (c_str-from buf k b'/' b u (there ∙ shape)).0 in
    (
      c.doc_root ++ rest',
      rw (first, choose_file) (rw no_digit (rw there (rw e refl))),
      until_nul-append c.doc_root rest' root_clean
          ∙ ap (λ z. c.doc_root ++ z) (ends (omega arith) clean),
    )

-- What `do_request` returns once the name of the file is known.
abbrev pub answered : World → Shared → Conn → Run (HttpCode × Conn × Shared)
answered w g c = ok ((open_file w c).0, (open_file w c).1, g)

-- A login: the file that `stat` is asked for is the page of the answer, below the root.
pub do_request-login :
    (w : World) (g : Shared) (c : Conn) (buf q name password more : List ℕ) (u s : ℕ)
    → c_str buf u ≡ b'/' ∷ b'2' ∷ q
    → find_last_char b'/' q ≡ none
    → length q < 199
    → drop s buf ≡ form_text name password ++ 0 ∷ more
    → NoNul name
    → Without b'&' name
    → NoNul password
    → length name < 100
    → length password < 100
    → NoNul c.doc_root
    → length c.doc_root < 180
    → u + 15 ≤ length buf
    → (buf' real : List ℕ) × (do_request w g (with_form c buf u s)
        ≡ answered w g (record (with_form c buf' u s) { real_file = real }))
      × (c_str real 0 ≡ c.doc_root ++ login g.users name password)
unfolding do_request find_last_char
do_request-login w g c buf q name password more u s url_is last short body_is clean no_amp clean2
      short1 short2 root_clean root_short fits =
    let (rest, e1, room) = root_there c.doc_root (omega arith) in
    let (buf', rest', e2, there, len) =
      cgi_form-login w g.users c buf q name password more rest u s url_is short body_is clean no_amp
        clean2 short1 short2 root_short room fits in
    let (real, e3, named) =
      choose_file-page (with_form c buf' u s) buf' (login g.users name password) rest' u there
        (login-IsPage g.users name password) root_clean root_short (omega arith) in
    let kind : byte_at buf (u + 0 + 1) ≡ b'2' =
      let i : u + 0 + 1 ≡ u + 1 = omega arith in
      ap (byte_at buf) i ∙ (c_str-from buf q b'/' b'2' u url_is).0 in
    (buf', real, rw (e1, do_request) (rw url_is (rw last (rw kind (rw e2 (rw e3 refl))))), named)

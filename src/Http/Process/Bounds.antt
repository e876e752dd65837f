-- ===== src/Http/Process/Bounds.antt =====
-- What the ET loop of `read_once` does to the read buffer.
use cpp_server.Prelude.{
  ℕ, Bool, true, false, leb_ℤ, refl, if◌then◌else◌, ◌+◌, ◌≤◌, ◌≡◌, ap, ◌∙◌, inl, inr, List, [], ◌∷◌,
  ◌++◌, pos, ◌+ℤ◌, arith, length, take, drop, length-append, length-take, length-take-le,
  length-drop, ◌==◌, Bool-cases, pos_part,
}
use cpp_server.Http.State.{Conn, ok, read_buffer_size}
use cpp_server.Http.Process.{
  Recv, bytes, closed, would_block, failed, read_room, store_bytes, read_all, read_some, read_once,
}

-- The read buffer has its size, and `n` bytes of it have been read.
pub record HasRead (c : Conn) (n : ℕ) : Type 0 where
  pub sized : length c.read_buf ≡ read_buffer_size
  pub at : c.read_idx ≡ pos n
  pub inside : n ≤ read_buffer_size

pos_plus : (a b : ℕ) → pos a +ℤ pos b ≡ pos (a + b)
unfolding ◌+ℤ◌
pos_plus a b = ground arith

store_bytes-HasRead :
    (c : Conn) (n : ℕ) (bs : List ℕ)
    → HasRead c n
    → HasRead (store_bytes c bs) (n + length (take (read_room c) bs))
unfolding store_bytes
store_bytes-HasRead c n bs h =
    let new = take (read_room c) bs in
    let i : pos_part c.read_idx ≡ n = ap pos_part h.at in
    let few : length new ≤ read_room c = length-take-le (read_room c) bs in
    let end : length (drop (pos_part c.read_idx + length new) c.read_buf)
          + (pos_part c.read_idx + length new)
        ≡ length c.read_buf =
      length-drop (pos_part c.read_idx + length new) c.read_buf
        (omega (arith, h.sized, h.inside)) in
    record {
      sized = omega (
        arith,
        length-append (take (pos_part c.read_idx) c.read_buf)
            (new ++ drop (pos_part c.read_idx + length new) c.read_buf),
        length-append new (drop (pos_part c.read_idx + length new) c.read_buf),
        length-take (pos_part c.read_idx) c.read_buf (omega (arith, h.sized, h.inside)),
        h.sized,
      );
      at = ap (λ z. z +ℤ pos (length new)) h.at ∙ pos_plus n (length new);
      inside = omega (arith, h.inside);
    }

-- The ET loop never writes outside the read buffer: it keeps the buffer's size, and what has been
-- read grows and stays within it, whatever `recv` returns.
pub read_all-HasRead :
    (rs : List Recv) (c : Conn) (n : ℕ)
    → HasRead c n
    → (m : ℕ) × (n ≤ m) × HasRead (read_all rs c).1 m
unfolding read_all
read_all-HasRead [] c n h = (n, omega arith, h)
read_all-HasRead (would_block ∷ rs) c n h = (n, omega arith, h)
read_all-HasRead (failed ∷ rs) c n h = (n, omega arith, h)
read_all-HasRead (closed ∷ rs) c n h = (n, omega arith, h)
read_all-HasRead (bytes bs ∷ rs) c n h = elim (Bool-cases (length (take (read_room c) bs) == 0)) [
  | inl none_left ↦ rw (none_left, read_all) (n, omega arith, h)
  | inr some_more ↦
      let (m, le, h') = read_all-HasRead rs (store_bytes c bs) _ (store_bytes-HasRead c n bs h) in
      rw (some_more, read_all) (m, omega arith, h')
]

-- What has been read of a connection is not negative.
abbrev pub HasPlace : Conn → Type 0
HasPlace c = leb_ℤ (pos 0) c.read_idx ≡ true

pub read_once_returns :
    (rs : List Recv) (c : Conn) → HasPlace c → (r : Bool × Conn) × (read_once rs c ≡ ok r)
unfolding read_once
read_once_returns rs c h = elim (Bool-cases (leb_ℤ (pos read_buffer_size) c.read_idx)) [
  | inl full ↦ ((false, c), rw (full, read_once) refl)
  | inr room ↦
      (if c.trig_mode == 0 then read_some rs c else read_all rs c, rw (room, read_once) (rw h refl))
]

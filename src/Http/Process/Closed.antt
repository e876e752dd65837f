-- ===== src/Http/Process/Closed.antt =====
-- A request whose file is missing: the connection is closed without an answer.
use mathlib.Core.List.{append_assoc}
use cpp_server.Prelude.{◌≡◌, refl, true, [], ◌∷◌, ◌++◌, negsuc, ◌+ℤ◌}
use cpp_server.Http.State.{
  Conn, Shared, no_resource, deletes, closes, modifies, event_out, removefd, modfd,
}
use cpp_server.Http.Response.{process_write}
use cpp_server.Http.Process.{answer, close_conn, is_open}

-- Where a file is missing, the descriptor of the connection is taken from epoll and closed, the user
-- is counted down, and then descriptor -1 is armed for writing.
pub answer-no_resource :
    (c : Conn) (g : Shared)
    → is_open c.sockfd ≡ true
    → let (d, h) = answer (no_resource, c, g) in
      (d.sockfd ≡ negsuc 0)
      × (h.user_count ≡ g.user_count +ℤ negsuc 0)
      × (h.effects
          ≡ g.effects
            ++ (deletes c.sockfd
                ∷ closes c.sockfd
                ∷ modifies (negsuc 0) event_out c.trig_mode
                ∷ []))
unfolding answer close_conn process_write removefd modfd
answer-no_resource c g open_fd = rw (open_fd, close_conn) (refl, refl, append_assoc g.effects _ _)

-- ===== src/Webserver/Close.antt =====
-- A connection that is closed by its worker and by its timer.
use cpp_server.Prelude.{◌≡◌, true, ℤ, negsuc, ◌+ℤ◌, arith}
use cpp_server.Http.State.{Conn, Shared, removefd}
use cpp_server.Http.Process.{close_conn, is_open}
use cpp_server.Webserver.{Client, cb_func}

two_less : (n : ℤ) → n +ℤ negsuc 0 +ℤ negsuc 0 ≡ n +ℤ negsuc 1
unfolding ◌+ℤ◌
two_less n = ground arith

-- Where a worker has closed a connection and its timer then expires, the one user is counted down
-- twice.
pub close_conn-cb_func :
    (c : Conn) (client : Client) (g : Shared)
    → is_open c.sockfd ≡ true
    → (cb_func client (close_conn true c g).1).user_count ≡ g.user_count +ℤ negsuc 1
unfolding close_conn cb_func removefd
close_conn-cb_func c client g open_fd = rw (open_fd, close_conn) (two_less g.user_count)

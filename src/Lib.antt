-- ===== src/Lib.antt =====
-- CPP_Server: three C++ programs. ocean_http is a web server: an event loop on epoll, a pool of
-- worker threads, a pool of MySQL connections, timers that close idle connections, and a log that
-- may be written by a thread of its own. ocean_im is a chat server on brpc, ocean_net the beginning
-- of a network library. This development is about ocean_http, about the database proxy and the ring of
-- ocean_im, and about the loggers of ocean_net.
--
-- How the parts interact: the event loop (Webserver) accepts a connection, gives it a timer (Timers),
-- and on a readable descriptor hands it to the workers (ThreadPool); a worker takes a MySQL
-- connection (SqlPool) and lets the connection (Http) read its request, choose a file and prepare
-- the answer; the log (Log) writes its lines to a file, or hands
-- them through the bounded queue (BlockQueue) to a thread that does. In ocean_im the proxy (Dbproxy)
-- stands between the chat server and MySQL and redis, and the ring (ConsistentHash) chooses a node.
--
-- The files, and the code that each is about:
--   Prelude      shared names, Boolean tests, lists over the native numbers, and signed integers.
--   CString      what the code uses of <string.h> and <stdlib.h>, over arrays of bytes.
--   BlockQueue   ocean_http/log/block_queue.h. The array with its counters; push, take_next, pop and
--                pop_timed are its methods, clear, is_full, is_empty, peek_front and peek_back the
--                others. A wait lets other threads in: what they did is an argument of pop.
--   Http         ocean_http/http/http_conn.cpp and .h. State is the object, Line the scanner
--                parse_line, Parse the request line, the headers and the body, Request the function
--                do_request, Response the functions add_* and process_write, Process reading, the
--                loop process_read, process and close_conn.
--                Process/Text to Process/Served follow a whole request through the read buffer; there
--                the header lines are strings, and read_field says what one of them means.
--   Timers       ocean_http/timer/lst_timer.cpp: sort_timer_lst on an explicit heap.
--   SqlPool      ocean_http/cgimysql/sql_connection_pool.cpp: GetConnection is the step from idle to
--                holding in next_move, ReleaseConnection the way back, DestroyPool is destroy_pool.
--   ThreadPool   ocean_http/threadpool/threadpool.h: the constructor, append, append_p, and run as
--                take_request and serve, with the waits and the posts in Workers.
--   Config       ocean_http/config.cpp: the defaults and parse_arg.
--   Log          ocean_http/log/log.cpp: init, write_log as rotate, format_line and deliver, and in
--                Thread the loop of async_write_log beside threads in write_log, lock by lock.
--   ConsistentHash  ocean_im/oceanim/util/consistent_hash.h: every method, print_sums with describe
--                for Describe.
--   Dbproxy      ocean_im/oceanim/server/dbproxy/dbproxy_service.cpp: Save has the handlers that
--                write (SavePrivateMsg is save_private_msg, and so on), Select those that read.
--   NetLog       ocean_net/src/log.cpp: Logger and its appenders; Pattern has LogFormatter::init.
--   Webserver    ocean_http/webserver.cpp, with cb_func, timer_handler and show_error of
--                ocean_http/timer/lst_timer.cpp: trig_mode is set_trig_mode, timer is set_timer,
--                adjust_timer is renew_timer, eventLoop is event_loop (in Loop).
--                Listen has eventListen, log_write and the functions of utils as lists of kernel calls.
--                What the workers do to the connections before an event is handled is the field work
--                of the event. Events says which events are looked at, Rounds follows the
--                loop, and Reuse is about a descriptor that a new connection has got.
--
-- Conventions. A pointer into a buffer is an offset, NULL is `none`. `Run` is the result of code
-- that can meet undefined behaviour (a null pointer, a write outside an array, a missing return) or
-- run out of the rounds that the model gives a loop. Numbers are natural numbers, `int` and `long`
-- that can be negative are integers without a bound; the conversions that the code makes
-- are written out (to_int, to_int32, to_size). Where threads are modelled, in SqlPool,
-- ThreadPool/Workers, Log/Thread and BlockQueue, a part that a lock protects is one step, and a wait, a post
-- and a test without the lock are steps of their own; a wait of a semaphore can fail.
--
-- Fuel. process_read has one round for each byte that is not scanned and two more, which is enough
-- by process_read-ends. The loops over timers take fuel as an argument, and the theorems say that
-- the length of the list is enough (one more for tick). For the loops of LogFormatter::init no fuel is
-- enough on most patterns, which is what the theorem about them states.
--
-- The world outside is an argument: what recv, accept, stat, mysql_init and the queries return, the
-- contents of files, the time, the descriptors, and what a worker has made of a connection; for the
-- log whether fopen succeeds; for the ring the CRC; for the proxy the record Backend.
--
-- Not modelled: the calls of the log in the other parts, the constructor, init, sql_pool
-- and thread_pool of the web server, the locks, main; of ocean_im the logic service, whose handlers
-- are empty, and the main functions; of ocean_net the format items and YAML texts, and fiber.cpp,
-- which has no code. The code of pthread, MySQL, redis, brpc, soci and the kernel is not the
-- repository's own.
mod Prelude
pub mod CString
pub mod BlockQueue
pub mod Http
pub mod Timers
pub mod SqlPool
pub mod ThreadPool
pub mod Webserver
pub mod Log
pub mod ConsistentHash
pub mod Dbproxy
pub mod NetLog
pub mod Config

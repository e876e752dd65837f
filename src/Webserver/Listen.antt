-- ===== src/Webserver/Listen.antt =====
-- ocean_http/webserver.cpp, the functions that `main` calls before the loop, and the class utils of
-- ocean_http/timer/lst_timer.cpp: descriptors, signals and the pipe between a handler and the loop.
-- The calls of the kernel are listed in their order; what they return is an argument. An `assert`
-- that fails is `none`.
use cpp_server.Prelude.{
  ℕ, ◌%◌, Bool, true, false, Option, none, some, List, [], ◌∷◌, ◌++◌, ℤ, pos, negsuc, ◌==◌,
  if◌then◌else◌, take,
}
use cpp_server.CString.{codes}
use cpp_server.Http.Process.{Recv}
use cpp_server.Http.State.{Run, ok, ◌>>=◌}
use cpp_server.Log.{Log, Time, init}
use cpp_server.Webserver.{timeslot}

pub data EpollFlag : Type 0 where
  epollin epollet epollrdhup epollhup epolloneshot : EpollFlag

pub data Handler : Type 0 where
  sig_ign to_pipe : Handler

pub data Call : Type 0 where
  opens_socket opens_epoll opens_pipe reuses_addr : Call
  sets_linger : ℕ → ℕ → Call
  watches : ℕ → List EpollFlag → Call
  unblocks : ℕ → Call
  handles : ℕ → Handler → Bool → Call
  sets_alarm : ℕ → Call

-- `setnonblocking`: the flags of the descriptor with O_NONBLOCK.
unfoldable pub setnonblocking : ℕ → List Call
setnonblocking fd = unblocks fd ∷ []

abbrev pub events_of : Bool → ℕ → List EpollFlag
events_of one_shot trig_mode =
    (if trig_mode == 1 then epollin ∷ epollet ∷ epollrdhup ∷ [] else epollin ∷ epollhup ∷ [])
    ++ (if one_shot then epolloneshot ∷ [] else [])

-- `utils::addfd`
unfoldable pub addfd : ℕ → Bool → ℕ → List Call
addfd fd one_shot trig_mode = watches fd (events_of one_shot trig_mode) ∷ setnonblocking fd

-- `sigaction` fails for a signal that has no handler of the program's own.
unfoldable pub addsig : (ℕ → Bool) → ℕ → Handler → Bool → Option (List Call)
addsig fails sig handler restart =
    if fails sig then none else some (handles sig handler restart ∷ [])

-- What the kernel returns to `eventListen`.
pub record Answers : Type 0 where
  pub socket : ℤ
  pub epoll_create : ℤ
  pub socketpair : Option (ℕ × ℕ)
  pub sigaction_fails : ℕ → Bool

abbrev pub linger_calls : ℕ → List Call
linger_calls opt_linger =
    if opt_linger == 0
    then sets_linger 0 1 ∷ []
    else if opt_linger == 1
    then sets_linger 1 1 ∷ []
    else []

pub record Listener : Type 0 where
  pub listenfd : ℕ
  pub epollfd : ℕ
  pub pipefd : ℕ × ℕ

-- SIGPIPE is 13, SIGALRM 14 and SIGTERM 15; `restart` is true by default.
abbrev pub signal_calls : (ℕ → Bool) → Option (List Call)
signal_calls fails = elim (addsig fails 13 sig_ign true) [
  | none ↦ none
  | some a ↦ elim (addsig fails 14 to_pipe false) [
    | none ↦ none
    | some b ↦ elim (addsig fails 15 to_pipe false) [ none ↦ none | some c ↦ some (a ++ (b ++ c)) ]
  ]
]

-- From `epoll_create` on.
unfoldable pub watch_all : Answers → ℕ → ℕ → List Call → Option (Listener × List Call)
watch_all k listenfd listen_trig before = elim k.epoll_create [
  | negsuc n ↦ none
  | pos epollfd ↦ elim k.socketpair [
    | none ↦ none
    | some pipe ↦ elim (signal_calls k.sigaction_fails) [
      | none ↦ none
      | some signals ↦ some (
        record { listenfd = listenfd; epollfd = epollfd; pipefd = pipe },
        before
            ++ (opens_epoll
                ∷ (addfd listenfd false listen_trig
                    ++ (opens_pipe
                        ∷ (setnonblocking pipe.1
                            ++ (addfd pipe.0 false 0
                                ++ (signals ++ (sets_alarm timeslot ∷ []))))))),
      )
    ]
  ]
]

-- `eventListen`. Nothing is done with `address`.
unfoldable pub event_listen : Answers → ℕ → ℕ → Option (Listener × List Call)
event_listen k opt_linger listen_trig = elim k.socket [
  | negsuc n ↦ none
  | pos listenfd ↦
      watch_all k listenfd listen_trig
        (opens_socket ∷ (linger_calls opt_linger ++ (reuses_addr ∷ [])))
]

-- `sig_handler`: one byte into the pipe, unless `send` fails, as it does on a full pipe.
unfoldable pub sig_handler : Bool → ℕ → List ℕ → List ℕ
sig_handler sent sig pipe = if sent then pipe ++ (sig % 256) ∷ [] else pipe

-- `recv` of the pipe into an array of 1024.
unfoldable pub recv_signals : List ℕ → Recv
recv_signals pipe = Recv.bytes (take 1024 pipe)

-- `log_write`
unfoldable pub log_write : (List ℕ → Bool) → Time → ℕ → ℕ → Log → Run Log
log_write opens t close_log mode s =
    if close_log == 0
    then (do
      (failed, s') ←
          init opens t (codes "./serverlog") (pos 0) 2000 800000
            (if mode == 1 then pos 800 else pos 0) s
      ok s')
    else ok s

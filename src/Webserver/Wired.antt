-- ===== src/Webserver/Wired.antt =====
-- What is wired up before the loop: the descriptors that are watched, and the way of a signal.
use cpp_server.Prelude.{
  ℕ, ◌%◌, ◌<◌, ◌≡◌, sym, ap, ◌∙◌, true, false, some, List, [], ◌∷◌, ◌++◌, length, take, take_all,
  arith, ◌||◌,
}
use mathlib.Core.List.{append_assoc, append-nil}
use cpp_server.Webserver.Loop.{Flags, dealwithsignal}
use cpp_server.Webserver.Signals.{has, take_signals-has}
use cpp_server.Webserver.Listen.{
  Call, sig_handler, recv_signals, watches, unblocks, EpollFlag, Listener, Answers, event_listen,
  watch_all, events_of, addfd, addsig, setnonblocking,
}

-- The handlers of some signals, one after another, each with a `send` that succeeds.
abbrev pub delivered : List ℕ → List ℕ → List ℕ
delivered [] pipe = pipe
delivered (sig ∷ sigs) pipe = delivered sigs (sig_handler true sig pipe)

abbrev pub AllBytes : List ℕ → Type 0
AllBytes [] = Unit
AllBytes (sig ∷ sigs) = (sig < 256) × AllBytes sigs

delivered-append : (sigs pipe : List ℕ) → AllBytes sigs → delivered sigs pipe ≡ pipe ++ sigs
unfolding sig_handler
delivered-append [] pipe h = sym (append-nil pipe)
delivered-append (sig ∷ sigs) pipe h =
    let byte : sig % 256 ≡ sig = omega (arith, h.0) in
    delivered-append sigs (pipe ++ (sig % 256) ∷ []) h.1
    ∙ append_assoc pipe ((sig % 256) ∷ []) sigs
    ∙ ap (λ b. pipe ++ b ∷ sigs) byte

-- The signals that have come, 1024 at most and each with a `send` that succeeds, go through the pipe: the loop is told of a time-out
-- where SIGALRM is among them, and of the end where SIGTERM is, in whatever order they came; what it
-- was told before stays.
pub dealwithsignal-delivered :
    (sig : ℕ) (sigs : List ℕ) (fl : Flags)
    → AllBytes (sig ∷ sigs)
    → length sigs < 1024
    → dealwithsignal (recv_signals (delivered (sig ∷ sigs) [])) fl ≡ (
      true,
      record {
        timeout = fl.timeout || has 14 (sig ∷ sigs);
        stop_server = fl.stop_server || has 15 (sig ∷ sigs);
      },
    )
unfolding dealwithsignal recv_signals
dealwithsignal-delivered sig sigs fl h le =
    let all = sig ∷ sigs in
    let bytes : take 1024 (delivered all []) ≡ all =
      ap (take 1024) (delivered-append all [] h) ∙ take_all 1024 all (omega arith) in
    let told = take_signals-has all fl in
    rw bytes (λ i. (true, record { timeout = told.0 i; stop_server = told.1 i }))

-- The descriptors that epoll watches, and those that do not block.
abbrev pub watched : List Call → List (ℕ × List EpollFlag)
watched [] = []
watched (watches fd flags ∷ cs) = (fd, flags) ∷ watched cs
watched (_ ∷ cs) = watched cs

abbrev pub unblocked : List Call → List ℕ
unblocked [] = []
unblocked (unblocks fd ∷ cs) = fd ∷ unblocked cs
unblocked (_ ∷ cs) = unblocked cs

-- Where every call succeeds, epoll watches the listening socket, in the mode of the listener, and
-- the end of the pipe that is read, and neither for one event only; the three descriptors of the
-- loop do not block.
pub event_listen-watched :
    (k : Answers) (opt_linger listen_trig : ℕ) (l : Listener) (calls : List Call)
    → event_listen k opt_linger listen_trig ≡ some (l, calls)
    → (watched calls
        ≡ (l.listenfd, events_of false listen_trig) ∷ (l.pipefd.0, events_of false 0) ∷ [])
      × (unblocked calls ≡ l.listenfd ∷ l.pipefd.1 ∷ l.pipefd.0 ∷ [])
unfolding event_listen watch_all addfd addsig setnonblocking
event_listen-watched k opt_linger listen_trig l calls e = ground arith

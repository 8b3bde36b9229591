-- ===== src/Daemon.antt =====
-- core/canna_daemon.cpp: how a server detaches, run on the answers of the operating system. A
-- process id is a number, and 0 is what `fork` answers in the child.
pub mod Outcome
mod Tests
use canna.Prelude.{
  Option, none, some, not, ℕ, ◌+◌, ◌*◌, Bool, true, false, List, [], ◌∷◌, if◌then◌else◌, ◌==◌,
}

-- SERVER_INIT_DAEMON
abbrev pub server_init_daemon : ℕ
server_init_daemon = 0

-- What a process asks of the system; the latest comes first.
pub data SysCall : Type 0 where
  fork setsid ignore_signals open_pidfile close_pidfile umask setpgrp : SysCall
  lock_pidfile unlink_pidfile : SysCall
  write_pid : ℕ → SysCall

-- The answers that one process gets: of the two forks, of `open`, `fdopen` and `flock` (whether they
-- succeed), of `fprintf` (the bytes it has written, or `none`, a negative value), and of `getpid`.
pub record Answers : Type 0 where
  pub first_fork : ℕ
  pub second_fork : ℕ
  pub opens : Bool
  pub fdopens : Bool
  pub locks : Bool
  pub printed : Option ℕ
  pub own_pid : ℕ

-- How `daemon_init` ends: the process exits, or the call returns 0 or a negative code.
pub data Ended : Type 0 where
  exits : Ended
  returns : Ended
  fails : (code : ℕ) → Ended

abbrev pub detached : List SysCall
detached = fork ∷ ignore_signals ∷ setsid ∷ fork ∷ []

-- The truth of what `fprintf` returns.
abbrev pub is_true : Option ℕ → Bool
is_true none = true
is_true (some n) = not (n == 0)

-- The pid file, behind the forks. The test of `fprintf` is passed by a negative value.
unfoldable pub take_pidfile : Answers → List SysCall → List SysCall × Ended
take_pidfile a calls =
    if a.opens
    then (if a.fdopens
        then (if a.locks
            then (if is_true a.printed
                then (
                  setpgrp ∷ umask ∷ write_pid a.own_pid ∷ lock_pidfile ∷ open_pidfile ∷ calls,
                  returns,
                )
                else (
                  close_pidfile ∷ write_pid a.own_pid ∷ lock_pidfile ∷ open_pidfile ∷ calls,
                  fails 4,
                ))
            else (lock_pidfile ∷ open_pidfile ∷ calls, fails 3))
        else (open_pidfile ∷ calls, fails 2))
    else (open_pidfile ∷ calls, fails 1)

-- `pid == fork()`, where C reads the truth of a comparison as 1 or 0.
abbrev pub as_number : Bool → ℕ
as_number true = 1
as_number false = 0

-- `daemon_init`; behind the first fork `pid` is 0 in the process that goes on.
unfoldable pub daemon_init : Answers → ℕ → List SysCall × Ended
daemon_init a mode =
    if mode == server_init_daemon
    then ([], returns)
    else if a.first_fork == 0
    then (if as_number (a.first_fork == a.second_fork) == 0
        then take_pidfile a detached
        else (detached, exits))
    else (fork ∷ [], exits)

-- `daemon_exit`, with whether it returns 0; `unlinks` is whether `unlink` does.
unfoldable pub daemon_exit : (unlinks : Bool) → List SysCall → List SysCall × Bool
daemon_exit unlinks calls = (unlink_pidfile ∷ calls, unlinks)

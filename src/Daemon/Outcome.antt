-- ===== src/Daemon/Outcome.antt =====
-- What daemon_init leaves behind, in each process.
use canna.Prelude.{some, ℕ, ◌≡◌, ◌≢◌, ◌↔◌, true, ◌∷◌, arith}
use canna.Daemon.{
  setpgrp, umask, write_pid, lock_pidfile, open_pidfile, Answers, exits, returns, detached,
  server_init_daemon, take_pidfile, daemon_init,
}

-- In a mode that detaches, the process that goes on to serve is the one that called `setsid`, the
-- child of the first fork and parent of the second: it returns 0 just if the pid file was opened,
-- locked, and `fprintf` did not write 0 bytes: also where it failed.
pub daemon_init_returns :
    (a : Answers) (mode : ℕ)
    → mode ≢ server_init_daemon
    → ((daemon_init a mode).1 ≡ returns) ↔ (
        (a.first_fork ≡ 0)
        × (a.second_fork ≢ 0)
        × (a.opens ≡ true)
        × (a.fdopens ≡ true)
        × (a.locks ≡ true)
        × (a.printed ≢ some 0))
unfolding daemon_init take_pidfile
daemon_init_returns a mode h = ground arith

-- The child of the second fork, which leads no session, always exits.
pub daemon_init_grandchild :
    (a : Answers) (mode : ℕ)
    → mode ≢ server_init_daemon
    → a.second_fork ≡ 0
    → (daemon_init a mode).1 ≡ exits
unfolding daemon_init take_pidfile
daemon_init_grandchild a mode h g = ground arith

-- A daemon that returns 0 has made just these calls, so it held the lock on the pid file when it
-- tried to write its own id.
pub daemon_init_calls :
    (a : Answers) (mode : ℕ)
    → mode ≢ server_init_daemon
    → (daemon_init a mode).1 ≡ returns
    → (daemon_init a mode).0
      ≡ setpgrp ∷ umask ∷ write_pid a.own_pid ∷ lock_pidfile ∷ open_pidfile ∷ detached
unfolding daemon_init take_pidfile
daemon_init_calls a mode h g = ground arith

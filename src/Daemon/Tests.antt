-- ===== src/Daemon/Tests.antt =====
-- daemon_init on concrete answers.
use canna.Prelude.{some, none, ◌≡◌, ◌≢◌, ◌↔◌, refl, true, ◌∷◌, arith}
use canna.Daemon.{
  setpgrp, umask, write_pid, lock_pidfile, open_pidfile, Answers, exits, returns, detached,
  take_pidfile, daemon_init,
}
use canna.Daemon.Outcome.{daemon_init_returns, daemon_init_grandchild}

-- The child of the first fork, whose own child is the process 12; all succeeds.
abbrev middle : Answers
middle = record {
  first_fork = 0;
  second_fork = 12;
  opens = true;
  fdopens = true;
  locks = true;
  printed = some 3;
  own_pid = 11;
}

abbrev last : Answers
last = record middle { second_fork = 0; own_pid = 12 }

middle_serves :
    daemon_init middle 1
    ≡ (setpgrp ∷ umask ∷ write_pid 11 ∷ lock_pidfile ∷ open_pidfile ∷ detached, returns)
unfolding daemon_init take_pidfile
middle_serves = refl

daemon_init_returns_test : ((daemon_init middle 1).1 ≡ returns) ↔ (
    (middle.first_fork ≡ 0)
    × (middle.second_fork ≢ 0)
    × (middle.opens ≡ true)
    × (middle.fdopens ≡ true)
    × (middle.locks ≡ true)
    × (middle.printed ≢ some 0))
daemon_init_returns_test = daemon_init_returns middle 1 (omega arith)

daemon_init_grandchild_test : (daemon_init last 1).1 ≡ exits
daemon_init_grandchild_test = daemon_init_grandchild last 1 (omega arith) refl

-- A failed write is not noticed.
unwritten_serves : (daemon_init (record middle { printed = none }) 1).1 ≡ returns
unfolding daemon_init take_pidfile
unwritten_serves = refl

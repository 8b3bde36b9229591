-- ===== src/RouterPair/Tests.antt =====
-- The two programs at concrete inputs.
use canna.Prelude.{◌≡◌, true, false, List, [], ◌∷◌}
use canna.RouterPair.{new_pair, client, node, Round, run_rounds}
use canna.RouterPair.Acks.{Accounts, pair, run_rounds-Accounts}
use canna.RouterPair.Exchange.{exchange, exchange-acked}

-- The client greets twice, of which one is lost; the node answers, and its ack comes in.
abbrev some_rounds : List Round
some_rounds =
    client true true true
    ∷ client false true true
    ∷ node true true true
    ∷ node true true false
    ∷ client true true true
    ∷ []

run_rounds-Accounts_example : Accounts some_rounds 0 0 0 0 0 0 (run_rounds some_rounds new_pair)
run_rounds-Accounts_example = run_rounds-Accounts some_rounds

exchange-acked_test : run_rounds (exchange 3) new_pair ≡ pair 2 1 2 1 3 0
exchange-acked_test = exchange-acked 2

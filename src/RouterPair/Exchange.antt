-- ===== src/RouterPair/Exchange.antt =====
-- The two programs where nothing is lost or late.
use canna.Prelude.{ℕ, zero, suc, ◌+◌, ◌≡◌, ap, ap₂, ◌∙◌, true, List, [], ◌∷◌, arith, replicate-snoc}
use canna.RouterPair.{
  apple, purple, purple1, greeting, ack, hello, new_pair, send_to, receive, reports, client_round,
  node_round, Round, client, node, run_round, run_rounds,
}
use canna.RouterPair.Acks.{pair}

-- A round of each, in which all is taken and arrives at once.
abbrev pub exchange : ℕ → List Round
exchange zero = []
exchange (suc n) = client true true true ∷ node true true true ∷ exchange n

one_exchange :
    (a g : ℕ) → run_rounds (exchange 1) (pair a 1 a 1 g 0) ≡ pair (suc a) 1 (suc a) 1 (suc g) 0
unfolding run_rounds run_round client_round node_round receive reports send_to
one_exchange a g = λ i. record {
  socket = record { waiting = (purple, ack) ∷ []; printed = replicate-snoc a (purple, ack) i };
  back = record { waiting = (purple1, hello) ∷ []; printed = replicate-snoc a (purple1, hello) i };
  sink = record { waiting = []; printed = replicate-snoc g (apple, greeting) i };
}

exchange_later :
    (n a g : ℕ) → run_rounds (exchange n) (pair a 1 a 1 g 0) ≡ pair (a + n) 1 (a + n) 1 (g + n) 0
unfolding run_rounds
exchange_later zero a g = ap₂ (λ b c. pair b 1 b 1 c 0) (omega arith) (omega arith)
exchange_later (suc n) a g =
    ap (run_rounds (exchange n)) (one_exchange a g)
    ∙ exchange_later n (suc a) (suc g)
    ∙ ap₂ (λ b c. pair b 1 b 1 c 0) (omega arith) (omega arith)

-- Where both programs make their rounds by turns, and all is taken and arrives at once, the node
-- prints a greeting in each of its rounds, and the client the ack and a hello of each but the last,
-- which wait for its next round.
pub exchange-acked : (n : ℕ) → run_rounds (exchange (suc n)) new_pair ≡ pair n 1 n 1 (suc n) 0
unfolding run_rounds run_round client_round node_round receive reports send_to new_pair
exchange-acked n =
    let none_ : 0 + n ≡ n = omega arith in
    let one : 1 + n ≡ suc n = omega arith in
    exchange_later n 0 1 ∙ ap₂ (λ b c. pair b 1 b 1 c 0) none_ one

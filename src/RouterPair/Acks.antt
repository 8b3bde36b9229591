-- ===== src/RouterPair/Acks.antt =====
-- What the two programs print.
use canna.Prelude.{
  ℕ, zero, suc, ◌+◌, ◌≤◌, ◌≡◌, refl, ap, ◌∙◌, Bool, true, false, List, [], ◌∷◌, arith, replicate,
  replicate-snoc, if◌then◌else◌,
}
use canna.Broker.{frame_eq}
use canna.RouterPair.{
  apple, apple1, purple, purple1, greeting, ack, hello, Message, Inbox, Pair, new_pair, send_to,
  receive, reports, client_round, node_round, Round, client, node, run_round, run_rounds,
}

-- An inbox that only copies of one message have reached: so many were printed, and so many wait.
abbrev pub box : Message → (printed waiting : ℕ) → Inbox
box m printed waiting = record { waiting = replicate waiting m; printed = replicate printed m }

abbrev count : Bool → ℕ
count true = 1
count false = 0

receive-box :
    (arrived : Bool) (m : Message) (a w : ℕ)
    → (k : ℕ) × (l : ℕ) × (receive arrived (box m a w) ≡ box m k l)
      × (k + l ≡ a + w)
      × (k ≡ a + count (reports arrived (box m a w)))
unfolding receive reports
receive-box arrived m a zero = (a, 0, refl, omega arith, omega arith)
receive-box false m a (suc w) = (a, suc w, refl, omega arith, omega arith)
receive-box true m a (suc w) = (
  suc a,
  w,
  ap (λ l. record { waiting = replicate w m; printed = l }) (replicate-snoc a m),
  omega arith,
  omega arith,
)

send_to-box :
    (self peer text : List ℕ) (takes : Bool) (a w : ℕ)
    → frame_eq peer peer ≡ true
    → (l : ℕ) × (send_to self peer takes peer text (box (self, text) a w) ≡ box (self, text) a l)
      × (l ≡ w + count takes)
unfolding send_to
send_to-box self peer text true a w e = (
  suc w,
  rw e (
      ap (λ l. record { waiting = l; printed = replicate a (self, text) })
        (replicate-snoc w (self, text))),
  omega arith,
)
send_to-box self peer text false a w e = (w, rw e refl, omega arith)

-- The state of the pair by its six numbers.
abbrev pub pair : (acks acks' hellos hellos' greetings greetings' : ℕ) → Pair
pair acks acks' hellos hellos' greetings greetings' = record {
  socket = box (purple, ack) acks acks';
  back = box (purple1, hello) hellos hellos';
  sink = box (apple, greeting) greetings greetings';
}

-- What ZeroMQ takes of the client, and of the hellos of the node, and the rounds of each.
abbrev pub greetings_taken : List Round → ℕ
greetings_taken [] = 0
greetings_taken (client takes s b ∷ rounds) = count takes + greetings_taken rounds
greetings_taken (node s a h ∷ rounds) = greetings_taken rounds

abbrev pub hellos_taken : List Round → ℕ
hellos_taken [] = 0
hellos_taken (client takes s b ∷ rounds) = hellos_taken rounds
hellos_taken (node s a takes ∷ rounds) = count takes + hellos_taken rounds

abbrev pub client_rounds : List Round → ℕ
client_rounds [] = 0
client_rounds (client takes s b ∷ rounds) = suc (client_rounds rounds)
client_rounds (node s a h ∷ rounds) = client_rounds rounds

-- What a run does to the numbers: of the greetings taken each is printed or waits; there are no more
-- acks than greetings printed; of the hellos taken each is printed or waits, and no more are printed
-- than the client makes rounds.
pub record Accounts (rounds : List Round) (a a' h h' g g' : ℕ) (p : Pair) : Type 0 where
  pub acks : ℕ
  pub acks' : ℕ
  pub hellos : ℕ
  pub hellos' : ℕ
  pub greetings : ℕ
  pub greetings' : ℕ
  pub state : p ≡ pair acks acks' hellos hellos' greetings greetings'
  pub greeted : greetings + greetings' ≡ g + g' + greetings_taken rounds
  pub answered : acks + acks' + g ≤ a + a' + greetings
  pub helloed : hellos + hellos' ≡ h + h' + hellos_taken rounds
  pub slow : hellos ≤ h + client_rounds rounds

count_le : (b : Bool) → count b ≤ 1
count_le true = omega arith
count_le false = omega arith

-- The ack of a round, if it reports a greeting.
acked :
    (reported takes : Bool) (a a' : ℕ)
    → (l : ℕ) × ((if reported
          then send_to purple apple takes apple ack (box (purple, ack) a a')
          else box (purple, ack) a a')
        ≡ box (purple, ack) a l)
      × (l ≤ a' + count reported)
acked true takes a a' =
    let (l, sent, more) = send_to-box purple apple ack takes a a' refl in
    (l, sent, omega (arith, more, count_le takes))
acked false takes a a' = (a', refl, omega arith)

run_round-Accounts :
    (r : Round) (a a' h h' g g' : ℕ)
    → Accounts (r ∷ []) a a' h h' g g' (run_round r (pair a a' h h' g g'))
unfolding run_round client_round node_round
run_round-Accounts (client takes on_socket on_back) a a' h h' g g' =
    let (l, sent, more) = send_to-box apple purple greeting takes g g' refl in
    let (k1, l1, got1, same1, reported1) = receive-box on_socket (purple, ack) a a' in
    let (k2, l2, got2, same2, reported2) = receive-box on_back (purple1, hello) h h' in
    record {
      acks = k1;
      acks' = l1;
      hellos = k2;
      hellos' = l2;
      greetings = g;
      greetings' = l;
      state = λ i. record { socket = got1 i; back = got2 i; sink = sent i };
      greeted = omega (arith, more);
      answered = omega (arith, same1);
      helloed = omega (arith, same2);
      slow = omega (arith, reported2, count_le (reports on_back (box (purple1, hello) h h')));
    }
run_round-Accounts (node on_sink takes_ack takes_hello) a a' h h' g g' =
    let (k, l, got, same, reported) = receive-box on_sink (apple, greeting) g g' in
    let (l1, sent1, few) = acked (reports on_sink (box (apple, greeting) g g')) takes_ack a a' in
    let (l2, sent2, more) = send_to-box purple1 apple1 hello takes_hello h h' refl in
    record {
      acks = a;
      acks' = l1;
      hellos = h;
      hellos' = l2;
      greetings = k;
      greetings' = l;
      state = λ i. record { socket = sent1 i; back = sent2 i; sink = got i };
      greeted = omega (arith, same);
      answered = omega (arith, few, reported);
      helloed = omega (arith, more);
      slow = omega arith;
    }

-- The numbers of a round and of those behind it.
counted-cons :
    (r : Round) (rounds : List Round)
    → (greetings_taken (r ∷ rounds) ≡ greetings_taken (r ∷ []) + greetings_taken rounds)
      × (hellos_taken (r ∷ rounds) ≡ hellos_taken (r ∷ []) + hellos_taken rounds)
      × (client_rounds (r ∷ rounds) ≡ client_rounds (r ∷ []) + client_rounds rounds)
counted-cons (client takes s b) rounds = (omega arith, omega arith, omega arith)
counted-cons (node s a takes) rounds = (omega arith, omega arith, omega arith)

run_rounds-pair :
    (rounds : List Round) (a a' h h' g g' : ℕ)
    → Accounts rounds a a' h h' g g' (run_rounds rounds (pair a a' h h' g g'))
unfolding run_rounds
run_rounds-pair [] a a' h h' g g' = record {
  acks = a;
  acks' = a';
  hellos = h;
  hellos' = h';
  greetings = g;
  greetings' = g';
  state = refl;
  greeted = omega arith;
  answered = omega arith;
  helloed = omega arith;
  slow = omega arith;
}
run_rounds-pair (r ∷ rounds) a a' h h' g g' =
    let one = run_round-Accounts r a a' h h' g g' in
    let all =
      run_rounds-pair rounds one.acks one.acks' one.hellos one.hellos' one.greetings
        one.greetings' in
    let (greeted, helloed, made) = counted-cons r rounds in
    record {
      acks = all.acks;
      acks' = all.acks';
      hellos = all.hellos;
      hellos' = all.hellos';
      greetings = all.greetings;
      greetings' = all.greetings';
      state = ap (run_rounds rounds) one.state ∙ all.state;
      greeted = omega (arith, one.greeted, all.greeted, greeted);
      answered = omega (arith, one.answered, all.answered);
      helloed = omega (arith, one.helloed, all.helloed, helloed);
      slow = omega (arith, one.slow, all.slow, made);
    }

-- In whatever order the two programs make their rounds, whatever ZeroMQ takes and whenever it
-- delivers: the client prints nothing on `socket` but acks of PURPLE and nothing on `back` but hellos
-- of PURPLE1, and the node nothing but greetings of APPPLE. Each greeting that was taken was printed
-- or waits, and so has each hello; there are no more acks, printed or waiting, than greetings were
-- printed, and the client prints no more hellos than it makes rounds, however many wait.
pub run_rounds-Accounts :
    (rounds : List Round) → Accounts rounds 0 0 0 0 0 0 (run_rounds rounds new_pair)
unfolding new_pair
run_rounds-Accounts rounds = run_rounds-pair rounds 0 0 0 0 0 0

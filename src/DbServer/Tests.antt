-- ===== src/DbServer/Tests.antt =====
-- The database server at concrete inputs: a socket with its requests in a list, and a store whose
-- replies are the commands, counted.
use canna.Prelude.{
  ℕ, suc, ◌≡◌, refl, Bool, true, false, List, [], ◌∷◌, ◌++◌, Option, none, some, arith, replicate,
  ◌↔◌,
}
use canna.Broker.{Frame}
use canna.Daemon.{daemon_init, take_pidfile, returns}
use canna.DbServer.Start.{
  ready, Setup, creates, destroys, redis_context, client, database, collection, ping_command,
  mongo_reply, json, document, serves, initialize, after_ping, start_mongo, after_connect, start,
  start-serves,
}
use canna.DbServer.{RepSocket, goes_on, throws, faults, main_loop}
use canna.DbServer.Answers.{Stands, main_loop-answers, main_loop-oversize, main_loop-unended}

record Peer : Type 0 where
  pub waiting : Bool
  pub requests : List Frame
  pub replies : List Frame

abbrev take_request : Bool → List Frame → List Frame → Option (Frame × Peer)
take_request true requests replies = none
take_request false [] replies = none
take_request false (request ∷ rest) replies =
    some (request, record { waiting = true; requests = rest; replies = replies })

abbrev give_reply : Frame → Bool → Peer → Option Peer
give_reply reply false p = none
give_reply reply true p = some (record p { waiting = false; replies = p.replies ++ reply ∷ [] })

take_request-next :
    (request : Frame) (rest : List Frame) (waiting : Bool) (requests replies : List Frame)
    → waiting ≡ false
    → requests ≡ request ∷ rest
    → (p : Peer) × (take_request waiting requests replies ≡ some (request, p))
      × (p.waiting ≡ true)
      × (p.requests ≡ rest)
      × (p.replies ≡ replies)
take_request-next request rest waiting requests replies e f = (
  record { waiting = true; requests = rest; replies = replies },
  rw (e, f) refl,
  refl,
  refl,
  refl,
)

abbrev peer : RepSocket Peer
peer = record {
  recv = λ p. take_request p.waiting p.requests p.replies;
  send = λ reply p. give_reply reply p.waiting p;
  to_come = λ p. p.requests;
  replied = λ p. p.replies;
  asked = λ p. p.waiting;
  recv-next =
      λ p request rest e f. take_request-next request rest p.waiting p.requests p.replies e f;
  recv-throws = λ p e. rw e refl;
  send-reply = λ p reply e. (
    record p { waiting = false; replies = p.replies ++ reply ∷ [] },
    rw e refl,
    refl,
    refl,
    refl,
  );
}

abbrev echo : List ℕ → ℕ → Option Frame × ℕ
echo text n = (some text, suc n)

abbrev ping : Frame
ping = b'P' ∷ b'I' ∷ b'N' ∷ b'G' ∷ 0 ∷ b'!' ∷ []

abbrev ping_reply : Frame
ping_reply = b'P' ∷ b'I' ∷ b'N' ∷ b'G' ∷ []

abbrev too_long : Frame
too_long = replicate 257 b'A'

abbrev asks : List Frame → Peer
asks requests = record { waiting = false; requests = requests; replies = [] }

main_loop-answers_example :
    (p : Peer) × (main_loop peer echo 2 (asks (ping ∷ ping ∷ [])) 5 ≡ goes_on p 7)
    × Stands peer p false [] (ping_reply ∷ ping_reply ∷ [])
main_loop-answers_example =
    main_loop-answers peer echo (ping ∷ ping ∷ []) [] [] (ping_reply ∷ ping_reply ∷ [])
      (asks (ping ∷ ping ∷ [])) 5 7 (omega arith, (omega arith, tt)) (refl, refl, refl)
      (ping_reply, 6, ping_reply ∷ [], refl, refl, (ping_reply, 7, [], refl, refl, (refl, refl)))

main_loop-oversize_test :
    (p : Peer) × (main_loop peer echo 3 (asks (ping ∷ too_long ∷ ping ∷ [])) 5 ≡ throws p 6)
    × Stands peer p true (ping ∷ []) (ping_reply ∷ [])
main_loop-oversize_test =
    main_loop-oversize peer echo (ping ∷ []) too_long (ping ∷ []) [] (ping_reply ∷ []) 0
      (asks (ping ∷ too_long ∷ ping ∷ [])) 5 6 (omega arith, tt) (omega arith) (refl, refl, refl)
      (ping_reply, 6, [], refl, refl, (refl, refl))

main_loop-unended_test :
    (p : Peer) × (main_loop peer echo 2 (asks (ping ∷ replicate 256 b'A' ∷ [])) 5 ≡ faults p 6)
    × Stands peer p true [] (ping_reply ∷ [])
main_loop-unended_test =
    main_loop-unended peer echo (ping ∷ []) (replicate 256 b'A') [] [] (ping_reply ∷ []) 0
      (asks (ping ∷ replicate 256 b'A' ∷ [])) 5 6 (omega arith, tt) refl refl (refl, refl, refl)
      (ping_reply, 6, [], refl, refl, (refl, refl))

-- The daemon that serves, with redis and MongoDB behind it; the insert fails.
abbrev well : Setup
well = record {
  daemon = record {
    first_fork = 0;
    second_fork = 12;
    opens = true;
    fdopens = true;
    locks = true;
    printed = some 3;
    own_pid = 11;
  };
  redis = ready;
  pings = true;
  inserts = false;
}

well_starts : start well ≡ (
  creates redis_context
      ∷ creates client
      ∷ creates database
      ∷ creates collection
      ∷ creates ping_command
      ∷ creates mongo_reply
      ∷ creates json
      ∷ creates document
      ∷ destroys document
      ∷ destroys mongo_reply
      ∷ destroys ping_command
      ∷ destroys json
      ∷ [],
  serves,
)
unfolding start initialize after_connect start_mongo after_ping daemon_init take_pidfile
well_starts = refl

start-serves_test :
    ((start well).1 ≡ serves)
    ↔ (((daemon_init well.daemon 1).1 ≡ returns) × (well.redis ≡ ready) × (well.pings ≡ true))
start-serves_test = start-serves well

-- ===== src/Publisher/Tests.antt =====
-- Two brokers that publish, at concrete inputs.
use canna.Prelude.{◌≡◌, refl, true, false, [], ◌∷◌, some, arith, replicate, drop}
use canna.Broker.{Frame}
use canna.Publisher.{ping, Publisher, new_publisher, publish_loop}
use canna.Publisher.Heard.{heard, publish_loop-heard, publish_loop-late}

-- "a" and "b"
abbrev a_name : Frame
a_name = b'a' ∷ []

abbrev b_name : Frame
b_name = b'b' ∷ []

-- What "b" has published after two rounds without a message.
abbrev b_published : Publisher
b_published = record { statefe = []; printed = []; statebe = b_name ∷ ping ∷ b_name ∷ ping ∷ [] }

b_publishes : publish_loop b_name (false ∷ false ∷ []) (new_publisher []) ≡ some b_published
unfolding publish_loop canna.Publisher.publish_round new_publisher
b_publishes = refl

publish_loop-heard_test :
    (q : Publisher) × (publish_loop a_name
        (true ∷ false ∷ true ∷ [])
        (new_publisher b_published.statebe)
      ≡ some q)
    × (q.printed ≡ replicate (heard (true ∷ false ∷ true ∷ [])) (b_name, ping))
publish_loop-heard_test =
    publish_loop-heard a_name b_name (true ∷ false ∷ true ∷ []) (false ∷ false ∷ []) [] b_publishes
      (omega arith)

-- "a" hears the second message first.
publish_loop-late_test :
    (q : Publisher) × (publish_loop a_name (true ∷ []) (new_publisher (drop 1 b_published.statebe))
      ≡ some q)
    × (q.printed ≡ replicate (heard (true ∷ [])) (ping, b_name))
publish_loop-late_test =
    publish_loop-late a_name b_name (true ∷ []) (false ∷ false ∷ []) [] b_publishes (omega arith)

-- ===== src/Publisher/Heard.antt =====
-- What a broker hears of another.
use canna.Prelude.{
  ℕ, zero, suc, ◌≤◌, ◌<◌, ◌≡◌, refl, sym, ap, ap₂, some_inj, List-cases, drop, ◌∙◌, inl, inr, Bool,
  true, false, List, [], ◌∷◌, ◌++◌, some, arith, replicate, append_assoc, append-nil,
}
use canna.Broker.{Frame}
use canna.Publisher.{ping, Publisher, new_publisher, hear_peer, publish_round, publish_loop}

-- The rounds in which the poll reports a message, and the others.
abbrev pub heard : List Bool → ℕ
heard [] = 0
heard (true ∷ polls) = suc (heard polls)
heard (false ∷ polls) = heard polls

abbrev pub quiet : List Bool → ℕ
quiet [] = 0
quiet (true ∷ polls) = quiet polls
quiet (false ∷ polls) = suc (quiet polls)

-- Two messages by turns, so many times, before some others.
abbrev pub by_turns : Frame → Frame → ℕ → List Frame → List Frame
by_turns x y zero rest = rest
by_turns x y (suc n) rest = x ∷ y ∷ by_turns x y n rest

abbrev at : List Frame → List (Frame × Frame) → List Frame → Publisher
at statefe printed statebe = record { statefe = statefe; printed = printed; statebe = statebe }

-- A loop that hears two messages by turns prints them in pairs, and publishes where it hears
-- nothing.
publish_loop-by_turns :
    (self x y : Frame) (polls : List Bool) (rest : List Frame) (out : List (Frame × Frame))
    (sent : List Frame)
    → publish_loop self polls (at (by_turns x y (heard polls) rest) out sent)
      ≡ some (
          at rest
            (out ++ replicate (heard polls) (x, y))
            (sent ++ by_turns self ping (quiet polls) []))
unfolding publish_loop publish_round hear_peer
publish_loop-by_turns self x y [] rest out sent =
    ap₂ (λ a b. some (at rest a b)) (sym (append-nil out)) (sym (append-nil sent))
publish_loop-by_turns self x y (true ∷ polls) rest out sent =
    publish_loop-by_turns self x y polls rest (out ++ (x, y) ∷ []) sent
    ∙ ap (λ a. some (at rest a (sent ++ by_turns self ping (quiet polls) [])))
        (append_assoc out ((x, y) ∷ []) (replicate (heard polls) (x, y)))
publish_loop-by_turns self x y (false ∷ polls) rest out sent =
    publish_loop-by_turns self x y polls rest out (sent ++ self ∷ ping ∷ [])
    ∙ ap (λ b. some (at rest (out ++ replicate (heard polls) (x, y)) b))
        (append_assoc sent (self ∷ ping ∷ []) (by_turns self ping (quiet polls) []))

by_turns-more :
    (x y : Frame) (m n : ℕ) (rest : List Frame)
    → m ≤ n
    → (left : List Frame) × (by_turns x y n rest ≡ by_turns x y m left)
by_turns-more x y zero n rest h = (by_turns x y n rest, refl)
by_turns-more x y (suc m) zero rest h = absurd (omega (arith, h))
by_turns-more x y (suc m) (suc n) rest h =
    let (left, e) = by_turns-more x y m n rest (omega (arith, h)) in (left, ap (λ l. x ∷ y ∷ l) e)

-- The same messages from the second on.
by_turns-swap :
    (x y : Frame) (n : ℕ) (rest : List Frame) → y ∷ by_turns x y n rest ≡ by_turns y x n (y ∷ rest)
by_turns-swap x y zero rest = refl
by_turns-swap x y (suc n) rest = ap (λ l. y ∷ x ∷ l) (by_turns-swap x y n rest)

by_turns-late :
    (x y : Frame) (m n : ℕ)
    → m < n
    → (left : List Frame) × (drop 1 (by_turns x y n []) ≡ by_turns y x m left)
by_turns-late x y m zero h = absurd (omega (arith, h))
by_turns-late x y m (suc n) h =
    let (left, e) = by_turns-more y x m n (y ∷ []) (omega (arith, h)) in
    (left, by_turns-swap x y n [] ∙ e)

-- Whatever a broker hears, it publishes its name and "ping" by turns.
publish_loop-statebe :
    (self : Frame) (polls : List Bool) (p : Publisher) {q : Publisher}
    → publish_loop self polls p ≡ some q
    → q.statebe ≡ p.statebe ++ by_turns self ping (quiet polls) []
unfolding publish_loop publish_round hear_peer
publish_loop-statebe self [] p e =
    ap (λ (r : Publisher). r.statebe) (sym (some_inj e)) ∙ sym (append-nil p.statebe)
publish_loop-statebe self (false ∷ polls) p e =
    publish_loop-statebe self polls (record p { statebe = p.statebe ++ self ∷ ping ∷ [] }) e
    ∙ append_assoc p.statebe (self ∷ ping ∷ []) (by_turns self ping (quiet polls) [])
publish_loop-statebe self (true ∷ polls) p {q} e = elim (List-cases p.statefe) [
  | inl none_ ↦ absurd (let f = rw none_ at e in cc)
  | inr (x, rest, one) ↦ elim (List-cases rest) [
    | inl none_ ↦ absurd (let f = rw (one, none_) at e in cc)
    | inr (y, later, two) ↦
        publish_loop-statebe self polls
          (record p { statefe = later; printed = p.printed ++ (x, y) ∷ [] }) (rw (one, two) at e)
  ]
]

-- Two brokers, of which the one hears just what the other has published, in order, and its poll
-- reports a message no more often than that of the other reported none: it does not wait for ever,
-- and for each report it prints the name of the other with "ping".
pub publish_loop-heard :
    (self other : Frame) (polls polls' : List Bool) (statefe : List Frame) {p : Publisher}
    → publish_loop other polls' (new_publisher statefe) ≡ some p
    → heard polls ≤ quiet polls'
    → (q : Publisher) × (publish_loop self polls (new_publisher p.statebe) ≡ some q)
      × (q.printed ≡ replicate (heard polls) (other, ping))
unfolding new_publisher
publish_loop-heard self other polls polls' statefe e few =
    let published = publish_loop-statebe other polls' (new_publisher statefe) e in
    let (left, more) = by_turns-more other ping (heard polls) (quiet polls') [] few in
    (
      at left (replicate (heard polls) (other, ping)) (by_turns self ping (quiet polls) []),
      rw (published, more) (publish_loop-by_turns self other ping polls left [] []),
      refl,
    )

-- Where it hears the other only from the second message on, it takes "ping" for the name in every
-- pair, and the name for the number of free workers.
pub publish_loop-late :
    (self other : Frame) (polls polls' : List Bool) (statefe : List Frame) {p : Publisher}
    → publish_loop other polls' (new_publisher statefe) ≡ some p
    → heard polls < quiet polls'
    → (q : Publisher) × (publish_loop self polls (new_publisher (drop 1 p.statebe)) ≡ some q)
      × (q.printed ≡ replicate (heard polls) (ping, other))
unfolding new_publisher
publish_loop-late self other polls polls' statefe e few =
    let published = publish_loop-statebe other polls' (new_publisher statefe) e in
    let (left, more) = by_turns-late other ping (heard polls) (quiet polls') few in
    (
      at left (replicate (heard polls) (ping, other)) (by_turns self ping (quiet polls) []),
      rw (published, more) (publish_loop-by_turns self ping other polls left [] []),
      refl,
    )

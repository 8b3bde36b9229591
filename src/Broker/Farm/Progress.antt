-- ===== src/Broker/Farm/Progress.antt =====
-- example/lbbroker.cpp: what can happen next, and the steps that are left.
use canna.Prelude.{
  tally, one, tally-replaced, tally-at, tally-le, Found, tally-Found, ℕ, ◌+◌, ◌*◌, ◌≡◌, ◌≤◌, ◌⊎◌,
  refl, sym, ap, ◌∙◌, inl, inr, Bool, true, false, List, [], ◌∷◌, ◌++◌, Option, none, some, length,
  arith, Bool-cases, ==_iff, subst, List-cases,
}
use canna.Broker.{
  Frame, frame_eq, FromWorker, FromClient, Broker, Turn, goes_on, breaks, take_backend,
  take_frontend, has_worker,
}
use canna.Broker.Replies.{frame_eq-true}
use canna.Broker.Farm.{
  ok, hello, Client, fresh, asked, taken, answered, Worker, starting, announces, waits, busy,
  replies, Farm, no_worker, hears_ready, hears_reply, no_client, gives, Step, asks, registers,
  works, rounds, wakes,
}
use canna.Broker.Farm.Tally.{
  is_frame, waiting, serving, served, unanswered, worker_left, client_left,
}
use canna.Broker.Farm.Kept.{is_over, IsValid, FarmIsValid, not_ready}
use canna.Broker.Farm.Sent.{
  Took, took_none, took_ready, took_reply, Gave, gave_none, gave_job, gave, from_client-gave,
  take_frontend-gave, ready-no_reply, reply-replies, Takes-Took, Gives-Gave,
}

abbrev pub left : List Worker → List Client → ℕ
left ws cs = tally worker_left ws + tally client_left cs

Takes-left :
    {ws ws' : List Worker} {cs cs' : List Client} {m : Option FromWorker}
    → Took ws cs m ws' cs'
    → one (wakes m none) + left ws' cs' ≡ left ws cs
Takes-left took_none = omega arith
Takes-left {ws = ws} (took_ready before after w e) =
    omega (arith, tally-replaced worker_left ws before after (announces w) (waits w) e)
Takes-left {ws = ws} {cs = cs} (took_reply before after front back w c e k) = omega (
  arith,
  tally-replaced worker_left ws before after (replies w c) (waits w) e,
  tally-replaced client_left cs front back (taken c) (answered c ok) k,
)

Gives-left :
    {polled : Bool} {t : Turn} {ws ws' : List Worker} {cs cs' : List Client} {n : Option FromClient}
    → Gave polled t ws cs n ws' cs'
    → one (wakes none n) + left ws' cs' ≡ left ws cs
Gives-left gave_none = omega arith
Gives-left {ws = ws} {cs = cs} (gave_job before after front back b w c rest p turns front_is e k) =
    omega (
      arith,
      tally-replaced worker_left ws before after (waits w) (busy w c) e,
      tally-replaced client_left cs front back (asked c) (taken c) k,
    )

woken_lem :
    (m : Option FromWorker) (n : Option FromClient)
    → wakes m n ≡ true
    → 1 ≤ one (wakes m none) + one (wakes none n)
woken_lem none none h = cc
woken_lem none (some n) h = omega arith
woken_lem (some m) none h = omega arith
woken_lem (some m) (some n) h = omega arith

pub Step-left : {f g : Farm} → Step f g → 1 + left g.workers g.clients ≤ left f.workers f.clients
Step-left {f} (asks front back c k) =
    omega (arith, tally-replaced client_left f.clients front back (fresh c) (asked c) k)
Step-left {f} (registers before after w e) =
    omega (arith, tally-replaced worker_left f.workers before after (starting w) (announces w) e)
Step-left {f} (works before after w c e) =
    omega (arith, tally-replaced worker_left f.workers before after (busy w c) (replies w c) e)
Step-left (rounds {m = m} {n = n} turns woken takes gives_ made) =
    omega
      (arith, woken_lem m n woken, Takes-left (Takes-Took takes), Gives-left (Gives-Gave gives_))

is_frame-same : (x y : Frame) → 1 ≤ is_frame x y → y ≡ x
is_frame-same x y h = elim (Bool-cases (frame_eq x y)) [
  | inl e ↦ sym (frame_eq-true x y e)
  | inr e ↦ let none_of : is_frame x y ≡ 0 = rw e refl in absurd (omega (arith, h, none_of))
]

is_frame_refl : (x : Frame) → is_frame x x ≡ 1
is_frame_refl [] = refl
is_frame_refl (y ∷ x) = ground (arith, is_frame_refl x)

-- A client that is being served, and a worker that waits, of a given identity.
served-taken :
    (x : Frame) (cs : List Client)
    → 1 ≤ tally (served x) cs
    → (front : List Client) × (back : List Client) × (cs ≡ front ++ taken x ∷ back)
served-taken x cs h = elim (tally-Found (served x) cs) [
  | inl e ↦ absurd (omega (arith, e, h))
  | inr (front, taken c, back, e, one_of) ↦
      (front, back, e ∙ ap (λ i. front ++ taken i ∷ back) (is_frame-same x c one_of))
  | inr (front, fresh c, back, e, one_of) ↦ absurd (omega (arith, one_of))
  | inr (front, asked c, back, e, one_of) ↦ absurd (omega (arith, one_of))
  | inr (front, answered c r, back, e, one_of) ↦ absurd (omega (arith, one_of))
]

waiting-waits :
    (x : Frame) (ws : List Worker)
    → 1 ≤ tally (waiting x) ws
    → (before : List Worker) × (after : List Worker) × (ws ≡ before ++ waits x ∷ after)
waiting-waits x ws h = elim (tally-Found (waiting x) ws) [
  | inl e ↦ absurd (omega (arith, e, h))
  | inr (before, waits w, after, e, one_of) ↦
      (before, after, e ∙ ap (λ i. before ++ waits i ∷ after) (is_frame-same x w one_of))
  | inr (before, starting w, after, e, one_of) ↦ absurd (omega (arith, one_of))
  | inr (before, announces w, after, e, one_of) ↦ absurd (omega (arith, one_of))
  | inr (before, busy w c, after, e, one_of) ↦ absurd (omega (arith, one_of))
  | inr (before, replies w c, after, e, one_of) ↦ absurd (omega (arith, one_of))
]

-- Where all the workers wait, there is one in the queue.
first_waits :
    (ws : List Worker)
    → tally worker_left ws ≡ 0
    → 1 ≤ length ws
    → (x : Frame) × (1 ≤ tally (waiting x) ws)
first_waits [] e h = absurd (omega (arith, h))
first_waits (starting w ∷ ws) e h = absurd (omega (arith, e))
first_waits (announces w ∷ ws) e h = absurd (omega (arith, e))
first_waits (busy w c ∷ ws) e h = absurd (omega (arith, e))
first_waits (replies w c ∷ ws) e h = absurd (omega (arith, e))
first_waits (waits w ∷ ws) e h = (w, omega (arith, is_frame_refl w))

front_waits :
    {cs : List Client} {ws : List Worker} (b : Broker)
    → IsValid cs ws (goes_on b)
    → tally worker_left ws ≡ 0
    → (w : Frame) × (rest : List Frame) × (before : List Worker) × (after : List Worker)
      × (b.worker_queue ≡ w ∷ rest)
      × (ws ≡ before ++ waits w ∷ after)
front_waits {ws = ws} b v e =
    let (x, h) = first_waits ws e v.crew in
    elim (List-cases b.worker_queue) [
      | inl nobody ↦
          let q = ap (tally (is_frame x)) nobody in absurd (omega (arith, q, h, v.queued x))
      | inr (w, rest, front_is) ↦
          let q = ap (tally (is_frame w)) front_is in
          let (before, after, found) =
            waiting-waits w ws (omega (arith, q, is_frame_refl w, v.queued w)) in
          (w, rest, before, after, front_is, found)
    ]

one-le : (b : Bool) → one b ≤ 1
one-le true = omega arith
one-le false = omega arith

serving-le : (x : Frame) (w : Worker) → serving x w ≤ 1 * worker_left w
serving-le x (starting w) = omega arith
serving-le x (announces w) = omega arith
serving-le x (waits w) = omega arith
serving-le x (busy w c) = omega (arith, one-le (frame_eq x c))
serving-le x (replies w c) = omega (arith, one-le (frame_eq x c))

take_frontend-none : (polled : Bool) (t : Turn) → take_frontend none polled t ≡ some t
unfolding take_frontend
take_frontend-none polled (goes_on b) = refl
take_frontend-none polled (breaks b) = refl

-- What can happen where some worker does not wait, and where all wait.
abbrev pub Moves : Farm → Type 0
Moves f = (g : Farm) × Step f g

worker-Moves :
    (f : Farm) (b : Broker)
    → FarmIsValid f
    → f.turn ≡ goes_on b
    → Found worker_left f.workers
    → Moves f
worker-Moves f b v turns (before, starting w, after, e, h) = (_, registers before after w e)
worker-Moves f b v turns (before, waits w, after, e, h) = absurd (omega (arith, h))
worker-Moves f b v turns (before, busy w c, after, e, h) = (_, works before after w c e)
worker-Moves f b v turns (before, announces w, after, e, h) = (
  _,
  rounds turns refl (hears_ready before after w e (ready-no_reply w b)) no_client
      (take_frontend-none _ _),
)
worker-Moves f b v turns (before, replies w c, after, e, h) =
    let m : FromWorker = record { worker = w; client_addr = c; reply = ok } in
    let s = tally-at (serving c) f.workers before after (replies w c) e in
    let (front, back, k) =
      served-taken c f.clients (omega (arith, s, is_frame_refl c, v.balanced c)) in
    (
      _,
      rounds turns refl
          (hears_reply before after front back w c c ok e
            (reply-replies m b (not_ready f.clients front back c v.right k)) k)
          no_client (take_frontend-none _ _),
    )

client-Moves :
    (f : Farm) (b : Broker)
    → FarmIsValid f
    → f.turn ≡ goes_on b
    → tally worker_left f.workers ≡ 0
    → Found unanswered f.clients
    → Moves f
unfolding take_backend
client-Moves f b v turns none_left (front, fresh c, back, k, h) = (_, asks front back c k)
client-Moves f b v turns none_left (front, answered c r, back, k, h) = absurd (omega (arith, h))
client-Moves f b v turns none_left (front, taken c, back, k, h) =
    let s = tally-at (served c) f.clients front back (taken c) k in
    let l = tally-le (serving c) worker_left 1 f.workers (serving-le c) in
    absurd (omega (arith, s, l, is_frame_refl c, v.balanced c, none_left))
client-Moves f b v turns none_left (front, asked c, back, k, h) =
    let (w, rest, before, after, front_is, e) =
      front_waits b (subst (IsValid f.clients f.workers) turns v) none_left in
    let r : FromClient = record { client_addr = c; request = hello } in
    let polled : has_worker b.worker_queue ≡ true = rw front_is refl in
    (
      _,
      rounds {m = none} turns refl no_worker
          (gives before after front back b (gave r b w rest) c
            (record { worker_addr = w; client_addr = c; request = hello }) polled refl
            (from_client-gave r b w rest front_is) refl e k)
          (take_frontend-gave _ _ (goes_on b) b w rest polled refl front_is),
    )

over-cases : (t : Turn) → (is_over t ≡ true) ⊎ ((b : Broker) × (t ≡ goes_on b))
over-cases (breaks b) = inl refl
over-cases (goes_on b) = inr (b, refl)

pub progress : (f : Farm) → FarmIsValid f → (is_over f.turn ≡ true) ⊎ Moves f
progress f v = elim (over-cases f.turn) [
  | inl e ↦ inl e
  | inr (b, turns) ↦ inr (elim (tally-Found worker_left f.workers) [
    | inr found ↦ worker-Moves f b v turns found
    | inl none_left ↦ elim (tally-Found unanswered f.clients) [
      | inr found ↦ client-Moves f b v turns none_left found
      | inl e ↦ absurd (still_open f b v turns e)
    ]
  ])
]
  where
    still_open :
        (f : Farm) (b : Broker)
        → FarmIsValid f
        → f.turn ≡ goes_on b
        → tally unanswered f.clients ≡ 0
        → ⊥
    still_open f b v turns e =
        let v' : IsValid f.clients f.workers (goes_on b) =
          subst (IsValid f.clients f.workers) turns v in
        let (to, from) = ==_iff b.client_count 0 in
        let ended = v'.leaves ∙ from (v'.counted ∙ e) in cc

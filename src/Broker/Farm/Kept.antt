-- ===== src/Broker/Farm/Kept.antt =====
-- What holds between the threads and the variables of `main`.
use canna.Prelude.{
  tally, one, tally-append, tally-replaced, tally-at, ℕ, ◌-◌, ◌≡◌, ◌≤◌, refl, sym, ap, ◌∙◌, inl,
  inr, Bool, true, false, List, [], ◌∷◌, ◌++◌, Option, some, length, length-append, arith,
  Bool-cases, ◌==◌, if◌then◌else◌, subst, some_inj,
}
use canna.Broker.{
  Frame, ready, frame_eq, FromWorker, FromClient, Broker, Turn, goes_on, breaks, from_worker,
  take_backend, take_frontend,
}
use canna.Broker.Balance.{broker_of}
use canna.Broker.Replies.{answered as answered_broker, from_worker-answered}
use canna.Broker.Farm.{
  ok, hello, Client, fresh, asked, taken, answered, Worker, starting, announces, waits, busy,
  replies, Farm, Step, asks, registers, works, rounds,
}
use canna.Broker.Farm.Sent.{
  Took, took_none, took_ready, took_reply, Gave, gave_none, gave_job, take_frontend-gave,
  Takes-Took, Gives-Gave,
}
use canna.Broker.Farm.Tally.{is_frame, waiting, serving, served, unanswered, wrong}

abbrev pub is_over : Turn → Bool
is_over (goes_on b) = false
is_over (breaks b) = true

-- The queue holds the workers that wait; the clients whose requests are taken are those that the
-- workers serve; `client_count` is the number of clients without an answer, and the loop has been
-- left just when it is 0.
pub record IsValid (cs : List Client) (ws : List Worker) (t : Turn) : Type 0 where
  pub queued : (x : Frame) → tally (is_frame x) (broker_of t).worker_queue ≡ tally (waiting x) ws
  pub balanced : (x : Frame) → tally (served x) cs ≡ tally (serving x) ws
  pub right : tally wrong cs ≡ 0
  pub counted : (broker_of t).client_count ≡ tally unanswered cs
  pub leaves : is_over t ≡ ((broker_of t).client_count == 0)
  pub crew : 1 ≤ length ws

replaced-length {ℓ} :
    {A : Type ℓ} (xs before after : List A) (v w : A)
    → xs ≡ before ++ v ∷ after
    → length (before ++ w ∷ after) ≡ length xs
replaced-length xs before after v w e =
    let h = ap length e in
    omega (arith, h, length-append before (v ∷ after), length-append before (w ∷ after))

last_lem : (n : ℕ) → 1 ≤ n → (n == 1) ≡ ((n - 1) == 0)
last_lem n h = ground arith

pub not_ready :
    (cs : List Client) (front back : List Client) (c : Frame)
    → tally wrong cs ≡ 0
    → cs ≡ front ++ taken c ∷ back
    → frame_eq c ready ≡ false
not_ready cs front back c right k = elim (Bool-cases (frame_eq c ready)) [
  | inr e ↦ e
  | inl e ↦
      let h = tally-at wrong cs front back (taken c) k in
      let one_of : one (frame_eq c ready) ≡ 1 = rw e refl in
      absurd (omega (arith, h, right, one_of))
]

-- A turn that ends just if the count of clients was 1.
left_lem :
    (cs : List Client) (ws : List Worker) (b : Broker) (last : Bool)
    → ((t : Turn) → is_over t ≡ last → broker_of t ≡ b → IsValid cs ws t)
    → IsValid cs ws (if last then breaks b else goes_on b)
left_lem cs ws b true h = h (breaks b) refl refl
left_lem cs ws b false h = h (goes_on b) refl refl

Takes-IsValid :
    {cs cs' : List Client} {ws ws' : List Worker} {m : Option FromWorker} (b : Broker)
    → IsValid cs ws (goes_on b)
    → Took ws cs m ws' cs'
    → IsValid cs' ws' (take_backend m b)
unfolding take_backend from_worker
Takes-IsValid b v took_none = v
Takes-IsValid {ws = ws} b v (took_ready before after w e) = record {
  queued = λ x.
      let r = tally-replaced (waiting x) ws before after (announces w) (waits w) e in
      omega (arith, r, v.queued x, tally-append (is_frame x) b.worker_queue (w ∷ []));
  balanced = λ x.
      let r = tally-replaced (serving x) ws before after (announces w) (waits w) e in
      omega (arith, r, v.balanced x);
  right = v.right;
  counted = v.counted;
  leaves = v.leaves;
  crew =
      let r = replaced-length ws before after (announces w) (waits w) e in omega (arith, r, v.crew);
}
Takes-IsValid {cs = cs} {ws = ws} b v (took_reply before after front back w c e k) =
    let m : FromWorker = record { worker = w; client_addr = c; reply = ok } in
    let u = tally-replaced unanswered cs front back (taken c) (answered c ok) k in
    let a = tally-at unanswered cs front back (taken c) k in
    subst (IsValid (front ++ answered c ok ∷ back) (before ++ waits w ∷ after))
      (sym (from_worker-answered m b (not_ready cs front back c v.right k)))
      (left_lem (front ++ answered c ok ∷ back) (before ++ waits w ∷ after) (answered_broker m b)
        (b.client_count == 1)
        (λ t over same. record {
          queued = λ x.
              let r = tally-replaced (waiting x) ws before after (replies w c) (waits w) e in
              rw same
                (omega (arith, r, v.queued x, tally-append (is_frame x) b.worker_queue (w ∷ [])));
          balanced = λ x.
              let r = tally-replaced (serving x) ws before after (replies w c) (waits w) e in
              let s = tally-replaced (served x) cs front back (taken c) (answered c ok) k in
              omega (arith, r, s, v.balanced x);
          right =
              let r = tally-replaced wrong cs front back (taken c) (answered c ok) k in
              let h = tally-at wrong cs front back (taken c) k in omega (arith, r, h, v.right);
          counted = rw same (omega (arith, u, a, v.counted));
          leaves =
              over
              ∙ last_lem b.client_count (omega (arith, a, v.counted))
              ∙ ap (λ z. z.client_count == 0) (sym same);
          crew =
              let r = replaced-length ws before after (replies w c) (waits w) e in
              omega (arith, r, v.crew);
        }))

Gives-IsValid :
    {cs cs' : List Client} {ws ws' : List Worker} {n : Option FromClient} {polled : Bool}
    (t u : Turn)
    → IsValid cs ws t
    → Gave polled t ws cs n ws' cs'
    → take_frontend n polled t ≡ some u
    → IsValid cs' ws' u
unfolding take_frontend
Gives-IsValid (goes_on b) u v gave_none made = subst (IsValid _ _) (some_inj made) v
Gives-IsValid (breaks b) u v gave_none made = subst (IsValid _ _) (some_inj made) v
Gives-IsValid {cs = cs} {ws = ws} {polled = polled} t u v
      (gave_job before after front back b w c rest p turns front_is e k) made =
    let given =
      take_frontend-gave (record { client_addr = c; request = hello }) polled t b w rest p turns
        front_is in
    let v' : IsValid cs ws (goes_on b) = subst (IsValid cs ws) turns v in
    subst (IsValid _ _) (some_inj (sym given ∙ made)) (record {
      queued = λ x.
          let r = tally-replaced (waiting x) ws before after (waits w) (busy w c) e in
          let q = ap (tally (is_frame x)) front_is in omega (arith, r, q, v'.queued x);
      balanced = λ x.
          let r = tally-replaced (serving x) ws before after (waits w) (busy w c) e in
          let s = tally-replaced (served x) cs front back (asked c) (taken c) k in
          omega (arith, r, s, v'.balanced x);
      right =
          let r = tally-replaced wrong cs front back (asked c) (taken c) k in
          omega (arith, r, v'.right);
      counted =
          let r = tally-replaced unanswered cs front back (asked c) (taken c) k in
          omega (arith, r, v'.counted);
      leaves = v'.leaves;
      crew =
          let r = replaced-length ws before after (waits w) (busy w c) e in
          omega (arith, r, v'.crew);
    })

abbrev pub FarmIsValid : Farm → Type 0
FarmIsValid f = IsValid f.clients f.workers f.turn

-- A thread in a new state that counts as its old one.
same_client :
    (cs : List Client) (ws : List Worker) (t : Turn) (front back : List Client) (old new : Client)
    → IsValid cs ws t
    → cs ≡ front ++ old ∷ back
    → ((x : Frame) → served x new ≡ served x old)
    → wrong new ≡ wrong old
    → unanswered new ≡ unanswered old
    → IsValid (front ++ new ∷ back) ws t
same_client cs ws t front back old new v k s w u = record {
  queued = v.queued;
  balanced =
      λ x. omega (arith, tally-replaced (served x) cs front back old new k, s x, v.balanced x);
  right = omega (arith, tally-replaced wrong cs front back old new k, w, v.right);
  counted = omega (arith, tally-replaced unanswered cs front back old new k, u, v.counted);
  leaves = v.leaves;
  crew = v.crew;
}

same_worker :
    (cs : List Client) (ws : List Worker) (t : Turn) (before after : List Worker) (old new : Worker)
    → IsValid cs ws t
    → ws ≡ before ++ old ∷ after
    → ((x : Frame) → waiting x new ≡ waiting x old)
    → ((x : Frame) → serving x new ≡ serving x old)
    → IsValid cs (before ++ new ∷ after) t
same_worker cs ws t before after old new v e s u = record {
  queued =
      λ x. omega (arith, tally-replaced (waiting x) ws before after old new e, s x, v.queued x);
  balanced =
      λ x. omega (arith, tally-replaced (serving x) ws before after old new e, u x, v.balanced x);
  right = v.right;
  counted = v.counted;
  leaves = v.leaves;
  crew = omega (arith, replaced-length ws before after old new e, v.crew);
}

pub Step-IsValid : {f g : Farm} → FarmIsValid f → Step f g → FarmIsValid g
Step-IsValid {f} v (asks front back c k) =
    same_client f.clients f.workers f.turn front back (fresh c) (asked c) v k (λ x. refl) refl refl
Step-IsValid {f} v (registers before after w e) =
    same_worker f.clients f.workers f.turn before after (starting w) (announces w) v e (λ x. refl)
      (λ x. refl)
Step-IsValid {f} v (works before after w c e) =
    same_worker f.clients f.workers f.turn before after (busy w c) (replies w c) v e (λ x. refl)
      (λ x. refl)
Step-IsValid {f} v (rounds {b = b} {m = m} {u = u} turns woken takes gives_ made) =
    Gives-IsValid (take_backend m b) u
      (Takes-IsValid b (subst (IsValid f.clients f.workers) turns v) (Takes-Took takes))
      (Gives-Gave gives_) made

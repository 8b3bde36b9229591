-- ===== src/Broker/Farm/Sent.antt =====
-- What `main` sends in a round, by address: the answer goes to the client that the worker named,
-- the job to the worker at the front.
use canna.Prelude.{
  ◌≡◌, refl, sym, ap, ◌∙◌, inl, inr, Bool, true, false, List, [], ◌∷◌, ◌++◌, Option, none, some,
  length, length-append, arith, Bool-cases, List-cases, ◌==◌, if◌then◌else◌, subst, some_inj,
}
use canna.Broker.{
  Frame, ready, frame_eq, FromWorker, FromClient, Job, Broker, Turn, goes_on, breaks, from_worker,
  from_client, take_backend, take_frontend,
}
use canna.Broker.Replies.{answered as answered_broker, from_worker-answered}
use canna.Broker.Farm.{
  ok, hello, Client, asked, taken, answered, Worker, announces, waits, busy, replies, replies_of,
  Takes, no_worker, hears_ready, hears_reply, Gives, no_client, gives,
}

-- A round's first and second message with the threads that its outcome depends on.
pub data Took (ws : List Worker) (cs : List Client)
    : Option FromWorker → List Worker → List Client → Type 0 where
  took_none : Took ws cs none ws cs
  took_ready :
      (before after : List Worker) (w : Frame)
      → ws ≡ before ++ announces w ∷ after
      → Took ws cs
          (some (record { worker = w; client_addr = ready; reply = [] }))
          (before ++ waits w ∷ after)
          cs
  took_reply :
      (before after : List Worker) (front back : List Client) (w c : Frame)
      → ws ≡ before ++ replies w c ∷ after
      → cs ≡ front ++ taken c ∷ back
      → Took ws cs
          (some (record { worker = w; client_addr = c; reply = ok }))
          (before ++ waits w ∷ after)
          (front ++ answered c ok ∷ back)

pub data Gave (polled : Bool) (t : Turn) (ws : List Worker) (cs : List Client)
    : Option FromClient → List Worker → List Client → Type 0 where
  gave_none : Gave polled t ws cs none ws cs
  gave_job :
      (before after : List Worker) (front back : List Client) (b : Broker) (w c : Frame)
      (rest : List Frame)
      → polled ≡ true
      → t ≡ goes_on b
      → b.worker_queue ≡ w ∷ rest
      → ws ≡ before ++ waits w ∷ after
      → cs ≡ front ++ asked c ∷ back
      → Gave polled t ws cs
          (some (record { client_addr = c; request = hello }))
          (before ++ busy w c ∷ after)
          (front ++ taken c ∷ back)

-- A request goes to the worker at the front.
abbrev pub gave : FromClient → Broker → Frame → List Frame → Broker
gave r b w rest = record b {
  worker_queue = rest;
  jobs =
      b.jobs ++ record { worker_addr = w; client_addr = r.client_addr; request = r.request } ∷ [];
}

pub from_client-gave :
    (r : FromClient) (b : Broker) (w : Frame) (rest : List Frame)
    → b.worker_queue ≡ w ∷ rest
    → from_client r b ≡ some (gave r b w rest)
unfolding from_client
from_client-gave r b w rest front_is = rw front_is refl

pub take_frontend-gave :
    (r : FromClient) (polled : Bool) (t : Turn) (b : Broker) (w : Frame) (rest : List Frame)
    → polled ≡ true
    → t ≡ goes_on b
    → b.worker_queue ≡ w ∷ rest
    → take_frontend (some r) polled t ≡ some (goes_on (gave r b w rest))
unfolding take_frontend
take_frontend-gave r polled t b w rest p turns front_is =
    let made = from_client-gave r b w rest front_is in rw (p, turns) (rw (made, take_frontend) refl)

last_inj {ℓ} : {A : Type ℓ} (xs : List A) (x y : A) → xs ++ x ∷ [] ≡ xs ++ y ∷ [] → x ≡ y
last_inj [] x y e = cc
last_inj (z ∷ xs) x y e = last_inj xs x y (cc)

not_longer {ℓ} : {A : Type ℓ} (xs : List A) (x : A) → xs ≡ xs ++ x ∷ [] → ⊥
not_longer xs x e = let h = ap length e in omega (arith, h, length-append xs (x ∷ []))

pub ready-no_reply :
    (w : Frame) (b : Broker)
    → (replies_of (take_backend (some (record { worker = w; client_addr = ready; reply = [] })) b)
        ≡ b.replies)
unfolding take_backend from_worker
ready-no_reply w b = refl

answered-replies :
    (m : FromWorker) (b : Broker) (last : Bool)
    → (replies_of (if last then breaks (answered_broker m b) else goes_on (answered_broker m b))
        ≡ b.replies ++ (m.client_addr, m.reply) ∷ [])
answered-replies m b true = refl
answered-replies m b false = refl

pub reply-replies :
    (m : FromWorker) (b : Broker)
    → frame_eq m.client_addr ready ≡ false
    → replies_of (take_backend (some m) b) ≡ b.replies ++ (m.client_addr, m.reply) ∷ []
unfolding take_backend
reply-replies m b other =
    ap replies_of (from_worker-answered m b other) ∙ answered-replies m b (b.client_count == 1)

announced-replies :
    (m : FromWorker) (b : Broker)
    → frame_eq m.client_addr ready ≡ true
    → replies_of (take_backend (some m) b) ≡ b.replies
unfolding take_backend from_worker
announced-replies m b h = rw h refl

-- The one reply that `main` has sent is the worker's, to the client that the worker named.
sent_reply :
    (m : FromWorker) (b : Broker) (a r : Frame)
    → replies_of (take_backend (some m) b) ≡ b.replies ++ (a, r) ∷ []
    → ◌≡◌ {A = Frame × Frame} (m.client_addr, m.reply) (a, r)
sent_reply m b a r sent = elim (Bool-cases (frame_eq m.client_addr ready)) [
  | inl e ↦ absurd (not_longer b.replies (a, r) (sym (announced-replies m b e) ∙ sent))
  | inr e ↦
      last_inj {A = Frame × Frame} b.replies (m.client_addr, m.reply) (a, r)
        (sym (reply-replies m b e) ∙ sent)
]

pub Takes-Took :
    {ws ws' : List Worker} {cs cs' : List Client} {m : Option FromWorker} {b : Broker}
    → Takes b ws cs m ws' cs'
    → Took ws cs m ws' cs'
Takes-Took no_worker = took_none
Takes-Took (hears_ready before after w e sent) = took_ready before after w e
Takes-Took {ws = ws} {cs = cs} {b = b} (hears_reply before after front back w c a r e sent k) =
    let m : FromWorker = record { worker = w; client_addr = c; reply = ok } in
    let same = sent_reply m b a r sent in
    let k' : cs ≡ front ++ taken c ∷ back = k ∙ ap (λ q. front ++ taken q.0 ∷ back) (sym same) in
    subst (λ q. Took ws cs (some m) (before ++ waits w ∷ after) (front ++ answered q.0 q.1 ∷ back))
      same (took_reply before after front back w c e k')

-- The one job that `main` has sent is the client's request, to the worker at the front.
sent_job :
    (r : FromClient) (b sent : Broker) (j : Job)
    → from_client r b ≡ some sent
    → sent.jobs ≡ b.jobs ++ j ∷ []
    → (rest : List Frame) × (b.worker_queue ≡ j.worker_addr ∷ rest)
      × (j.client_addr ≡ r.client_addr)
unfolding from_client
sent_job r b sent j made grown = elim (List-cases b.worker_queue) [
  | inl nobody ↦ absurd (let e = rw nobody at made in cc)
  | inr (w, rest, front_is) ↦
      let same : gave r b w rest ≡ sent =
        some_inj (sym (from_client-gave r b w rest front_is) ∙ made) in
      let job : record { worker_addr = w; client_addr = r.client_addr; request = r.request } ≡ j =
        last_inj b.jobs _ j (ap (λ z. z.jobs) same ∙ grown) in
      (rest, front_is ∙ ap (λ z. z.worker_addr ∷ rest) job, ap (λ z. z.client_addr) (sym job))
]

pub Gives-Gave :
    {ws ws' : List Worker} {cs cs' : List Client} {n : Option FromClient} {polled : Bool} {t : Turn}
    → Gives polled t ws cs n ws' cs'
    → Gave polled t ws cs n ws' cs'
Gives-Gave no_client = gave_none
Gives-Gave {ws = ws} {cs = cs} {polled = polled} {t = t}
      (gives before after front back b sent c j p turns made grown e k) =
    let r : FromClient = record { client_addr = c; request = hello } in
    let (rest, front_is, addr) = sent_job r b sent j made grown in
    subst
      (λ x.
        Gave polled t ws cs (some r) (before ++ busy j.worker_addr x ∷ after)
          (front ++ taken c ∷ back))
      (sym addr) (gave_job before after front back b j.worker_addr c rest p turns front_is e k)

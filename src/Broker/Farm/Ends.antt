-- ===== src/Broker/Farm/Ends.antt =====
-- example/lbbroker.cpp: how the whole program ends.
use canna.Prelude.{
  tally, one, ℕ, ◌+◌, ◌*◌, ◌≡◌, ◌≤◌, ◌⊎◌, refl, sym, ap, ◌∙◌, inl, inr, Bool, true, List, [], ◌∷◌,
  ◌++◌, length, arith, Bool-cases, ==_iff, map, map-append, not,
}
use canna.Core.{set_id}
use canna.Broker.{Frame, frame_eq}
use canna.Broker.Replies.{not-ready, frame_eq-true}
use canna.Broker.Balance.{broker_of}
use canna.Broker.Farm.{
  ok, Client, fresh, asked, taken, answered, Worker, starting, Farm, Step, asks, registers, works,
  rounds, set_ids, all_distinct, started, Runs, begins, next,
}
use canna.Broker.Farm.Sent.{
  Took, took_none, took_ready, took_reply, Gave, gave_none, gave_job, Takes-Took, Gives-Gave,
}
use canna.Broker.Farm.Tally.{waiting, serving, served, unanswered, wrong, worker_left, client_left}
use canna.Broker.Farm.Kept.{is_over, FarmIsValid, Step-IsValid}
use canna.Broker.Farm.Progress.{left, Step-left, progress}

abbrev pub identity_of : Client → Frame
identity_of (fresh c) = c
identity_of (asked c) = c
identity_of (taken c) = c
identity_of (answered c reply) = c

-- Every client has received "OK".
abbrev pub AllServed : List Client → Type 0
AllServed [] = Unit
AllServed (fresh c ∷ cs) = ⊥
AllServed (asked c ∷ cs) = ⊥
AllServed (taken c ∷ cs) = ⊥
AllServed (answered c reply ∷ cs) = (reply ≡ ok) × AllServed cs

wrong-ok : (reply : Frame) → one (not (frame_eq reply ok)) ≡ 0 → reply ≡ ok
wrong-ok reply h = elim (Bool-cases (frame_eq reply ok)) [
  | inl e ↦ frame_eq-true reply ok e
  | inr e ↦
      let one_of : one (not (frame_eq reply ok)) ≡ 1 = rw e refl in
      absurd (omega (arith, h, one_of))
]

tally-AllServed : (cs : List Client) → tally unanswered cs ≡ 0 → tally wrong cs ≡ 0 → AllServed cs
tally-AllServed [] u h = tt
tally-AllServed (fresh c ∷ cs) u h = absurd (omega (arith, u))
tally-AllServed (asked c ∷ cs) u h = absurd (omega (arith, u))
tally-AllServed (taken c ∷ cs) u h = absurd (omega (arith, u))
tally-AllServed (answered c reply ∷ cs) u h =
    (wrong-ok reply (omega (arith, h)), tally-AllServed cs (omega (arith, u)) (omega (arith, h)))

same_place :
    (cs front back : List Client) (old new : Client)
    → cs ≡ front ++ old ∷ back
    → identity_of new ≡ identity_of old
    → map identity_of (front ++ new ∷ back) ≡ map identity_of cs
same_place cs front back old new k same =
    map-append identity_of front (new ∷ back)
    ∙ ap (λ i. map identity_of front ++ i ∷ map identity_of back) same
    ∙ sym (map-append identity_of front (old ∷ back))
    ∙ ap (map identity_of) (sym k)

Takes-identities :
    {ws ws' : List Worker} {cs cs' : List Client} {m : _}
    → Took ws cs m ws' cs'
    → map identity_of cs' ≡ map identity_of cs
Takes-identities took_none = refl
Takes-identities (took_ready before after w e) = refl
Takes-identities {cs = cs} (took_reply before after front back w c e k) =
    same_place cs front back (taken c) (answered c ok) k refl

Gives-identities :
    {polled : Bool} {t : _} {ws ws' : List Worker} {cs cs' : List Client} {n : _}
    → Gave polled t ws cs n ws' cs'
    → map identity_of cs' ≡ map identity_of cs
Gives-identities gave_none = refl
Gives-identities {cs = cs} (gave_job before after front back b w c rest p turns front_is e k) =
    same_place cs front back (asked c) (taken c) k refl

Step-identities : {f g : Farm} → Step f g → map identity_of g.clients ≡ map identity_of f.clients
Step-identities {f} (asks front back c k) =
    same_place f.clients front back (fresh c) (asked c) k refl
Step-identities (registers before after w e) = refl
Step-identities (works before after w c e) = refl
Step-identities (rounds turns woken takes gives_ made) =
    Gives-identities (Gives-Gave gives_) ∙ Takes-identities (Takes-Took takes)

tally-const :
    {A : Type 0} (f : A → ℕ) (g : Frame → A) (k : ℕ) (ids : List (ℕ × ℕ))
    → ((i : ℕ × ℕ) → f (g (set_id i.0 i.1)) ≡ k)
    → tally f (map g (set_ids ids)) ≡ k * length ids
tally-const f g k [] h = omega arith
tally-const f g k (i ∷ ids) h = grind (arith, h i, tally-const f g k ids h)

crew_lem : (ids : List (ℕ × ℕ)) → length (map starting (set_ids ids)) ≡ length ids
crew_lem [] = refl
crew_lem (i ∷ ids) = omega (arith, crew_lem ids)

started-IsValid :
    (client_ids worker_ids : List (ℕ × ℕ))
    → length client_ids ≡ 10
    → length worker_ids ≡ 3
    → FarmIsValid (started client_ids worker_ids)
unfolding started
started-IsValid client_ids worker_ids ten three = record {
  queued = λ x. sym (omega (arith, tally-const (waiting x) starting 0 worker_ids (λ i. refl)));
  balanced = λ x. omega (
    arith,
    tally-const (served x) fresh 0 client_ids (λ i. refl),
    tally-const (serving x) starting 0 worker_ids (λ i. refl),
  );
  right = omega (arith, tally-const wrong fresh 0 client_ids (λ i. ap one (not-ready i.0 i.1)));
  counted = omega (arith, ten, tally-const unanswered fresh 1 client_ids (λ i. refl));
  leaves = refl;
  crew = omega (arith, three, crew_lem worker_ids);
}

identities_lem : (ids : List (ℕ × ℕ)) → map identity_of (map fresh (set_ids ids)) ≡ set_ids ids
identities_lem [] = refl
identities_lem (i ∷ ids) = ap (λ l. set_id i.0 i.1 ∷ l) (identities_lem ids)

-- What every run keeps.
Runs-kept :
    {f g : Farm} {n : ℕ}
    → FarmIsValid f
    → Runs f n g
    → FarmIsValid g
      × (n + left g.workers g.clients ≤ left f.workers f.clients)
      × (map identity_of g.clients ≡ map identity_of f.clients)
Runs-kept v begins = (v, omega arith, refl)
Runs-kept v (next r s) =
    let (w, l, same) = Runs-kept v r in
    (Step-IsValid w s, omega (arith, l, Step-left s), Step-identities s ∙ same)

over-AllServed : (f : Farm) → FarmIsValid f → is_over f.turn ≡ true → AllServed f.clients
over-AllServed f v e =
    let (to, from) = ==_iff (broker_of f.turn).client_count 0 in
    tally-AllServed f.clients (sym v.counted ∙ to (sym v.leaves ∙ e)) v.right

-- Ten clients, and three workers, whose identities are any distinct ones that `canna_setid` makes,
-- and what `main` sends goes to the thread of the identity that it is addressed to: in whatever
-- order the threads and `main` run, there are at most 46 steps, and after any number of steps the
-- clients still have their identities, and either `main` has left its loop and each client has got
-- the answer "OK", or a further step can be taken.
pub Runs-ends :
    (client_ids worker_ids : List (ℕ × ℕ)) {n : ℕ} {g : Farm}
    → length client_ids ≡ 10
    → length worker_ids ≡ 3
    → all_distinct (set_ids client_ids) ≡ true
    → all_distinct (set_ids worker_ids) ≡ true
    → Runs (started client_ids worker_ids) n g
    → (n ≤ 46)
      × (map identity_of g.clients ≡ set_ids client_ids)
      × (((is_over g.turn ≡ true) × AllServed g.clients) ⊎ ((h : Farm) × Step g h))
unfolding started
Runs-ends client_ids worker_ids {g = g} ten three own_clients own_workers r =
    let (v, l, same) = Runs-kept (started-IsValid client_ids worker_ids ten three) r in
    (
      omega (
        arith,
        l,
        ten,
        three,
        tally-const client_left fresh 4 client_ids (λ i. refl),
        tally-const worker_left starting 2 worker_ids (λ i. refl),
      ),
      same ∙ identities_lem client_ids,
      elim (progress g v) [ inl e ↦ inl (e, over-AllServed g v e) | inr moves ↦ inr moves ],
    )

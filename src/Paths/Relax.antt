-- ===== src/Paths/Relax.antt =====
-- One relaxation and one scan: what they do to distances, the queue and the work that is left.
use canna.Prelude.{
  ℕ, zero, suc, ◌+◌, ◌≤◌, ◌<◌, ◌≡◌, ◌↔◌, refl, ◌⊎◌, inl, inr, List, [], ◌∷◌, arith, ltb,
  if◌then◌else◌, ◌==◌, length, get_or, set, length-set, Bool-cases,
}
use canna.Paths.{inf, before, push, State, dist_of, plain_relax}

-- The vertex waits in the queue.
abbrev pub InQueue : ℕ → List (ℕ × ℕ) → Type 0
InQueue x [] = ⊥
InQueue x (e ∷ q) = (e.1 ≡ x) ⊎ InQueue x q

abbrev pub HasEdge : ℕ → ℕ → List (ℕ × ℕ) → Type 0
HasEdge v w [] = ⊥
HasEdge v w (e ∷ es) = ((e.0 ≡ v) × (e.1 ≡ w)) ⊎ HasEdge v w es

pub InQueue-push :
    (x : ℕ) (e : ℕ × ℕ) (q : List (ℕ × ℕ)) → InQueue x (push e q) ↔ ((e.1 ≡ x) ⊎ InQueue x q)
unfolding push
InQueue-push x e [] = (λ h. h, λ h. h)
InQueue-push x e (f ∷ q) = elim (Bool-cases (before e f)) [
  | inl first ↦ rw first (λ h. h, λ h. h)
  | inr later ↦ rw later (ground (arith, (InQueue-push x e q).0, (InQueue-push x e q).1))
]

pub length-push : (e : ℕ × ℕ) (q : List (ℕ × ℕ)) → length (push e q) ≡ suc (length q)
unfolding push
length-push e [] = refl
length-push e (f ∷ q) = ground (arith, length-push e q)

pub get_or-set :
    (xs : List ℕ) (i j v d : ℕ)
    → i < length xs
    → get_or (set xs i v) j d ≡ (if i == j then v else get_or xs j d)
get_or-set [] i j v d h = absurd (omega arith)
get_or-set (x ∷ xs) zero zero v d h = refl
get_or-set (x ∷ xs) zero (suc j) v d h = ground arith
get_or-set (x ∷ xs) (suc i) zero v d h = ground arith
get_or-set (x ∷ xs) (suc i) (suc j) v d h = ground (arith, get_or-set xs i j v d)

-- The sum of all distances.
abbrev pub total : List ℕ → ℕ
total [] = 0
total (d ∷ ds) = d + total ds

pub total-set :
    (xs : List ℕ) (i v d : ℕ) → i < length xs → total (set xs i v) + get_or xs i d ≡ total xs + v
total-set [] i v d h = absurd (omega arith)
total-set (x ∷ xs) zero v d h = omega arith
total-set (x ∷ xs) (suc i) v d h = omega (arith, total-set xs i v d (omega arith))

-- What bounds the rounds that are left.
abbrev pub work : State → ℕ
work s = total s.dist + length s.queue

pub plain_relax-dist :
    (u v w : ℕ) (s : State) (x : ℕ)
    → v < length s.dist
    → dist_of (plain_relax u s (v, w)) x ≡ (
        if v == x
        then (if ltb (dist_of s u + w) (dist_of s v) then dist_of s u + w else dist_of s x)
        else dist_of s x)
unfolding plain_relax
plain_relax-dist u v w s x h = ground (arith, get_or-set s.dist v x (dist_of s u + w) inf)

pub plain_relax-work :
    (u v w : ℕ) (s : State)
    → v < length s.dist
    → (work (plain_relax u s (v, w)) ≤ work s)
      × (length (plain_relax u s (v, w)).dist ≡ length s.dist)
unfolding plain_relax
plain_relax-work u v w s h = ground (
  arith,
  total-set s.dist v (dist_of s u + w) inf h,
  length-push (dist_of s u + w, v) s.queue,
  length-set s.dist v (dist_of s u + w),
)

pub plain_relax-queue :
    (u v w : ℕ) (s : State) (x : ℕ)
    → InQueue x (plain_relax u s (v, w)).queue
      ↔ (InQueue x s.queue ⊎ (v ≡ x) × (dist_of s u + w < dist_of s v))
unfolding plain_relax
plain_relax-queue u v w s x = ground (
  arith,
  (InQueue-push x (dist_of s u + w, v) s.queue).0,
  (InQueue-push x (dist_of s u + w, v) s.queue).1,
)

-- ===== src/Socket/Epoll/Interest.antt =====
-- What the calls of socket_poll make of the interest list, and what the events of `wait` then mean.
use canna.Prelude.{
  ℕ, ◌≡◌, refl, sym, ap, ◌∙◌, inl, inr, Bool, true, false, List, [], ◌∷◌, Option, none, some,
  if◌then◌else◌, ◌==◌, ◌&&◌, Bool-cases, Option-cases, some_inj,
}
use canna.Socket.Epoll.{
  epoll_out, EpollCtl, asked_events, PollCall, add, del, write, poll_call, poll_calls, Ready,
  has_bit, of_ready,
}

-- Stored where the descriptor is there.
abbrev pub put_there : {A : Type 0} → Option A → A → Option A
put_there none new = none
put_there (some old) new = some new

-- What the manual says of `epoll_ctl`: ADD fails and changes nothing, or stores the events and the
-- pointer; MOD stores them where the descriptor is there, and else changes nothing; DEL drops the
-- descriptor. Other descriptors stay.
pub record IsEpoll (K : Type 0) (ctl : EpollCtl K) (interest : K → ℕ → Option (ℕ × Option ℕ))
    : Type 0 where
  pub ctl_add_lem :
      (fd events : ℕ) (ud : Option ℕ) (k : K) (d : ℕ)
      → interest (ctl.ctl_add fd events ud k).1 d ≡ (
          if (ctl.ctl_add fd events ud k).0
          then interest k d
          else if d == fd
          then some (events, ud)
          else interest k d)
  pub ctl_mod_lem :
      (fd events : ℕ) (ud : Option ℕ) (k : K) (d : ℕ)
      → interest (ctl.ctl_mod fd events ud k) d
        ≡ (if d == fd then put_there (interest k fd) (events, ud) else interest k d)
  pub ctl_del_lem :
      (fd : ℕ) (k : K) (d : ℕ)
      → interest (ctl.ctl_del fd k) d ≡ (if d == fd then none else interest k d)

-- The abstract view: the pointer of each descriptor that is watched, and whether writing is too.
abbrev pub Watched : Type 0
Watched = ℕ → Option (Option ℕ × Bool)

abbrev pub nothing_watched : Watched
nothing_watched d = none

-- What a call with its result does to it.
abbrev pub after_call : PollCall → ℕ → Watched → Watched
after_call (add sock ud) result m d =
    if result == 1 then m d else if d == sock then some (ud, false) else m d
after_call (del sock) result m d = if d == sock then none else m d
after_call (write sock ud enable) result m d =
    if d == sock then put_there (m sock) (ud, enable) else m d

abbrev pub after_calls : List PollCall → List ℕ → Watched → Watched
after_calls [] results m = m
after_calls (c ∷ calls) [] m = m
after_calls (c ∷ calls) (result ∷ results) m = after_calls calls results (after_call c result m)

abbrev pub encoded : Option (Option ℕ × Bool) → Option (ℕ × Option ℕ)
encoded none = none
encoded (some (ud, enable)) = some (asked_events enable, ud)

has_bit-asked_events : (enable : Bool) → has_bit (asked_events enable) epoll_out ≡ enable
unfolding asked_events
has_bit-asked_events true = refl
has_bit-asked_events false = refl

put_there-encoded :
    (o : Option (Option ℕ × Bool)) (ud : Option ℕ) (enable : Bool)
    → put_there (encoded o) (asked_events enable, ud) ≡ encoded (put_there o (ud, enable))
put_there-encoded none ud enable = refl
put_there-encoded (some old) ud enable = refl

module _ (K : Type 0) (ctl : EpollCtl K) (interest : K → ℕ → Option (ℕ × Option ℕ))
    (laws : IsEpoll K ctl interest) where
  abbrev Encodes : K → Watched → Type 0
  Encodes k m = (d : ℕ) → interest k d ≡ encoded (m d)

  poll_call-Encodes :
      (c : PollCall) (k : K) (m : Watched)
      → Encodes k m
      → Encodes (poll_call ctl c k).1 (after_call c (poll_call ctl c k).0 m)
  unfolding poll_call
  poll_call-Encodes (add sock ud) k m h d =
      let law = laws.ctl_add_lem sock (asked_events false) ud k d in
      elim (Bool-cases (ctl.ctl_add sock (asked_events false) ud k).0) [
        | inl fails ↦ law ∙ rw fails (h d)
        | inr adds ↦ elim (Bool-cases (d == sock)) [
          | inl e ↦ law ∙ rw (adds, e) refl
          | inr e ↦ law ∙ rw (adds, e) (h d)
        ]
      ]
  poll_call-Encodes (del sock) k m h d = elim (Bool-cases (d == sock)) [
    | inl e ↦ laws.ctl_del_lem sock k d ∙ rw e refl
    | inr e ↦ laws.ctl_del_lem sock k d ∙ rw e (h d)
  ]
  poll_call-Encodes (write sock ud enable) k m h d = elim (Bool-cases (d == sock)) [
    | inl e ↦
        laws.ctl_mod_lem sock (asked_events enable) ud k d
        ∙ rw e (
            ap (λ o. put_there o (asked_events enable, ud)) (h sock)
            ∙ put_there-encoded (m sock) ud enable)
    | inr e ↦ laws.ctl_mod_lem sock (asked_events enable) ud k d ∙ rw e (h d)
  ]

  poll_calls-Encodes :
      (calls : List PollCall) (k : K) (m : Watched)
      → Encodes k m
      → Encodes (poll_calls ctl calls k).1 (after_calls calls (poll_calls ctl calls k).0 m)
  unfolding poll_calls
  poll_calls-Encodes [] k m h = h
  poll_calls-Encodes (c ∷ calls) k m h =
      poll_calls-Encodes calls (poll_call ctl c k).1 (after_call c (poll_call ctl c k).0 m)
        (poll_call-Encodes c k m h)

  -- What the manual says of `epoll_wait`: a descriptor is in the interest list, and is reported with
  -- the pointer stored there; that it can be written to is reported only if it was asked for.
  pub record IsReported (k : K) (fd : ℕ) (r : Ready) : Type 0 where
    pub events : ℕ
    pub stored : interest k fd ≡ some (events, r.ptr)
    pub asked : has_bit r.flag epoll_out ≡ has_bit r.flag epoll_out && has_bit events epoll_out

  -- The calls of a socket_poll whose interest list starts empty, with their results: any report of
  -- the system about a descriptor becomes an event for the pointer that was last stored with it, by
  -- the `add` that put it there or a `write` since, and no `del` since; it says that the descriptor
  -- can be written to only if the last of these calls was a `write` that enables this.
  pub of_ready-watched :
      (calls : List PollCall) (k : K) (fd : ℕ) (r : Ready)
      → ((d : ℕ) → interest k d ≡ none)
      → IsReported (poll_calls ctl calls k).1 fd r
      → (enable : Bool) × (after_calls calls (poll_calls ctl calls k).0 nothing_watched fd
          ≡ some ((of_ready r).slot, enable))
        × ((of_ready r).write ≡ ((of_ready r).write && enable))
  unfolding of_ready asked_events
  of_ready-watched calls k fd r empty v =
      let there = sym (poll_calls-Encodes calls k nothing_watched empty fd) ∙ v.stored in
      elim (Option-cases (after_calls calls (poll_calls ctl calls k).0 nothing_watched fd)) [
        | inl e ↦ absurd (let gone = ap encoded (sym e) ∙ there in cc)
        | inr ((ud, enable), e) ↦
            let same : (asked_events enable, ud) ≡ (v.events, r.ptr) =
              some_inj (ap encoded (sym e) ∙ there) in
            (
              enable,
              e ∙ ap (λ p. some (p.1, enable)) same,
              v.asked
                  ∙ ap (λ b. has_bit r.flag epoll_out && b)
                      (ap (λ p. has_bit p.0 epoll_out) (sym same) ∙ has_bit-asked_events enable),
            )
      ]

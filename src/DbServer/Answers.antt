-- ===== src/DbServer/Answers.antt =====
-- The requests that are answered, and the one that ends the server.
use canna.Prelude.{
  ℕ, suc, ◌+◌, ◌-◌, ◌≡◌, ◌<◌, refl, sym, ap, ◌∙◌, Bool, true, false, List, [], ◌∷◌, ◌++◌, Option,
  none, some, arith, ltb, ◌==◌, length, replicate, Bool-cases, inl, inr, append_assoc, append-nil,
}
use canna.Broker.{Frame}
use canna.DbServer.{
  RepSocket, command_len, command, text_of, goes_on, throws, faults, reply_with, serve_request,
  main_loop,
}

-- The bytes before the first 0.
abbrev pub until_zero : Frame → List ℕ
until_zero [] = []
until_zero (c ∷ rest) =
    let later = until_zero rest in elim (c == 0) [ true ↦ [] | false ↦ c ∷ later ]

zero_add : (n : ℕ) → 0 + n ≡ n
zero_add n = omega arith

add_zero : (n : ℕ) → n + 0 ≡ n
add_zero n = omega arith

suc_add : (m n : ℕ) → suc m + n ≡ suc (m + n)
suc_add m n = omega arith

-- A request that leaves room for a 0.
text_of-padded :
    (request : Frame) (n : ℕ) → text_of (request ++ replicate (suc n) 0) ≡ some (until_zero request)
unfolding text_of
text_of-padded [] n = refl
text_of-padded (c ∷ rest) n = elim (Bool-cases (c == 0)) [
  | inl e ↦ rw (e, text_of, until_zero) refl
  | inr e ↦ rw (e, text_of, until_zero, text_of-padded rest n) refl
]

text_of-command :
    (request : Frame) → length request < 256 → text_of (command request) ≡ some (until_zero request)
unfolding command
text_of-command request h =
    let room : 256 - length request ≡ suc (255 - length request) = omega (arith, h) in
    rw room (text_of-padded request (255 - length request))

-- A request that has no 0.
text_of-solid : (request : Frame) → until_zero request ≡ request → text_of request ≡ none
unfolding text_of
text_of-solid [] e = refl
text_of-solid (c ∷ rest) e = elim (Bool-cases (c == 0)) [
  | inl z ↦ absurd (let f = rw (until_zero, z) at e in cc)
  | inr z ↦ rw (z, text_of, text_of-solid rest (let f = rw (until_zero, z) at e in cc)) refl
]

text_of-full :
    (request : Frame)
    → length request ≡ 256
    → until_zero request ≡ request
    → text_of (command request) ≡ none
unfolding command
text_of-full request h e = rw (h, append-nil request) (text_of-solid request e)

-- Requests of fewer than 256 bytes.
abbrev pub Short : List Frame → Type 0
Short [] = Unit
Short (request ∷ rest) = (length request < 256) × Short rest

module _ {Redis : Type 0} (redis_command : List ℕ → Redis → Option Frame × Redis) where
  -- What redis replies to the requests one after the other, and the store after them, where it
  -- replies to each.
  abbrev pub Replies : List Frame → Redis → List Frame → Redis → Type 0
  Replies [] d texts d' = (texts ≡ []) × (d ≡ d')
  Replies (request ∷ rest) d texts d' =
      (reply : Frame) × (d1 : Redis) × (later : List Frame) × (redis_command (until_zero request) d
        ≡ (some reply, d1))
      × (texts ≡ reply ∷ later)
      × Replies rest d1 later d'

module _ {Socket : Type 0} (rep : RepSocket Socket) where
  -- How a socket stands that has sent these replies.
  abbrev pub Stands : Socket → Bool → List Frame → List Frame → Type 0
  Stands s asked to_come replied =
      (rep.asked s ≡ asked) × (rep.to_come s ≡ to_come) × (rep.replied s ≡ replied)

module _ {Socket Redis : Type 0} (rep : RepSocket Socket)
    (redis_command : List ℕ → Redis → Option Frame × Redis) where
  serve_request-short :
      (request : Frame) (rest sent : List Frame) (reply : Frame) (s : Socket) (d d1 : Redis)
      → length request < 256
      → Stands rep s false (request ∷ rest) sent
      → redis_command (until_zero request) d ≡ (some reply, d1)
      → (s' : Socket) × (serve_request rep redis_command s d ≡ goes_on s' d1)
        × Stands rep s' false rest (sent ++ reply ∷ [])
  unfolding serve_request reply_with
  serve_request-short request rest sent reply s d d1 short (idle, next, so_far) answers =
      let (s1, got, busy, left, same) = rep.recv-next s request rest idle next in
      let (s2, made, free, left2, replied) = rep.send-reply s1 reply busy in
      let fits : ltb command_len (length request) ≡ false = ground (arith, short) in
      (
        s2,
        rw (got, serve_request, fits, text_of-command request short, answers, reply_with, made)
            refl,
        (free, left2 ∙ left, replied ∙ ap (λ l. l ++ reply ∷ []) (same ∙ so_far)),
      )

  -- The loop up to a request.
  main_loop-Short :
      (requests rest sent texts : List Frame) (n : ℕ) (s : Socket) (d d' : Redis)
      → Short requests
      → Stands rep s false (requests ++ rest) sent
      → Replies redis_command requests d texts d'
      → (s' : Socket) × (main_loop rep redis_command (length requests + n) s d
          ≡ main_loop rep redis_command n s' d')
        × Stands rep s' false rest (sent ++ texts)
  unfolding main_loop
  main_loop-Short [] rest sent texts n s d d' short (idle, next, so_far) (none_, same) = (
    s,
    rw (same, zero_add n) refl,
    (idle, next, so_far ∙ sym (ap (λ l. sent ++ l) none_ ∙ append-nil sent)),
  )
  main_loop-Short (request ∷ requests) rest sent texts n s d d' (fits, short) stands replies =
      let (reply, d1, later, answers, e, replies1) = replies in
      let (s1, made, stands1) =
        serve_request-short request (requests ++ rest) sent reply s d d1 fits stands answers in
      let (s2, runs, (idle, next, so_far)) =
        main_loop-Short requests rest (sent ++ reply ∷ []) later n s1 d1 d' short stands1
          replies1 in
      (
        s2,
        rw (suc_add (length requests) n, main_loop, made) runs,
        (idle, next, so_far ∙ append_assoc sent (reply ∷ []) later ∙ ap (λ l. sent ++ l) (sym e)),
      )

  -- A server that waits answers short requests to which redis replies one by one, in their order:
  -- after as many rounds it waits again, and has sent just the replies of redis to the commands,
  -- each the bytes of a request before its first 0.
  pub main_loop-answers :
      (requests rest sent texts : List Frame) (s : Socket) (d d' : Redis)
      → Short requests
      → Stands rep s false (requests ++ rest) sent
      → Replies redis_command requests d texts d'
      → (s' : Socket) × (main_loop rep redis_command (length requests) s d ≡ goes_on s' d')
        × Stands rep s' false rest (sent ++ texts)
  unfolding main_loop
  main_loop-answers requests rest sent texts s d d' short stands replies =
      let (s', runs, stands') =
        main_loop-Short requests rest sent texts 0 s d d' short stands replies in
      (
        s',
        ap (λ n. main_loop rep redis_command n s d) (sym (add_zero (length requests))) ∙ runs,
        stands',
      )

  serve_request-oversize :
      (big : Frame) (rest sent : List Frame) (n : ℕ) (s : Socket) (d : Redis)
      → 256 < length big
      → Stands rep s false (big ∷ rest) sent
      → (s' : Socket) × (main_loop rep redis_command (suc (suc n)) s d ≡ throws s' d)
        × Stands rep s' true rest sent
  unfolding serve_request main_loop
  serve_request-oversize big rest sent n s d long (idle, next, so_far) =
      let (s1, got, busy, left, same) = rep.recv-next s big rest idle next in
      let over : ltb command_len (length big) ≡ true = ground (arith, long) in
      (
        s1,
        rw (got, serve_request, over, main_loop, rep.recv-throws s1 busy) refl,
        (busy, left, same ∙ so_far),
      )

  -- Short requests to which redis replies are answered, but the first request of more than 256
  -- bytes gets no reply, and the round after it ends the loop: `recv` throws.
  pub main_loop-oversize :
      (requests : List Frame) (big : Frame) (rest sent texts : List Frame) (n : ℕ) (s : Socket)
      (d d' : Redis)
      → Short requests
      → 256 < length big
      → Stands rep s false (requests ++ big ∷ rest) sent
      → Replies redis_command requests d texts d'
      → (s' : Socket) × (main_loop rep redis_command (length requests + suc (suc n)) s d
          ≡ throws s' d')
        × Stands rep s' true rest (sent ++ texts)
  main_loop-oversize requests big rest sent texts n s d d' short long stands replies =
      let (s1, runs, stands1) =
        main_loop-Short requests (big ∷ rest) sent texts (suc (suc n)) s d d' short stands
          replies in
      let (s2, ends, stands2) =
        serve_request-oversize big rest (sent ++ texts) n s1 d' long stands1 in
      (s2, runs ∙ ends, stands2)

  -- Short requests to which redis replies are answered, but the first request of just 256 bytes,
  -- none of them 0, makes the server read past the end of `command`.
  pub main_loop-unended :
      (requests : List Frame) (full : Frame) (rest sent texts : List Frame) (n : ℕ) (s : Socket)
      (d d' : Redis)
      → Short requests
      → length full ≡ 256
      → until_zero full ≡ full
      → Stands rep s false (requests ++ full ∷ rest) sent
      → Replies redis_command requests d texts d'
      → (s' : Socket) × (main_loop rep redis_command (length requests + suc n) s d ≡ faults s' d')
        × Stands rep s' true rest (sent ++ texts)
  unfolding serve_request main_loop
  main_loop-unended requests full rest sent texts n s d d' short long solid stands replies =
      let (s1, runs, (idle, next, so_far)) =
        main_loop-Short requests (full ∷ rest) sent texts (suc n) s d d' short stands replies in
      let (s2, got, busy, left, same) = rep.recv-next s1 full rest idle next in
      let over : ltb command_len (length full) ≡ false = ground (arith, long) in
      (
        s2,
        runs ∙ rw (main_loop, serve_request, got, over, text_of-full full long solid) refl,
        (busy, left, same ∙ so_far),
      )

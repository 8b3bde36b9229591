-- ===== src/Redis/Freed.antt =====
-- The contexts that a client frees.
use canna.Prelude.{
  ℕ, ◌≡◌, ◌≢◌, refl, sym, ap, ◌∙◌, List, [], ◌∷◌, ◌++◌, some, append_assoc, append-nil,
}
use canna.Broker.{Frame}
use canna.Redis.{
  Pointer, unset, null, context, Reply, no_context, with_error, connected, RedisClient, new_client,
  initialize, connect, pointer_of, given, set_host, set_port, destroy, Call, initializes, connects,
  sets_host, sets_port, run,
}

-- The contexts that the calls allocate, and those among them that no later call drops.
abbrev pub allocations : List Call → List ℕ
allocations [] = []
allocations (connects reply ∷ calls) = given reply ++ allocations calls
allocations (call ∷ calls) = allocations calls

abbrev pub held : Pointer → List ℕ
held unset = []
held null = []
held (context n) = n ∷ []

abbrev pub last_held : List Call → List ℕ → List ℕ
last_held [] kept = kept
last_held (connects reply ∷ calls) kept = last_held calls (given reply)
last_held (initializes host port ∷ calls) kept = last_held calls []
last_held (call ∷ calls) kept = last_held calls kept

held-pointer_of : (reply : Reply) → held (pointer_of reply) ≡ given reply
held-pointer_of no_context = refl
held-pointer_of (with_error n) = refl
held-pointer_of (connected n) = refl

pointer_of-ne-unset : (reply : Reply) → pointer_of reply ≢ unset
pointer_of-ne-unset no_context e = absurd cc
pointer_of-ne-unset (with_error n) e = absurd cc
pointer_of-ne-unset (connected n) e = absurd cc

run-held :
    (calls : List Call) (c : RedisClient)
    → c.context_of ≢ unset
    → ((run calls c).context_of ≢ unset)
      × (held (run calls c).context_of ≡ last_held calls (held c.context_of))
      × ((run calls c).allocated ≡ c.allocated ++ allocations calls)
      × ((run calls c).freed ≡ c.freed)
unfolding run initialize connect set_host set_port
run-held [] c h = (h, refl, sym (append-nil c.allocated), refl)
run-held (initializes host port ∷ calls) c h =
    run-held calls (initialize host port c) (λ e. absurd cc)
run-held (sets_host host ∷ calls) c h = run-held calls (set_host host c) h
run-held (sets_port port ∷ calls) c h = run-held calls (set_port port c) h
run-held (connects reply ∷ calls) c h =
    let (set, kept, all, freed) = run-held calls (connect reply c).0 (pointer_of-ne-unset reply) in
    (
      set,
      kept ∙ ap (last_held calls) (held-pointer_of reply),
      all ∙ append_assoc c.allocated (given reply) (allocations calls),
      freed,
    )

-- The destructor, where the pointer was set.
destroy-held :
    (p : Pointer) (c : RedisClient)
    → c.context_of ≡ p
    → c.context_of ≢ unset
    → (d : RedisClient) × (destroy c ≡ some d)
      × (d.allocated ≡ c.allocated)
      × (d.freed ≡ c.freed ++ held c.context_of)
unfolding destroy
destroy-held unset c e h = absurd (h e)
destroy-held null c e h = (c, rw e refl, refl, rw e (sym (append-nil c.freed)))
destroy-held (context n) c e h =
    (record c { freed = c.freed ++ n ∷ [] }, rw e refl, refl, rw e refl)

-- A client that is initialized first, whatever calls follow and whatever redis answers: its
-- destructor follows no pointer that was not set. Of the contexts that were allocated, in the order
-- of the calls, it frees just the one of the last connect, if that gave one and no initialize came
-- after it; nothing frees the others.
pub destroy-run :
    (host : Frame) (port : ℕ) (calls : List Call)
    → (d : RedisClient) × (destroy (run (initializes host port ∷ calls) new_client) ≡ some d)
      × (d.allocated ≡ allocations calls)
      × (d.freed ≡ last_held calls [])
unfolding new_client run initialize
destroy-run host port calls =
    let (set, kept, all, freed) =
      run-held calls (initialize host port new_client) (λ e. absurd cc) in
    let c = run calls (initialize host port new_client) in
    let (d, done, same, added) = destroy-held c.context_of c refl set in
    (d, done, same ∙ all, added ∙ ap (λ l. l ++ held c.context_of) freed ∙ kept)

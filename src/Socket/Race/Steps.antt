-- ===== src/Socket/Race/Steps.antt =====
-- Every step of a thread keeps the owners of the slots apart.
use canna.Prelude.{
  ℕ, zero, suc, ◌+◌, ◌%◌, ◌^◌, ◌≡◌, ◌≢◌, ◌⊎◌, refl, sym, ap, ◌∙◌, inl, inr, true, List, [], ◌∷◌,
  none, some, ltb, ==_self, Bool-cases, some_inj,
}
use canna.Socket.Types.{invalid, reserve, is, hash_id, minus_one, Socket, update}
use canna.Socket.Race.{
  Pc, adds, masks, tests, swaps, names, clears, returned, refused, thread_step, Threads, update_pc,
  step_of, run_threads, enter,
}
use canna.Socket.Race.Owners.{slot_of, Written, Owned, eq_or_not, Moves-Owned}

-- A step of a thread that owns no slot, and leaves the slots alone.
quiet_Owned :
    (start : ℕ → Socket) (t : Threads) (j alloc_id : ℕ) (pc : Pc)
    → Owned start t
    → slot_of (t.pcs j) ≡ none
    → slot_of pc ≡ none
    → Written t.shared.slots pc
    → Owned start
        (record { shared = record t.shared { alloc_id = alloc_id }; pcs = update_pc t.pcs j pc })
quiet_Owned start t j alloc_id pc o before after w =
    Moves-Owned start t j (record t.shared { alloc_id = alloc_id }) pc o
      (record {
        owns = λ k h. absurd (cc);
        others = λ i k ne h. refl;
        writes = w;
        keeps = λ k. elim (o.kept k) [
          | inl e ↦ inl e
          | inr (i, h) ↦ inr (inr (i, (λ e. absurd (let f = rw e at h in cc)), h))
        ];
      })

-- A step that writes into a slot, reserved, which only this thread may own before.
write_Owned :
    (start : ℕ → Socket) (t : Threads) (j n : ℕ) (sock : Socket) (pc : Pc)
    → Owned start t
    → ((k : ℕ) → slot_of (t.pcs j) ≡ some k → k ≡ n)
    → ((i : ℕ) → i ≢ j → slot_of (t.pcs i) ≢ some n)
    → is (start n).type invalid ≡ true
    → slot_of pc ≡ some n
    → sock.type ≡ reserve
    → Written (update t.shared.slots n sock) pc
    → Owned start (record {
      shared = record t.shared { slots = update t.shared.slots n sock };
      pcs = update_pc t.pcs j pc;
    })
write_Owned start t j n sock pc o before alone free after reserved w =
    Moves-Owned start t j (record t.shared { slots = update t.shared.slots n sock }) pc o
      (record { owns = owns; others = others; writes = w; keeps = keeps })
  where
    owns :
        (k : ℕ)
        → slot_of pc ≡ some k
        → (is (start k).type invalid ≡ true)
          × ((update t.shared.slots n sock k).type ≡ reserve)
          × ((i : ℕ) → i ≢ j → slot_of (t.pcs i) ≢ some k)
    owns k h =
        let e : n ≡ k = some_inj (sym after ∙ h) in
        rw (sym e) (free, rw (==_self n) reserved, alone)

    others :
        (i k : ℕ)
        → i ≢ j
        → slot_of (t.pcs i) ≡ some k
        → update t.shared.slots n sock k ≡ t.shared.slots k
    others i k ne h = elim (eq_or_not k n) [
      | inl e ↦ absurd (alone i ne (rw e at h))
      | inr (f, _) ↦ rw f refl
    ]

    keeps :
        (k : ℕ)
        → (update t.shared.slots n sock k ≡ start k)
          ⊎ ((slot_of pc ≡ some k) ⊎ ((i : ℕ) × (i ≢ j) × (slot_of (t.pcs i) ≡ some k)))
    keeps k = elim (eq_or_not k n) [
      | inl e ↦ inr (inl (after ∙ ap some (sym e)))
      | inr (f, ne) ↦ elim (o.kept k) [
        | inl same ↦ inl (rw f same)
        | inr (i, h) ↦
            inr (inr (i, (λ e. ne (before k (sym (ap (λ x. slot_of (t.pcs x)) e) ∙ h))), h))
      ]
    ]

-- A step of a thread that writes into its slot, and keeps it reserved.
owner_Owned :
    (start : ℕ → Socket) (t : Threads) (j id : ℕ) (sock : Socket) (pc : Pc)
    → Owned start t
    → slot_of (t.pcs j) ≡ some (hash_id id)
    → slot_of pc ≡ some (hash_id id)
    → sock.type ≡ reserve
    → Written (update t.shared.slots (hash_id id) sock) pc
    → Owned start (record {
      shared = record t.shared { slots = update t.shared.slots (hash_id id) sock };
      pcs = update_pc t.pcs j pc;
    })
owner_Owned start t j id sock pc o before after reserved w =
    write_Owned start t j (hash_id id) sock pc o (λ k h. sym (some_inj (sym before ∙ h)))
      (λ i ne h. ne (o.one_owner i j (hash_id id) h before)) (o.was_free j (hash_id id) before).0
      after reserved w

-- A thread that wins a free slot.
winner_Owned :
    (start : ℕ → Socket) (t : Threads) (j id : ℕ)
    → Owned start t
    → slot_of (t.pcs j) ≡ none
    → is (t.shared.slots (hash_id id)).type invalid ≡ true
    → Owned start (record {
      shared = record t.shared {
        slots =
            update t.shared.slots
              (hash_id id)
              (record (t.shared.slots (hash_id id)) { type = reserve });
      };
      pcs = update_pc t.pcs j (names id);
    })
winner_Owned start t j id o before free =
    write_Owned start t j (hash_id id) (record (t.shared.slots (hash_id id)) { type = reserve })
      (names id) o (λ k h. absurd (cc)) (λ i ne h. unowned i h) was_free refl refl tt
  where
    unowned : (i : ℕ) → slot_of (t.pcs i) ≢ some (hash_id id)
    unowned i h = absurd (let (a, b) = o.was_free i (hash_id id) h in let f = rw b at free in cc)

    was_free : is (start (hash_id id)).type invalid ≡ true
    was_free = elim (o.kept (hash_id id)) [
      | inl same ↦ ap (λ (s : Socket). is s.type invalid) (sym same) ∙ free
      | inr (i, h) ↦ absurd (unowned i h)
    ]

-- A thread that has left the function.
idle_Owned :
    (start : ℕ → Socket) (t : Threads) (j : ℕ) (pc : Pc)
    → t.pcs j ≡ pc
    → Owned start t
    → Owned start (record { shared = t.shared; pcs = update_pc t.pcs j pc })
idle_Owned start t j pc e o = Moves-Owned start t j t.shared pc o (record {
  owns = λ k h.
      let mine = ap slot_of e ∙ h in
      let (a, b) = o.was_free j k mine in (a, b, λ i ne h'. ne (o.one_owner i j k h' mine));
  others = λ i k ne h. refl;
  writes = rw e at (o.written j);
  keeps = λ k. elim (o.kept k) [
    | inl same ↦ inl same
    | inr (i, h) ↦ elim (eq_or_not i j) [
      | inl f ↦ inr (inl (ap slot_of (sym e ∙ ap t.pcs (sym f)) ∙ h))
      | inr (_, ne) ↦ inr (inr (i, ne, h))
    ]
  ];
})

thread_step-Owned :
    (start : ℕ → Socket) (t : Threads) (j : ℕ) (pc : Pc)
    → t.pcs j ≡ pc
    → Owned start t
    → let r = thread_step t.shared pc in
      Owned start (record { shared = r.0; pcs = update_pc t.pcs j r.1 })
unfolding thread_step
thread_step-Owned start t j (adds zero) e o =
    quiet_Owned start t j t.shared.alloc_id refused o (ap slot_of e) refl tt
thread_step-Owned start t j (adds (suc left)) e o =
    let id : ℕ = (t.shared.alloc_id + 1) % 2 ^ 32 in
    elim (Bool-cases (ltb id (2 ^ 31))) [
      | inl small ↦ rw small (quiet_Owned start t j id (tests left id) o (ap slot_of e) refl tt)
      | inr negative ↦ rw negative (quiet_Owned start t j id (masks left) o (ap slot_of e) refl tt)
    ]
thread_step-Owned start t j (masks left) e o =
    let id : ℕ = t.shared.alloc_id % 2 ^ 31 in
    quiet_Owned start t j id (tests left id) o (ap slot_of e) refl tt
thread_step-Owned start t j (tests left id) e o =
    elim (Bool-cases (is (t.shared.slots (hash_id id)).type invalid)) [
      | inl free ↦
          rw free (quiet_Owned start t j t.shared.alloc_id (swaps left id) o (ap slot_of e) refl tt)
      | inr used ↦
          rw used (quiet_Owned start t j t.shared.alloc_id (adds left) o (ap slot_of e) refl tt)
    ]
thread_step-Owned start t j (swaps left id) e o =
    elim (Bool-cases (is (t.shared.slots (hash_id id)).type invalid)) [
      | inl free ↦ rw free (winner_Owned start t j id o (ap slot_of e) free)
      | inr used ↦
          rw used
            (quiet_Owned start t j t.shared.alloc_id (adds (suc left)) o (ap slot_of e) refl tt)
    ]
thread_step-Owned start t j (names id) e o =
    let k : ℕ = hash_id id in
    owner_Owned start t j id (record (t.shared.slots k) { id = id }) (clears id) o (ap slot_of e)
      refl (o.was_free j k (ap slot_of e)).1 (rw (==_self k) refl)
thread_step-Owned start t j (clears id) e o =
    let k : ℕ = hash_id id in
    let named : (t.shared.slots k).id ≡ id = rw e at (o.written j) in
    owner_Owned start t j id (record (t.shared.slots k) { fd = minus_one }) (returned id) o
      (ap slot_of e) refl (o.was_free j k (ap slot_of e)).1 (rw (==_self k) (named, refl))
thread_step-Owned start t j (returned id) e o = idle_Owned start t j (returned id) e o
thread_step-Owned start t j refused e o = idle_Owned start t j refused e o

run_threads_from :
    (start : ℕ → Socket) (order : List ℕ) (t : Threads)
    → Owned start t
    → Owned start (run_threads order t)
unfolding run_threads step_of
run_threads_from start [] t o = o
run_threads_from start (j ∷ order) t o =
    run_threads_from start order (step_of j t) (thread_step-Owned start t j (t.pcs j) refl o)

-- Whichever threads run `reserve_id` at once, and in whatever order they take their steps: a slot
-- that a thread has won was free before and is reserved now, no two threads have won the same
-- slot, a thread that has returned an id finds it in its slot, with the descriptor -1, and every
-- other slot is as it was.
pub run_threads-Owned :
    (order : List ℕ) (alloc_id : ℕ) (slots : ℕ → Socket)
    → Owned slots (run_threads order (enter alloc_id slots))
unfolding enter
run_threads-Owned order alloc_id slots =
    run_threads_from slots order (enter alloc_id slots) (record {
      was_free = λ j k h. absurd (cc);
      one_owner = λ i j k h h'. absurd (cc);
      written = λ j. tt;
      kept = λ k. inl refl;
    })

-- ===== src/Router/Named.antt =====
-- A router and the name server together.
use canna.Prelude.{
  ℕ, ◌+◌, ◌≡◌, refl, ap, ◌∙◌, ◌⊎◌, inl, inr, List, [], ◌∷◌, ◌++◌, Option, none, some, arith,
  Option-cases, zero, suc, ◌<◌, subst, some_inj,
}
use canna.Zmq.{Frame, log, connects, zmq_req}
use canna.Names.{Name, NamePair, Groups, find, get_name_list, serve, suffix}
use canna.Names.Allot.{
  IsValid, next_serial, pair_after, allotted, allotted-IsValid, find-insert, name_eq_iff,
}
use canna.Names.Listing.{names, get_name_list_lem}
use canna.Names.Served.{serve_lem}
use canna.Router.{
  RouterServer, initialize, sock_create, sock_connect, sock_send, router_init, cluster, router_name,
  print_names, main,
}

-- The list holds the name.
abbrev pub Holds : Name → List Name → Type 0
Holds x [] = ⊥
Holds x (y ∷ ys) = (y ≡ x) ⊎ Holds x ys

names-Holds : (name : Name) (i k n : ℕ) → k < n → Holds (name ++ suffix (i + k)) (names name i n)
names-Holds name i k zero h = absurd (omega arith)
names-Holds name i zero (suc n) h = inl (ap (λ j. name ++ suffix j) (omega arith))
names-Holds name i (suc k) (suc n) h = inr (
    subst (λ j. Holds (name ++ suffix j) (names name (i + 1) n)) (omega arith)
      (names-Holds name (i + 1) k n (omega arith)))

pair_after-serial :
    (o : Option NamePair) (i : ℕ) → next_serial o ≡ some i → (pair_after o i).serial ≡ i
pair_after-serial none i h = some_inj h
pair_after-serial (some p) i h = refl

listed-new :
    (m : Groups) (group : Name) (i : ℕ)
    → IsValid m
    → next_serial (find group m) ≡ some i
    → Holds (group ++ suffix i) (get_name_list (allotted m group (some i)).0 group)
listed-new m group i v e =
    let valid : IsValid (allotted m group (some i)).0 = rw e at (allotted-IsValid m group v) in
    let found : find group (allotted m group (some i)).0 ≡ some (pair_after (find group m) i) =
      ground (
        arith,
        find-insert group group (pair_after (find group m) i) m,
        (name_eq_iff group group).1 refl,
      ) in
    rw (get_name_list_lem (allotted m group (some i)).0 group valid) (
      rw found (
        rw (pair_after-serial (find group m) i e) (
          subst (λ j. Holds (group ++ suffix j) (names group 0 (i + 1))) (omega arith)
            (names-Holds group 0 i (i + 1) (omega arith)))))

-- The router behind its request.
abbrev requested : RouterServer
requested = record (router_init initialize) {
  requester = some (
      sock_send cluster (
        log (connects "tcp://localhost:5555") (record { kind = zmq_req; inbox = []; calls = [] })));
}

router_name-reply :
    (exchange : Frame → Option Frame) (parse : Frame → List Name) (msg : Frame)
    → exchange cluster ≡ some msg
    → router_name exchange parse (router_init initialize) ≡ some (requested, parse msg)
unfolding router_name router_init sock_create sock_connect
router_name-reply exchange parse msg h = rw (h, router_name) refl

module _ (serialize : List Name → Frame) (parse : Frame → List Name) where
  -- The name server in the state `m`, as its clients see it: the reply to a request.
  abbrev pub asking : Groups → Frame → Option Frame
  asking m group = elim (serve serialize m group) [ none ↦ none | some (m', msg, name) ↦ some msg ]

  -- Where the parser of protobuf reads back what its serializer wrote, a router that was set up
  -- gets, from a name server in any valid state, the list of the names of "cluster" as they are
  -- after its request, and a name was allotted to it that is in the list, unless the group was used
  -- up and the name is empty.
  pub router_name-serve :
      (m : Groups)
      → ((l : List Name) → parse (serialize l) ≡ l)
      → IsValid m
      → let r = allotted m cluster (next_serial (find cluster m)) in
        (s : RouterServer) × (router_name (asking m) parse (router_init initialize)
          ≡ some (s, get_name_list r.0 cluster))
        × ((r.1 ≡ []) ⊎ Holds r.1 (get_name_list r.0 cluster))
  router_name-serve m reads v =
      let r = allotted m cluster (next_serial (find cluster m)) in
      (
        requested,
        router_name-reply (asking m) parse (serialize (get_name_list r.0 cluster))
              (rw (serve_lem serialize m cluster v, asking) refl)
            ∙ ap (λ l. some (requested, l)) (reads (get_name_list r.0 cluster)),
        elim (Option-cases (next_serial (find cluster m))) [
          | inl e ↦ rw e (inl refl)
          | inr (i, e) ↦ inr (rw e (listed-new m cluster i v e))
        ],
      )

  -- So a router prints a line for each name of "cluster" as they are after its request.
  pub main-serve :
      (m : Groups)
      → ((l : List Name) → parse (serialize l) ≡ l)
      → IsValid m
      → main (asking m) parse
        ≡ some (
            print_names
              (get_name_list (allotted m cluster (next_serial (find cluster m))).0 cluster))
  unfolding main
  main-serve m reads v = let (s, e, listed) = router_name-serve m reads v in rw (main, e) refl

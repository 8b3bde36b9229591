-- ===== src/Router/Tests.antt =====
-- A router and a name server with a concrete serializer: each name behind its length.
use canna.Prelude.{ℕ, ◌≡◌, refl, ap, ◌∙◌, ◌⊎◌, List, [], ◌∷◌, some, zero, suc}
use canna.Zmq.{Frame}
use canna.Names.{Name, find, get_name_list}
use canna.Names.Allot.{next_serial, allotted, empty-IsValid}
use canna.Router.{RouterServer, initialize, router_init, cluster, router_name, print_names, main}
use canna.Router.Named.{Holds, asking, router_name-serve, main-serve}

-- Each name with a 1 before each byte and a 0 behind it.
abbrev write_name : Name → Frame → Frame
write_name [] rest = 0 ∷ rest
write_name (c ∷ cs) rest = 1 ∷ c ∷ write_name cs rest

abbrev write_names : List Name → Frame
write_names [] = []
write_names (x ∷ xs) = write_name x (write_names xs)

abbrev add_byte : ℕ → List Name → List Name
add_byte c [] = []
add_byte c (x ∷ xs) = (c ∷ x) ∷ xs

abbrev read_names : Frame → List Name
read_names [] = []
read_names (zero ∷ rest) = [] ∷ read_names rest
read_names (suc n ∷ []) = []
read_names (suc n ∷ c ∷ rest) = add_byte c (read_names rest)

read_names-write_name :
    (x : Name) (rest : Frame) → read_names (write_name x rest) ≡ x ∷ read_names rest
read_names-write_name [] rest = refl
read_names-write_name (c ∷ cs) rest = ap (add_byte c) (read_names-write_name cs rest)

read_names-write_names : (l : List Name) → read_names (write_names l) ≡ l
read_names-write_names [] = refl
read_names-write_names (x ∷ xs) =
    read_names-write_name x (write_names xs) ∙ ap (λ l. x ∷ l) (read_names-write_names xs)

router_name-serve_example :
    let r = allotted [] cluster (next_serial (find cluster [])) in
    (s : RouterServer) × (router_name
        (asking write_names read_names [])
        read_names
        (router_init initialize)
      ≡ some (s, get_name_list r.0 cluster))
    × ((r.1 ≡ []) ⊎ Holds r.1 (get_name_list r.0 cluster))
router_name-serve_example =
    router_name-serve write_names read_names [] read_names-write_names empty-IsValid

main-serve_test :
    main (asking write_names read_names []) read_names
    ≡ some (
        print_names (get_name_list (allotted [] cluster (next_serial (find cluster []))).0 cluster))
main-serve_test = main-serve write_names read_names [] read_names-write_names empty-IsValid

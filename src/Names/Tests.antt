-- ===== src/Names/Tests.antt =====
-- The name server at concrete inputs.
use canna.Prelude.{none, Option, map, length, ℕ, ◌≡◌, refl, List, [], ◌∷◌, ◌++◌, some, arith}
use canna.Names.{
  Name, Groups, find, insert, name_eq, allot_name_pair, allot_found, next_free, all_set, suffix,
  get_name_list, first_pair,
}
use canna.Names.Allot.{
  IsValid, next_serial, allotted, allot_name_pair_lem, allotted-IsValid, empty-IsValid,
}
use canna.Names.Listing.{get_name_list_lem}
use canna.Names.Unique.{name_inj}
use canna.Zmq.{Frame, binds, sends}
use canna.Names.Server.{asked, set_up, server_loop}
use canna.Names.Loop.{replies, server_with, groups_after, server_loop-answers}
use canna.Names.Served.{published, run, Distinct, run-Distinct}

-- "db" and "db-0000"
abbrev group : Name
group = b'd' ∷ b'b' ∷ []

abbrev one_name : Groups
one_name = (group, first_pair) ∷ []

suffix_of_200 : suffix 200 ≡ b'-' ∷ b'0' ∷ b'3' ∷ b'1' ∷ b'0' ∷ []
unfolding suffix
suffix_of_200 = refl

run_three :
    run [] (group ∷ group ∷ [] ∷ [])
    ≡ some ((group ++ suffix 0) ∷ (group ++ suffix 1) ∷ suffix 0 ∷ [])
unfolding run allot_name_pair allot_found find insert name_eq next_free all_set
run_three = refl

one_name-IsValid : IsValid one_name
unfolding find insert
one_name-IsValid = allotted-IsValid [] group empty-IsValid

allot_name_pair_lem_example :
    allot_name_pair one_name group
    ≡ some (allotted one_name group (next_serial (find group one_name)))
allot_name_pair_lem_example = allot_name_pair_lem one_name group one_name-IsValid

get_name_list_lem_example : get_name_list one_name group ≡ (group ++ suffix 0) ∷ []
unfolding find name_eq
get_name_list_lem_example = get_name_list_lem one_name group one_name-IsValid

name_inj_test : (group ≡ group) × (◌≡◌ {A = ℕ} 7 7)
name_inj_test = name_inj group group 7 7 (omega arith) (omega arith) refl

run-Distinct_example :
    (names : List Name) × (run [] (group ∷ [] ∷ group ∷ []) ≡ some names) × Distinct names
run-Distinct_example = run-Distinct (group ∷ [] ∷ group ∷ [])

-- Requests for "db", for nothing twice, and for "db" again, with replies that only count the names.
abbrev polls : List (Option Name)
polls = some group ∷ none ∷ some [] ∷ none ∷ some group ∷ []

abbrev counted : List Name → Frame
counted l = length l ∷ []

published_names :
    published [] (asked polls) ≡ (group ++ suffix 0) ∷ suffix 0 ∷ (group ++ suffix 1) ∷ []
unfolding find insert name_eq
published_names = refl

server_loop-answers_example :
    (server_loop counted polls set_up
      ≡ some (
        server_with
            (binds "tcp://*:5555" ∷ map sends (replies counted [] (asked polls)))
            (binds "tcp://*:5556" ∷ map sends (published [] (asked polls))),
        groups_after [] (asked polls),
      ))
    × Distinct (published [] (asked polls))
server_loop-answers_example = server_loop-answers counted polls

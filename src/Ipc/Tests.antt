-- ===== src/Ipc/Tests.antt =====
-- Two brokers on concrete command lines.
use mathlib.Core.List.{Memᴰ}
use canna.Prelude.{◌≡◌, ◌≢◌, ◌↔◌, ◌≤◌, refl, [], ◌∷◌, some, none, length, arith}
use canna.Broker.{Frame}
use canna.Ipc.{
  at_cloud, ipc_name, cloudfe, cloudbe, binds, connects, identifies, joined, cluster_main,
  peering1_main, peering_main,
}
use canna.Ipc.Bounds.{Short, cluster_plan, peering1_plan, cluster_main-fits, peering1_main-fits}
use canna.Ipc.Overflow.{mains-fit}
use canna.Ipc.Wired.{cluster, peering1, main-meets, main-binds, Meet}
use canna.Ipc.Reached.{main-reaches_cloud}

-- "a" and "b"
abbrev a_name : Frame
a_name = b'a' ∷ []

abbrev b_name : Frame
b_name = b'b' ∷ []

mains-fit_example :
    ((cluster_main (a_name ∷ b_name ∷ []) ≢ none) ↔ ((length a_name ≤ 45) × Short 47 (b_name ∷ [])))
    × ((peering1_main (a_name ∷ b_name ∷ []) ≢ none)
        ↔ ((length a_name ≤ 45) × Short 47 (b_name ∷ [])))
    × ((peering_main (a_name ∷ b_name ∷ []) ≢ none)
        ↔ ((length a_name ≤ 47) × Short 47 (b_name ∷ [])))
mains-fit_example = mains-fit a_name (b_name ∷ [])

a_calls : cluster_main (a_name ∷ b_name ∷ []) ≡ some (joined (cluster_plan a_name (b_name ∷ [])))
a_calls = cluster_main-fits a_name (b_name ∷ []) (omega arith) (omega arith, tt)

b_calls : peering1_main (b_name ∷ []) ≡ some (joined (peering1_plan b_name []))
b_calls = peering1_main-fits b_name [] (omega arith) tt

a_connects :
    Memᴰ (connects cloudbe (ipc_name b_name at_cloud)) (joined (cluster_plan a_name (b_name ∷ [])))
a_connects = Memᴰ.tail (Memᴰ.tail (Memᴰ.tail (Memᴰ.tail (Memᴰ.tail (Memᴰ.head refl)))))

b_binds : Memᴰ (binds cloudfe (ipc_name b_name at_cloud)) (joined (peering1_plan b_name []))
b_binds = Memᴰ.tail (Memᴰ.head refl)

main-meets_example : Memᴰ b_name (b_name ∷ []) × Meet cloudbe cloudfe
main-meets_example =
    main-meets cluster peering1 a_name b_name (b_name ∷ []) [] a_calls b_calls a_connects b_binds

main-binds_test : (b_name ≡ b_name) × (cloudfe ≡ cloudfe)
main-binds_test = main-binds peering1 peering1 b_name b_name [] [] b_calls b_calls b_binds b_binds

main-reaches_cloud_test :
    Memᴰ (connects cloudbe (ipc_name b_name at_cloud)) (joined (cluster_plan a_name (b_name ∷ [])))
    × Memᴰ (identifies cloudfe b_name) (joined (peering1_plan b_name []))
    × Memᴰ (binds cloudfe (ipc_name b_name at_cloud)) (joined (peering1_plan b_name []))
main-reaches_cloud_test =
    main-reaches_cloud cluster peering1 a_name b_name (b_name ∷ []) [] (λ e. cc) (λ e. cc) a_calls
      b_calls (Memᴰ.head refl)

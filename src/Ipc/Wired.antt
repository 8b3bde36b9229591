-- ===== src/Ipc/Wired.antt =====
-- Which socket of which broker a socket is connected to, for brokers of the three programs.
use mathlib.Core.List.{Memᴰ}
use canna.Prelude.{
  ℕ, ◌≡◌, refl, sym, ap, ◌∙◌, List, [], ◌∷◌, ◌++◌, Option, some, some_inj, replicate, zero, suc,
  subst,
}
use canna.Broker.{Frame}
use canna.Ipc.{
  Port, at_localfe, at_localbe, at_cloud, at_cloudbe, at_state, at_monitor, ipc_name, Socket,
  localfe, localbe, cloudfe, cloudbe, statebe, statefe, monitor, Call, binds, connects,
  starts_worker, starts_client, joined, cluster_main, peering1_main, peering_main,
}
use canna.Ipc.Bounds.{
  connections, cluster_plan, peering1_plan, peering_plan, cluster_main-fits, peering1_main-fits,
  peering_main-fits,
}
use canna.Ipc.Overflow.{cluster_main-Short, peering1_main-Short, peering_main-Short}
use canna.Ipc.Distinct.{ipc_name_inj}

-- The three programs.
pub data Program : Type 0 where
  cluster peering1 peering : Program

abbrev pub main : Program → List Frame → Option (List Call)
main cluster = cluster_main
main peering1 = peering1_main
main peering = peering_main

-- The sockets that meet at a port: the one that is bound there, and the one that is connected.
abbrev pub Meet : Socket → Socket → Type 0
Meet cloudbe cloudfe = Unit
Meet statefe statebe = Unit
Meet s t = ⊥

abbrev bound_at : Port → Socket
bound_at at_localfe = localfe
bound_at at_localbe = localbe
bound_at at_cloud = cloudfe
bound_at at_cloudbe = cloudbe
bound_at at_state = statebe
bound_at at_monitor = monitor

-- What a broker's calls may be.
abbrev Right : Frame → List Frame → Call → Type 0
Right self peers (binds t name) = (p : Port) × (name ≡ ipc_name self p) × (t ≡ bound_at p)
Right self peers (connects s name) =
    (peer : Frame) × (p : Port) × Memᴰ peer peers × (name ≡ ipc_name peer p) × Meet s (bound_at p)
Right self peers c = Unit

abbrev Each : (Call → Type 0) → List Call → Type 0
Each P [] = Unit
Each P (c ∷ calls) = P c × Each P calls

module _ (P : Call → Type 0) where
  Each-append : (a b : List Call) → Each P a → Each P b → Each P (a ++ b)
  Each-append [] b h k = k
  Each-append (c ∷ a) b (h, hs) k = (h, Each-append a b hs k)

  Each-of : (calls : List Call) {c : Call} → Each P calls → Memᴰ c calls → P c
  Each-of [] h m = elim m [ ]
  Each-of (d ∷ calls) (h, hs) (Memᴰ.head e) = subst P (sym e) h
  Each-of (d ∷ calls) (h, hs) (Memᴰ.tail m) = Each-of calls hs m

  Each-replicate : (n : ℕ) (c : Call) → P c → Each P (replicate n c)
  Each-replicate zero c h = tt
  Each-replicate (suc n) c h = (h, Each-replicate n c h)

  infixr 20 ◌&◌
  data EachPart : List (List Call) → Type 0 where
    done : EachPart []
    ◌&◌ :
        {calls : List Call} {later : List (List Call)}
        → Each P calls
        → EachPart later
        → EachPart (calls ∷ later)

  Each-joined : (parts : List (List Call)) → EachPart parts → Each P (joined parts)
  Each-joined [] done = tt
  Each-joined (calls ∷ later) (h & hs) = Each-append calls (joined later) h (Each-joined later hs)

connections-Right :
    (self : Frame) (all peers : List Frame) (s : Socket) (p : Port)
    → Meet s (bound_at p)
    → ((peer : Frame) → Memᴰ peer peers → Memᴰ peer all)
    → Each (Right self all) (connections s peers p)
connections-Right self all [] s p h k = tt
connections-Right self all (peer ∷ peers) s p h k = (
  (peer, p, k peer (Memᴰ.head refl), refl, h),
  connections-Right self all peers s p h (λ q m. k q (Memᴰ.tail m)),
)

abbrev pub plan : Program → Frame → List Frame → List (List Call)
plan cluster = cluster_plan
plan peering1 = peering1_plan
plan peering = peering_plan

pub main-plan :
    (a : Program) (self : Frame) (peers : List Frame) {calls : List Call}
    → main a (self ∷ peers) ≡ some calls
    → calls ≡ joined (plan a self peers)
main-plan cluster self peers e =
    let (h, k) = cluster_main-Short self peers (λ n. let m = sym n ∙ e in cc) in
    some_inj (sym e ∙ cluster_main-fits self peers h k)
main-plan peering1 self peers e =
    let (h, k) = peering1_main-Short self peers (λ n. let m = sym n ∙ e in cc) in
    some_inj (sym e ∙ peering1_main-fits self peers h k)
main-plan peering self peers e =
    let (h, k) = peering_main-Short self peers (λ n. let m = sym n ∙ e in cc) in
    some_inj (sym e ∙ peering_main-fits self peers h k)

plan-Right :
    (a : Program) (self : Frame) (peers : List Frame)
    → EachPart (Right self peers) (plan a self peers)
plan-Right cluster self peers =
    ((at_localfe, refl, refl), tt)
    & ((at_localbe, refl, refl), tt)
    & (tt, tt)
    & ((at_cloud, refl, refl), tt)
    & (tt, tt)
    & connections-Right self peers peers cloudbe at_cloud tt (λ q m. m)
    & ((at_state, refl, refl), tt)
    & (tt, tt)
    & connections-Right self peers peers statefe at_state tt (λ q m. m)
    & ((at_monitor, refl, refl), tt)
    & Each-replicate (Right self peers) 5 starts_worker tt
    & Each-replicate (Right self peers) 10 starts_client tt
    & done
plan-Right peering1 self peers =
    (tt, tt)
    & ((at_cloud, refl, refl), tt)
    & (tt, tt)
    & connections-Right self peers peers cloudbe at_cloud tt (λ q m. m)
    & ((at_localfe, refl, refl), tt)
    & ((at_localbe, refl, refl), tt)
    & Each-replicate (Right self peers) 3 starts_worker tt
    & Each-replicate (Right self peers) 5 starts_client tt
    & done
plan-Right peering self peers =
    ((at_state, refl, refl), tt)
    & (tt, tt)
    & connections-Right self peers peers statefe at_state tt (λ q m. m)
    & done

main-Right :
    (a : Program) (self : Frame) (peers : List Frame) {calls : List Call} {c : Call}
    → main a (self ∷ peers) ≡ some calls
    → Memᴰ c calls
    → Right self peers c
main-Right a self peers {calls} e m =
    Each-of (Right self peers) calls
      (rw (main-plan a self peers e)
        (Each-joined (Right self peers) (plan a self peers) (plan-Right a self peers)))
      m

-- Whatever programs two brokers run: a socket of the first that main connects meets a socket that
-- the other binds, by the name of the endpoint, only if the other is a peer of the first on its
-- command line, and then `cloudbe` meets `cloudfe`, or `statefe` meets `statebe`.
pub main-meets :
    (a b : Program) (self other : Frame) (peers others : List Frame) {calls calls' : List Call}
    {s t : Socket} {name : Frame}
    → main a (self ∷ peers) ≡ some calls
    → main b (other ∷ others) ≡ some calls'
    → Memᴰ (connects s name) calls
    → Memᴰ (binds t name) calls'
    → Memᴰ other peers × Meet s t
main-meets a b self other peers others {s = s} e f m n =
    let (peer, p, in_peers, named, meet) = main-Right a self peers e m in
    let (q, named', bound) = main-Right b other others f n in
    let (same, port) = ipc_name_inj peer other p q (sym named ∙ named') in
    (
      subst (λ (l : Frame). Memᴰ l peers) same in_peers,
      subst (Meet s) (ap bound_at port ∙ sym bound) meet,
    )

-- Whatever programs two brokers run: no endpoint is bound twice, by two brokers or by two sockets of
-- one.
pub main-binds :
    (a b : Program) (self other : Frame) (peers others : List Frame) {calls calls' : List Call}
    {s t : Socket} {name : Frame}
    → main a (self ∷ peers) ≡ some calls
    → main b (other ∷ others) ≡ some calls'
    → Memᴰ (binds s name) calls
    → Memᴰ (binds t name) calls'
    → (self ≡ other) × (s ≡ t)
main-binds a b self other peers others e f m n =
    let (p, named, bound) = main-Right a self peers e m in
    let (q, named', bound') = main-Right b other others f n in
    let (same, port) = ipc_name_inj self other p q (sym named ∙ named') in
    (same, bound ∙ ap bound_at port ∙ sym bound')

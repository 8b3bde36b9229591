-- ===== src/Names/Loop.antt =====
-- The name server's loop answers every request.
use canna.Prelude.{
  ◌≡◌, refl, sym, ap₂, ◌∙◌, List, [], ◌∷◌, ◌++◌, map, Option, none, some, append-nil, append_assoc,
}
use canna.Zmq.{Frame, zmq_rep, zmq_pub, Call, binds, sends}
use canna.Names.{Name, Groups, find, get_name_list}
use canna.Names.Allot.{IsValid, next_serial, allotted, allotted-IsValid, empty-IsValid}
use canna.Names.Served.{published, published-Distinct, Distinct, serve_lem}
use canna.Names.Server.{
  NameServer, initialize, sock_create, sock_bind, sock_send, responder_create, publisher_create,
  responder_bind, publisher_bind, set_up, answer, loop_turn, server_turns, server_loop, asked,
}

-- A server with both sockets, by the calls made on each.
abbrev pub server_with : List Call → List Call → NameServer
server_with responses publications = record {
  responder = some (record { kind = zmq_rep; inbox = []; calls = responses });
  publisher = some (record { kind = zmq_pub; inbox = []; calls = publications });
}

snoc-append :
    (calls : List Call) (frame : Frame) (frames : List Frame)
    → (calls ++ sends frame ∷ []) ++ map sends frames ≡ calls ++ map sends (frame ∷ frames)
snoc-append calls frame frames = append_assoc calls (sends frame ∷ []) (map sends frames)

-- The groups after a sequence of requests.
abbrev pub groups_after : Groups → List Name → Groups
groups_after m [] = m
groups_after m (group ∷ rest) = groups_after (allotted m group (next_serial (find group m))).0 rest

module _ (serialize : List Name → Frame) where
  -- The replies to a sequence of requests: each time the names of the group, the new one included.
  abbrev pub replies : Groups → List Name → List Frame
  replies m [] = []
  replies m (group ∷ rest) =
      let r = allotted m group (next_serial (find group m)) in
      serialize (get_name_list r.0 group) ∷ replies r.0 rest

  loop_turn-some :
      (group : Name) (m : Groups) (rs ps : List Call)
      → IsValid m
      → let r = allotted m group (next_serial (find group m)) in
        loop_turn serialize (some group) (server_with rs ps, m)
        ≡ some (
          server_with
              (rs ++ sends (serialize (get_name_list r.0 group)) ∷ [])
              (ps ++ sends r.1 ∷ []),
          r.0,
        )
  unfolding loop_turn answer sock_send
  loop_turn-some group m rs ps v = rw (serve_lem serialize m group v, loop_turn) refl

  server_turns-none :
      (polls : List (Option Name)) (sm : NameServer × Groups)
      → server_turns serialize (none ∷ polls) sm ≡ server_turns serialize polls sm
  unfolding server_turns loop_turn
  server_turns-none polls sm = refl

  server_turns-answers :
      (polls : List (Option Name)) (m : Groups) (rs ps : List Call)
      → IsValid m
      → server_turns serialize polls (server_with rs ps, m)
        ≡ some (
          server_with
              (rs ++ map sends (replies m (asked polls)))
              (ps ++ map sends (published m (asked polls))),
          groups_after m (asked polls),
        )
  unfolding server_turns
  server_turns-answers [] m rs ps v =
      ap₂ (λ a b. some (server_with a b, m)) (sym (append-nil rs)) (sym (append-nil ps))
  server_turns-answers (none ∷ polls) m rs ps v =
      server_turns-none polls (server_with rs ps, m) ∙ server_turns-answers polls m rs ps v
  server_turns-answers (some group ∷ polls) m rs ps v =
      let r = allotted m group (next_serial (find group m)) in
      let reply = serialize (get_name_list r.0 group) in
      rw (loop_turn-some group m rs ps v, server_turns)
        (server_turns-answers polls r.0 (rs ++ sends reply ∷ []) (ps ++ sends r.1 ∷ [])
            (allotted-IsValid m group v)
          ∙ ap₂ (λ a b. some (server_with a b, groups_after r.0 (asked polls)))
              (snoc-append rs reply (replies r.0 (asked polls)))
              (snoc-append ps r.1 (published r.0 (asked polls))))

  -- As `main` sets the server up, its loop follows no null pointer and every turn ends. In any
  -- number of turns it sends one reply for each request, in order, with the names of the group
  -- allotted so far, and publishes one name for each request, in order; no name but the empty one is
  -- published twice.
  pub server_loop-answers :
      (polls : List (Option Name))
      → (server_loop serialize polls set_up
          ≡ some (
            server_with
                (binds "tcp://*:5555" ∷ map sends (replies [] (asked polls)))
                (binds "tcp://*:5556" ∷ map sends (published [] (asked polls))),
            groups_after [] (asked polls),
          ))
        × Distinct (published [] (asked polls))
  unfolding server_loop set_up initialize sock_create sock_bind responder_create publisher_create
      responder_bind publisher_bind
  server_loop-answers polls = (
    server_turns-answers polls [] (binds "tcp://*:5555" ∷ []) (binds "tcp://*:5556" ∷ [])
        empty-IsValid,
    published-Distinct (asked polls) [] empty-IsValid,
  )

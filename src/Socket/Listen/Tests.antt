-- ===== src/Socket/Listen/Tests.antt =====
-- Listening at concrete inputs.
use canna.Prelude.{ℕ, ◌≡◌, refl, true, false, List, [], ◌∷◌, Option, none, some}
use canna.Core.{digits}
use canna.Socket.Types.{invalid, Socket, Server}
use canna.Socket.Api.{initialize}
use canna.Socket.Listen.{
  NetCall, get_addresses, free_addresses, make_socket, set_reuse, bind_address, close_descriptor,
  stream, Net, Setup, port_text, do_bind, bind_resolved, bind_socket, listen_bound, do_listen,
  server_listen_at, try_initialize,
}
use canna.Socket.Listen.Closed.{
  Tidy, do_listen-Tidy, Handed, server_listen_at-Handed, SetUp, try_initialize-SetUp,
}

abbrev memory : ℕ → Socket
memory _ = record {
  opaque = 0;
  high = [];
  low = [];
  wb_size = 0;
  fd = 0;
  id = 0;
  protocol = 0;
  type = invalid;
  size = 0;
}

-- The port is taken: `bind` fails.
abbrev taken_port : Net
taken_port = record {
  resolved = some (2, 1);
  made = some 7;
  reuses = true;
  binds = false;
  listens = true;
}

abbrev host : Option (List ℕ)
host = some (b'h' ∷ [])

do_listen_fails :
    do_listen taken_port host 80 5
    ≡ some (
      none,
      get_addresses (b'h' ∷ []) (b'8' ∷ b'0' ∷ []) stream
          ∷ make_socket 2 1 (some 7)
          ∷ set_reuse 7
          ∷ bind_address 7
          ∷ close_descriptor 7
          ∷ free_addresses
          ∷ [],
    )
unfolding do_listen do_bind bind_resolved bind_socket listen_bound port_text digits
do_listen_fails = refl

do_listen-Tidy_test :
    (fd : Option ℕ) × (calls : List NetCall) × (do_listen taken_port host 80 5 ≡ some (fd, calls))
    × Tidy taken_port fd calls
do_listen-Tidy_test = do_listen-Tidy taken_port host 80 5

server_listen_at-Handed_example :
    (t : Server) × (id : Option ℕ) × (calls : List NetCall) × (server_listen_at taken_port host 80 5
        3
        (initialize memory)
      ≡ some (t, id, calls))
    × Handed (initialize memory) 3 t id calls
server_listen_at-Handed_example = server_listen_at-Handed taken_port host 80 5 3 (initialize memory)

-- epoll does not take the pipe.
abbrev unwatched : Setup
unwatched = record { epoll = some 3; pipe = some (4, 5); watches = false }

try_initialize-SetUp_test : SetUp unwatched memory (try_initialize unwatched memory)
try_initialize-SetUp_test = try_initialize-SetUp unwatched memory

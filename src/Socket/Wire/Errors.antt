-- ===== src/Socket/Wire/Errors.antt =====
-- gateserver/socket_server.cpp: has_cmd, and block_readpipe and the start of ctrl_cmd over what
-- `select` and each `read` answer.
use canna.Prelude.{
  ℕ, zero, suc, ◌≡◌, refl, Bool, false, List, [], ◌∷◌, ◌++◌, Option, none, some, if◌then◌else◌,
  ◌==◌, ==_self, replicate, get_or,
}
use canna.Socket.Wire.{block_read_pipe, read_request}

-- `has_cmd`; `select` answers how many descriptors are ready, or an error.
unfoldable pub has_cmd : Option ℕ → Bool
has_cmd none = false
has_cmd (some retval) = retval == 1

-- What one `read` answers: EINTR, another error, or a number of bytes.
pub data Read : Type 0 where
  interrupted broken : Read
  reads : ℕ → Read

-- `block_readpipe` of so many bytes into a buffer: the buffer, and what is left in the pipe; `none`
-- while it waits, or where the assertion fails. After another error the buffer is as it was.
unfoldable pub block_readpipe : List Read → ℕ → List ℕ → List ℕ → Option (List ℕ × List ℕ)
block_readpipe [] sz buffer pipe = none
block_readpipe (interrupted ∷ answers) sz buffer pipe = block_readpipe answers sz buffer pipe
block_readpipe (broken ∷ answers) sz buffer pipe = some (buffer, pipe)
block_readpipe (reads n ∷ answers) sz buffer pipe =
    if n == sz then block_read_pipe sz pipe else none

-- The two reads of `ctrl_cmd`: the type of the request, its bytes, and what is left. `header` and
-- `buffer` are what the two arrays hold before.
unfoldable pub read_with :
    (head_reads body_reads : List Read) (header buffer pipe : List ℕ) → Option (ℕ × List ℕ × List ℕ)
read_with head_reads body_reads header buffer pipe =
    elim (block_readpipe head_reads 2 header pipe) [
      | none ↦ none
      | some (head, later) ↦ elim (block_readpipe body_reads (get_or head 1 0) buffer later) [
        | none ↦ none
        | some (body, left) ↦ some (get_or head 0 0, body, left)
      ]
    ]

block_readpipe-full :
    (m n : ℕ) (answers : List Read) (buffer pipe : List ℕ)
    → block_readpipe (replicate m interrupted ++ reads n ∷ answers) n buffer pipe
      ≡ block_read_pipe n pipe
unfolding block_readpipe
block_readpipe-full zero n answers buffer pipe = rw (==_self n) refl
block_readpipe-full (suc m) n answers buffer pipe = block_readpipe-full m n answers buffer pipe

block_readpipe-broken :
    (m n : ℕ) (answers : List Read) (buffer pipe : List ℕ)
    → block_readpipe (replicate m interrupted ++ broken ∷ answers) n buffer pipe
      ≡ some (buffer, pipe)
unfolding block_readpipe
block_readpipe-broken zero n answers buffer pipe = refl
block_readpipe-broken (suc m) n answers buffer pipe = block_readpipe-broken m n answers buffer pipe

-- However often the two reads of a request are interrupted before they return all their bytes, the
-- request comes out of the pipe as in the model of `ctrl_cmd`, whatever the arrays held before.
pub read_with-read_request :
    (m n type len : ℕ) (later later' : List Read) (header buffer pipe : List ℕ)
    → read_with
        (replicate m interrupted ++ reads 2 ∷ later)
        (replicate n interrupted ++ reads len ∷ later')
        header
        buffer
        (type ∷ len ∷ pipe)
      ≡ read_request (type ∷ len ∷ pipe)
unfolding read_with read_request block_read_pipe
read_with-read_request m n type len later later' header buffer pipe =
    rw
      (
        read_with,
        block_readpipe-full m 2 later header (type ∷ len ∷ pipe),
        block_readpipe-full n len later' buffer pipe,
      )
      refl

-- Where the read of the header fails for another reason than a signal, the type and the length of
-- the request are what the array held before, and the bytes are read from the start of the pipe.
pub read_with-broken :
    (m n type len : ℕ) (later later' : List Read) (rest buffer pipe : List ℕ)
    → read_with
        (replicate m interrupted ++ broken ∷ later)
        (replicate n interrupted ++ reads len ∷ later')
        (type ∷ len ∷ rest)
        buffer
        pipe
      ≡ read_request (type ∷ len ∷ pipe)
unfolding read_with read_request
read_with-broken m n type len later later' rest buffer pipe =
    rw
      (
        read_with,
        block_readpipe-broken m 2 later (type ∷ len ∷ rest) pipe,
        block_readpipe-full n len later' buffer pipe,
      )
      refl

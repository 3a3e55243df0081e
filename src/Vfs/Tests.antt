-- ===== src/Vfs/Tests.antt =====
-- Witnesses for vfs.c: small pipes, and a short history of calls.
use mazuki_os.Base.{
  ℕ, ◌≡◌, refl, arith, some, List, [], ◌∷◌, ◌++◌, length, replicate, length-replicate, ℤ, pos, true,
}
use mazuki_os.Vfs.State.{Vfs, Pipe, pipe_size, vfs_init, zeroed_vfs}
use mazuki_os.Vfs.Pipe.Fifo.{IsSoundPipe, queued, reads, writes, run, run_fifo}
use mazuki_os.Vfs.Requests.{Request, pipe, socket, bind, accept, recv, close, serve}
use mazuki_os.Vfs.Ownership.Refs.{IsSound}
use mazuki_os.Vfs.Ownership.History.{serve-IsSafe, vfs_init-IsSound}

-- An empty pipe with one reader and one writer, about to go round its end.
abbrev open_pipe : Pipe
open_pipe = record {
  ring = record { cells = replicate pipe_size 7; read_pos = 4095; write_pos = 1; count = 2 };
  readers = 1;
  writers = 1;
  used = true;
}

open_pipe-IsSoundPipe : IsSoundPipe open_pipe
open_pipe-IsSoundPipe = record {
  storage = length-replicate {A = ℕ} pipe_size 7;
  reads_in = omega arith;
  count_in = omega arith;
  writes_at = refl;
}

run_fifo_example :
    let t = run (writes (1 ∷ 2 ∷ []) ∷ reads 3 ∷ []) open_pipe in
    queued open_pipe ++ t.sent ≡ t.received ++ queued t.pipe
run_fifo_example = run_fifo (writes (1 ∷ 2 ∷ []) ∷ reads 3 ∷ []) open_pipe open_pipe-IsSoundPipe

-- A stream socket is opened, bound, refused an `accept`, and closed twice.
abbrev session : List Request
session =
    pipe
    ∷ socket 1 1 0
    ∷ bind (pos 5) (some (1 ∷ 0 ∷ 47 ∷ [])) 3
    ∷ accept (pos 5)
    ∷ recv (pos 5) 10
    ∷ close (pos 5)
    ∷ close (pos 5)
    ∷ close (pos 3)
    ∷ []

serve-IsSafe_example :
    (s' : Vfs) × (results : List ℤ) × (serve session (vfs_init zeroed_vfs) ≡ some (s', results))
    × IsSound s'
    × (length results ≡ 8)
serve-IsSafe_example = serve-IsSafe session (vfs_init zeroed_vfs) vfs_init-IsSound

-- ===== src/Vfs/Pipe/Fifo.antt =====
-- A pipe under reads and writes against the queue of its bytes.
use mazuki_os.Base.{
  ℕ, ◌-◌, min, ◌≡◌, ◌≢◌, refl, ap, List, [], ◌∷◌, ◌++◌, append_assoc, append-nil, arith, ==_ne,
  ℕ_discrete, take-min, length, take, drop, take-append-drop, ℤ, pos, negsuc, neg,
}
use mazuki_os.Ring.Contents.{IsValid, contents}
use mazuki_os.Ring.{fill}
use mazuki_os.Ring.Transfer.{Filled, fill-Filled, drain-Drained}
use mazuki_os.Vfs.State.{Pipe, pipe_size}
use mazuki_os.Vfs.Pipe.{pipe_read, pipe_write}

-- The bytes in the pipe, oldest first.
abbrev pub queued : Pipe → List ℕ
queued p = contents 0 pipe_size p.ring

abbrev pub IsSoundPipe : Pipe → Type 0
IsSoundPipe p = IsValid pipe_size p.ring

-- `pipe_read` returns the oldest bytes, as many as there are up to `size`, and leaves the others
-- in order; the ends and the slot's mark stay.
pub pipe_read_lem :
    (size : ℕ) (p : Pipe)
    → IsSoundPipe p
    → let (bytes, p') = pipe_read size p in
      IsSoundPipe p'
      × (bytes ≡ take size (queued p))
      × (queued p' ≡ drop size (queued p))
      × (p'.readers ≡ p.readers)
      × (p'.writers ≡ p.writers)
      × (p'.used ≡ p.used)
unfolding pipe_read
pipe_read_lem size p v =
    let d = drain-Drained 0 pipe_size size {r = p.ring} v in
    (d.valid, d.copied, d.left, refl, refl, refl)

-- `pipe_write` to a pipe with no reader is refused with -32 and changes nothing. To any other it
-- takes as many bytes as there is room for, from the front, appends just these and returns their
-- number.
pub pipe_write_lem :
    (buffer : List ℕ) (p : Pipe)
    → IsSoundPipe p
    → let (p', result) = pipe_write buffer p in
      let room = pipe_size - p.ring.count in
      (p.readers ≡ 0 → (p' ≡ p) × (result ≡ neg 32))
      × (p.readers ≢ 0
          → IsSoundPipe p'
            × (result ≡ pos (min (length buffer) room))
            × (queued p' ≡ queued p ++ take room buffer))
unfolding pipe_write
pipe_write_lem buffer p v = (
  λ closed. ground arith,
  λ r. rw (==_ne p.readers 0 r) (f.valid, ap pos (omega (arith, f.written)), f.kept),
)
  where
    f : Filled 0 pipe_size p.ring buffer 0 (fill pipe_size buffer 0 p.ring)
    f = fill-Filled 0 pipe_size buffer 0 {r = p.ring} v

pipe_write-IsSoundPipe :
    (buffer : List ℕ) (p : Pipe) → IsSoundPipe p → IsSoundPipe (pipe_write buffer p).0
pipe_write-IsSoundPipe buffer p v = elim (ℕ_discrete p.readers 0) [
  | yes closed ↦ rw ((pipe_write_lem buffer p v).0 closed).0 v
  | no r ↦ ((pipe_write_lem buffer p v).1 r).0
]

-- The bytes of the buffer that a write took, by its result.
abbrev pub accepted : ℤ → List ℕ → List ℕ
accepted (pos n) buffer = take n buffer
accepted (negsuc e) buffer = []

pipe_write-queued :
    (buffer : List ℕ) (p : Pipe)
    → IsSoundPipe p
    → let (p', result) = pipe_write buffer p in queued p' ≡ queued p ++ accepted result buffer
pipe_write-queued buffer p v = elim (ℕ_discrete p.readers 0) [
  | yes closed ↦ let w = (pipe_write_lem buffer p v).0 closed in rw (w.1, w.0, append-nil)
  | no r ↦
      let w = (pipe_write_lem buffer p v).1 r in
      rw (w.1, w.2, take-min (pipe_size - p.ring.count) buffer)
]

-- Reads and writes in some order, by any processes.
pub data PipeCall : Type 0 where
  reads : ℕ → PipeCall
  writes : List ℕ → PipeCall

pub record Transfers : Type 0 where
  pub sent : List ℕ
  pub received : List ℕ
  pub pipe : Pipe

-- The bytes that all the writes took and all the reads returned, each in the order of the calls.
unfoldable pub run : List PipeCall → Pipe → Transfers
run [] p = record { sent = []; received = []; pipe = p }
run (reads size ∷ cs) p =
    let (bytes, p') = pipe_read size p in
    let t = run cs p' in record t { received = bytes ++ t.received }
run (writes buffer ∷ cs) p =
    let (p', result) = pipe_write buffer p in
    let t = run cs p' in record t { sent = accepted result buffer ++ t.sent }

-- Over any history of reads and writes of a sound pipe no byte is lost, doubled or moved: what was
-- in the pipe, followed by all that the writes took, is all that the reads returned, followed by
-- what is left in the pipe.
pub run_fifo :
    (cs : List PipeCall) (p : Pipe)
    → IsSoundPipe p
    → let t = run cs p in queued p ++ t.sent ≡ t.received ++ queued t.pipe
unfolding run
run_fifo [] p v = rw append-nil
run_fifo (reads size ∷ cs) p v =
    let r = pipe_read_lem size p v in
    let rest = run_fifo cs (pipe_read size p).1 r.0 in
    rw (append_assoc, ← rest, r.1, r.2, ← append_assoc, take-append-drop)
run_fifo (writes buffer ∷ cs) p v =
    rw (← append_assoc, ← pipe_write-queued buffer p v)
      (run_fifo cs (pipe_write buffer p).0 (pipe_write-IsSoundPipe buffer p v))

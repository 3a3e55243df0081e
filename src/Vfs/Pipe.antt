-- ===== src/Vfs/Pipe.antt =====
-- `pipe_read`, `pipe_write` and `vfs_pipe`.
pub mod Fifo
use mathlib.Core.Option
use mazuki_os.Base.{
  ℕ, zero, ◌-◌, Bool, true, false, not, Option, none, some, List, [], ◌==◌, if◌then◌else◌, length,
  get_elem?, first_where, ℤ, pos, negsuc, neg,
}
use mazuki_os.Ring.{Ring, fill, drain}
use mazuki_os.Vfs.State.{
  Vfs, Pipe, FileType, Target, Call, pipe_size, allocate_fd, set_file, set_pipe,
}

-- The bytes copied, and the pipe after it; the result in C is their number.
unfoldable pub pipe_read : ℕ → Pipe → List ℕ × Pipe
pipe_read size p = let (bytes, r) = drain pipe_size 0 size p.ring in (bytes, record p { ring = r })

unfoldable pub pipe_write : List ℕ → Pipe → Pipe × ℤ
pipe_write buffer p =
    let (written, r) = fill pipe_size buffer 0 p.ring in
    if p.readers == 0 then (p, neg 32) else (record p { ring = r }, pos written)

-- The entry that `vfs_pipe` takes; the data stay as they are.
abbrev pub fresh_pipe : Pipe → Pipe
fresh_pipe p = record {
  ring = record { cells = p.ring.cells; read_pos = 0; write_pos = 0; count = 0 };
  readers = 1;
  writers = 1;
  used = true;
}

abbrev pub drop_pipe : Pipe → Pipe
drop_pipe p = record p { used = false }

-- The two descriptors on success.
pub record Ends : Type 0 where
  pub read_fd : ℕ
  pub write_fd : ℕ

-- With the pipe taken and its read end open, open the write end.
unfoldable pub open_write_end : ℕ → ℕ → Vfs → Vfs × ℤ × Option Ends
open_write_end j read_fd s =
    let (s', fd) = allocate_fd FileType.pipe_write (Target.pipe j) s in
    elim fd [
      | pos write_fd ↦ (s', pos 0, some (record { read_fd = read_fd; write_fd = write_fd }))
      | negsuc e ↦ (
        set_pipe j drop_pipe (set_file read_fd (λ f. record f { type = FileType.empty }) s'),
        negsuc e,
        none,
      )
    ]

unfoldable pub open_read_end : ℕ → Vfs → Vfs × ℤ × Option Ends
unfolding open_write_end
open_read_end j s =
    let (s', fd) = allocate_fd FileType.pipe_read (Target.pipe j) (set_pipe j fresh_pipe s) in
    elim fd [
      | pos read_fd ↦ open_write_end j read_fd s'
      | negsuc e ↦ (set_pipe j drop_pipe s', negsuc e, none)
    ]

unfoldable pub vfs_pipe : Vfs → Vfs × ℤ × Option Ends
unfolding open_read_end
vfs_pipe s = elim (first_where (λ p. not p.used) s.pipes 0) [
  | none ↦ (s, neg 24, none)
  | some j ↦ open_read_end j s
]

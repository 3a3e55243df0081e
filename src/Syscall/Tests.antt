-- ===== src/Syscall/Tests.antt =====
-- Witnesses for the calls of a program.
use mazuki_os.Base.{
  ℕ, ◌≡◌, refl, inl, Option, none, some, true, List, [], ◌∷◌, ◌++◌, arith, length, drop, pos, codes,
}
use mazuki_os.Io.State.{Kernel, procfs_version_read}
use mazuki_os.Io.Procfs.{version_data}
use mazuki_os.Io.Text.{IsOpen, read_to_end}
use mazuki_os.Io.Boot.{booted, no_node}
use mazuki_os.Io.Samples.{blank_tty, holding_node}
use mazuki_os.Tty.Sequence.{write_all}
use mazuki_os.Syscall.Handler.{sys_brk, sys_mmap2, syscall_handler_c}
use mazuki_os.Syscall.State.{
  Machine, initial_brk, masix_write, masix_writev, masix_llseek, masix_getpid, position, nothing,
  with_kernel,
}
use mazuki_os.Syscall.Memory.{Calls, Apart, mmap2-Apart}
use mazuki_os.Syscall.Seek.{llseek-read_to_end}
use mazuki_os.Syscall.Writev.{writev-write}

abbrev machine : Kernel → Machine
machine k = record {
  kernel = k;
  current_process_brk = initial_brk;
  segments = record { gdt = []; gp_limit = 0 };
  pid = 1;
}

-- Two letters, one of them erased, and the return key.
abbrev typed_keys : List ℕ
typed_keys = b'l' ∷ b'k' ∷ 8 ∷ b's' ∷ []

-- Two pages, a call that has nothing to do with memory, a larger break, and a third page.
abbrev after_calls : Machine
after_calls = record (machine (booted blank_tty)) { current_process_brk = 0x01201000 }

after_calls-Calls :
    Calls
      (machine (booted blank_tty))
      (record { address = 0x01100000; length = 5000 }
        ∷ record { address = 0x01200000; length = 1 }
        ∷ [])
      after_calls
unfolding syscall_handler_c sys_brk sys_mmap2
after_calls-Calls = Calls.mmap2 5000 0x01100000 nothing refl (
    Calls.other masix_getpid 1 nothing tt refl (
      Calls.brk 0x01200000 0x01200000 nothing refl
        (Calls.mmap2 1 0x01200000 nothing refl Calls.done)))

mmap2-Apart_example :
    Apart 0x01100000
      (record { address = 0x01100000; length = 5000 }
        ∷ record { address = 0x01200000; length = 1 }
        ∷ [])
      0x01201000
mmap2-Apart_example = mmap2-Apart after_calls-Calls (omega arith, (omega arith, tt))

version_at :
    IsOpen (holding_node (record no_node { read = procfs_version_read })) 3 64 0 version_data
version_at = record {
  in_table = omega arith;
  at = refl;
  shows = inl (refl, refl);
  within = omega arith;
}

llseek-read_to_end_example :
    let m = machine (holding_node (record no_node { read = procfs_version_read })) in
    (m' : Machine) × (k' : Kernel) × (syscall_handler_c (masix_llseek (pos 3) 0 6 0 true) m
      ≡ some (m', 0, position 6))
    × (read_to_end 60 3 10 m'.kernel ≡ some (k', drop 6 version_data))
llseek-read_to_end_example =
    llseek-read_to_end (machine (holding_node (record no_node { read = procfs_version_read }))) 3 64
      0 6 0 10 60 version_data version_at (omega arith) (omega arith) (omega arith) (omega arith)

abbrev pieces : List (Option (List ℕ))
pieces = some (codes "ls") ∷ none ∷ some (10 ∷ []) ∷ []

writev-write_example :
    (syscall_handler_c (masix_writev (pos 1) (some pieces)) (machine (booted blank_tty))
      ≡ syscall_handler_c
          (masix_write (pos 1) (codes "ls" ++ 10 ∷ []))
          (machine (booted blank_tty)))
    × (syscall_handler_c (masix_write (pos 1) (codes "ls" ++ 10 ∷ [])) (machine (booted blank_tty))
        ≡ some (
          with_kernel
              (machine (booted blank_tty))
              (record (booted blank_tty) { tty = write_all (codes "ls" ++ 10 ∷ []) blank_tty }),
          3,
          nothing,
        ))
writev-write_example =
    writev-write (machine (booted blank_tty)) (pos 1) pieces (inl refl) (omega arith)

-- ===== src/Syscall/Seek.antt =====
-- `_llseek` on a file of the proc file system, and the reads behind it.
use mazuki_os.Base.{
  ℕ, ◌+◌, ◌≤◌, ◌<◌, ◌^◌, ◌≡◌, refl, true, some, List, ==_refl, length, drop, get_elem?-modify, pos,
}
use mazuki_os.Vfs.State.{set_file}
use mazuki_os.Io.State.{Kernel}
use mazuki_os.Io.Text.{IsOpen, lookup_open, read_to_end, read_to_end_lem}
use mazuki_os.Syscall.Handler.{seek, seek_to, seek_in, sys_llseek, syscall_handler_c}
use mazuki_os.Syscall.State.{Machine, masix_llseek, position}

-- The kernel after a seek.
abbrev moved : ℕ → ℕ → Kernel → Kernel
moved n p k = record k { vfs = set_file n (λ f. record f { offset = p }) k.vfs }

moved-IsOpen :
    (k : Kernel) (n a o p : ℕ) (text : List ℕ)
    → IsOpen k n a o text
    → p ≤ length text
    → IsOpen (moved n p k) n a p text
unfolding set_file
moved-IsOpen k n a o p text v le = record {
  in_table = v.in_table;
  at =
      rw (get_elem?-modify k.vfs.fd_table n n (λ f. record f { offset = p }), ==_refl n, v.at) refl;
  shows = v.shows;
  within = le;
}

-- After a seek from the start to any place in a file of the proc file system, wherever the
-- descriptor was, a program that reads to the end gets the bytes from there on.
pub llseek-read_to_end :
    (m : Machine) (n a o p high c fuel : ℕ) (text : List ℕ)
    → IsOpen m.kernel n a o text
    → p ≤ length text
    → 0 < c
    → c < 2 ^ 31
    → length text < fuel + p
    → (m' : Machine) × (k' : Kernel) × (syscall_handler_c (masix_llseek (pos n) high p 0 true) m
        ≡ some (m', 0, position p))
      × (read_to_end fuel n c m'.kernel ≡ some (k', drop p text))
unfolding syscall_handler_c sys_llseek seek_in seek seek_to
llseek-read_to_end m n a o p high c fuel text v le pc small enough =
    let (k', is, w) =
      read_to_end_lem fuel n a c p text (moved n p m.kernel)
        (moved-IsOpen m.kernel n a o p text v le) pc small enough in
    (
      record m { kernel = moved n p m.kernel },
      k',
      rw (lookup_open m.kernel.vfs n v.in_table v.at, sys_llseek) refl,
      is,
    )

-- ===== src/Io/Boot.antt =====
-- The kernel once `vfs_init` has run, with nothing on the disk.
use mazuki_os.Base.{ℕ, refl, [], arith, get_elem?-replicate, pos}
use mazuki_os.Filesystem.{zeroed_filesystem, zeroed_entry, max_files}
use mazuki_os.Alloc.{alloc, first_fit, initialize, align4, carve}
use mazuki_os.Vfs.State.{vfs_init, vfs_mount_core, zeroed_vfs}
use mazuki_os.Vfs.Ownership.History.{vfs_init-IsSound}
use mazuki_os.Tty.{Tty}
use mazuki_os.Io.State.{VfsNode, Kernel, dev_null_read, dev_null_write}
use mazuki_os.Io.Entries.{IsEntry}
use mazuki_os.Io.Kept.{TableFits}
use mazuki_os.Io.Mounts.{AllNonZero}
use mazuki_os.Io.Safe.{IsReady}

-- No node has been opened yet.
abbrev pub no_node : VfsNode
no_node = record {
  name = [];
  flags = 0;
  size = 0;
  internal_id = pos 0;
  read = dev_null_read;
  write = dev_null_write;
}

-- `random_state` as it is declared.
abbrev pub initial_random : ℕ
initial_random = 0x4D617A75

abbrev pub booted : Tty → Kernel
booted t = record {
  vfs = vfs_init zeroed_vfs;
  nodes = λ a. no_node;
  files = zeroed_filesystem;
  tty = t;
  random_state = initial_random;
}

zeroed_entry-IsEntry : IsEntry zeroed_entry
zeroed_entry-IsEntry = record { name_size = refl; ends = refl; slots = refl }

zeroed-TableFits : TableFits zeroed_filesystem.file_table
unfolding zeroed_filesystem
zeroed-TableFits =
    (λ i f e. rw (← get_elem?-replicate max_files zeroed_entry i e) zeroed_entry-IsEntry, refl)

booted-AllNonZero : AllNonZero (vfs_init zeroed_vfs).mount_list
unfolding vfs_init vfs_mount_core zeroed_vfs alloc first_fit initialize align4 carve
booted-AllNonZero = search arith

pub booted-IsReady : (t : Tty) → IsReady (booted t)
booted-IsReady t = record {
  sound = vfs_init-IsSound;
  mounts = booted-AllNonZero;
  table = zeroed-TableFits;
  fits = λ a. record { for_read = λ e. absurd (cc); for_write = λ e. absurd (cc) };
}

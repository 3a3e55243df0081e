-- ===== src/Syscall/Api.antt =====
-- sys/kernel/api.c: `k_sys_write`, `k_sys_read` and `sys_cls`.
use mathlib.Core.Option
use mathlib.Core.List.{reverse}
use mazuki_os.Base.{
  ℕ, zero, suc, ◌+◌, Bool, true, false, ◌||◌, Option, none, some, List, [], ◌∷◌, leb, ◌==◌,
  if◌then◌else◌, length, ℤ, pos, neg, signed32,
}
use mazuki_os.Tty.{Tty, tty_write_char}
use mazuki_os.Tty.Sequence.{write_all}
use mazuki_os.Vfs.State.{File, FileType, lookup_fd}
use mazuki_os.Io.State.{Kernel, Reading}
use mazuki_os.Io.Transfer.{vfs_read, vfs_write, read_socket}

-- The end of `k_sys_write`: an entry of the table by its type.
unfoldable pub write_to : FileType → ℤ → List ℕ → Kernel → Option (Kernel × ℤ)
write_to FileType.vfs_file fd buf k = vfs_write fd buf k
write_to FileType.pipe_write fd buf k = vfs_write fd buf k
write_to FileType.unix_socket fd buf k = vfs_write fd buf k
write_to _ fd buf k = some (k, neg 9)

-- Descriptors below 3 are not looked up.
unfoldable pub lookup_from_3 : ℤ → Kernel → Option (ℕ × File)
lookup_from_3 (pos zero) k = none
lookup_from_3 (pos (suc zero)) k = none
lookup_from_3 (pos (suc (suc zero))) k = none
lookup_from_3 fd k = lookup_fd fd k.vfs

unfoldable pub k_sys_write : ℤ → List ℕ → Kernel → Option (Kernel × ℤ)
k_sys_write (pos (suc zero)) buf k =
    some (record k { tty = write_all buf k.tty }, signed32 (length buf))
k_sys_write (pos (suc (suc zero))) buf k =
    some (record k { tty = write_all buf k.tty }, signed32 (length buf))
k_sys_write fd buf k = elim (lookup_from_3 fd k) [
  | none ↦ some (k, neg 9)
  | some (n, f) ↦ write_to f.type fd buf k
]

-- A backspace takes away the last byte, if there is one.
abbrev pub erase_key : List ℕ → Tty → List ℕ × Tty × Bool
erase_key [] t = ([], t, false)
erase_key (last ∷ before) t = (before, tty_write_char 8 t, false)

-- What one character does in the loop of `k_sys_read`: the bytes stored so far, the last one first,
-- the terminal, and whether the loop is left.
unfoldable pub press : ℕ → ℕ → List ℕ → Tty → List ℕ × Tty × Bool
press count c stored t =
    if (c == b'\n') || (c == b'\r')
    then (b'\n' ∷ stored, tty_write_char b'\n' t, true)
    else if c == 8
    then erase_key stored t
    else (c ∷ stored, tty_write_char c t, length stored + 1 == count)

-- The bytes of a call on descriptor 0, what it left of the characters, and the terminal.
pub record Input : Type 0 where
  pub bytes : List ℕ
  pub unread : List ℕ
  pub tty : Tty

-- The loop, on the characters that `keyboard_getc` gives one after the other; `none` if it still
-- waits behind the last of them.
unfoldable pub read_keys : ℕ → List ℕ → List ℕ → Tty → Option Input
read_keys count [] stored t =
    if leb count (length stored)
    then some (record { bytes = reverse stored; unread = []; tty = t })
    else none
read_keys count (c ∷ keys) stored t =
    let (stored', t', leave) = press count c stored t in
    let rest = read_keys count keys stored' t' in
    if leb count (length stored)
    then some (record { bytes = reverse stored; unread = c ∷ keys; tty = t })
    else if leave
    then some (record { bytes = reverse stored'; unread = keys; tty = t' })
    else rest

unfoldable pub read_from : FileType → ℤ → ℕ → Kernel → Option (Kernel × Reading)
read_from FileType.vfs_file fd count k = vfs_read fd count k
read_from FileType.pipe_read fd count k = vfs_read fd count k
read_from FileType.unix_socket fd count k = read_socket fd count k
read_from FileType.inet_socket fd count k = read_socket fd count k
read_from _ fd count k = some (k, (neg 9, []))

-- With the characters that the keyboard has for the call, and those that it leaves.
unfoldable pub k_sys_read : ℤ → ℕ → List ℕ → Kernel → Option (Kernel × List ℕ × Reading)
k_sys_read (pos zero) count keys k =
    Option.map (λ i. (record k { tty = i.tty }, i.unread, (signed32 (length i.bytes), i.bytes)))
      (read_keys count keys [] k.tty)
k_sys_read fd count keys k = elim (lookup_from_3 fd k) [
  | none ↦ some (k, keys, (neg 9, []))
  | some (n, f) ↦ Option.map (λ r. (r.0, keys, r.1)) (read_from f.type fd count k)
]

-- `"\033[2J\033[H"`
abbrev pub clear_sequence : List ℕ
clear_sequence = 27 ∷ b'[' ∷ b'2' ∷ b'J' ∷ 27 ∷ b'[' ∷ b'H' ∷ []

unfoldable pub sys_cls : Kernel → Option (Kernel × ℤ)
sys_cls k = k_sys_write (pos 1) clear_sequence k

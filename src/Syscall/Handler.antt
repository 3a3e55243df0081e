-- ===== src/Syscall/Handler.antt =====
-- sys/kernel/syscall.c: `syscall_handler_c`.
use mathlib.Core.Option
use mazuki_os.Base.{
  ℕ, zero, suc, ◌+◌, ◌*◌, ◌/◌, ◌%◌, ◌^◌, Bool, true, false, ◌&&◌, ◌||◌, Option, none, some, List,
  [], ◌∷◌, ltb, leb, ◌==◌, if◌then◌else◌, length, ℤ, pos, negsuc, neg, is_neg, signed32,
}
use mazuki_os.Descriptors.{gdt_set_entry}
use mazuki_os.Vfs.State.{File, FileType, Target, lookup_fd, set_file, Call}
use mazuki_os.Vfs.Pipe.{vfs_pipe}
use mazuki_os.Vfs.Calls.{
  vfs_socket, vfs_socket_bind, vfs_socket_connect, vfs_socket_listen, vfs_socket_accept,
  vfs_socket_send, vfs_socket_recv, vfs_socket_sendto, vfs_socket_recvfrom,
}
use mazuki_os.Vfs.Close.{vfs_close}
use mazuki_os.Io.State.{Kernel, ◌>>=◌}
use mazuki_os.Io.Open.{vfs_open}
use mazuki_os.Io.Transfer.{vfs_read}
use mazuki_os.Syscall.Api.{k_sys_read, k_sys_write}
use mazuki_os.Syscall.State.{
  Machine, Reply, SystemCall, SocketRequest, Output, accept, bind, bytes, connect, ends,
  entry_number, listen, masix_brk, masix_close, masix_getcwd, masix_getpid, masix_llseek,
  masix_mmap2, masix_open, masix_pipe, masix_read, masix_set_thread_area, masix_socketcall,
  masix_write, masix_writev, nothing, position, received, recv, recvfrom, send, sendto, socket,
  stub, unknown, unread, with_kernel, with_vfs, word,
}

-- A call that changes the tables only.
abbrev pub on_tables : Machine → Call → Reply
on_tables m call = Option.map (λ r. (with_vfs m r.0, word r.1, nothing)) call

unfoldable pub socketcall : SocketRequest → Machine → Reply
socketcall (socket domain type protocol) m =
    on_tables m (some (vfs_socket domain type protocol m.kernel.vfs))
socketcall (bind fd address len) m = on_tables m (vfs_socket_bind fd address len m.kernel.vfs)
socketcall (connect fd address len) m = on_tables m (vfs_socket_connect fd address len m.kernel.vfs)
socketcall (listen fd) m = on_tables m (vfs_socket_listen fd m.kernel.vfs)
socketcall (accept fd) m = on_tables m (vfs_socket_accept fd m.kernel.vfs)
socketcall (send fd buffer) m = on_tables m (vfs_socket_send fd buffer m.kernel.vfs)
socketcall (recv fd size) m =
    Option.map (λ r. (with_vfs m r.0, word r.1.0, received r.1.1))
      (vfs_socket_recv fd size m.kernel.vfs)
socketcall (sendto fd buffer address len) m =
    on_tables m (vfs_socket_sendto fd buffer address len m.kernel.vfs)
socketcall (recvfrom fd size room) m =
    Option.map (λ r. (with_vfs m r.0, word r.1.0, received r.1.1))
      (vfs_socket_recvfrom fd size room m.kernel.vfs)
socketcall unknown m = some (m, word (neg 38), nothing)

-- `read`: an entry in use is read, and descriptors below 3 go to `k_sys_read`, with the characters
-- of the keyboard.
unfoldable pub read_entry : FileType → ℤ → ℕ → Machine → Reply
read_entry FileType.empty fd count m = some (m, word (neg 9), nothing)
read_entry _ fd count m =
    Option.map (λ r. (with_kernel m r.0, word r.1.0, bytes r.1.1)) (vfs_read fd count m.kernel)

unfoldable pub read_from_3 : ℤ → ℕ → Machine → Reply
read_from_3 fd count m = elim (lookup_fd fd m.kernel.vfs) [
  | none ↦ some (m, word (neg 9), nothing)
  | some (n, f) ↦ read_entry f.type fd count m
]

abbrev pub below_3 : ℤ → Bool
below_3 (pos n) = ltb n 3
below_3 (negsuc n) = true

unfoldable pub sys_read : ℤ → ℕ → List ℕ → Machine → Reply
sys_read fd count keys m =
    if below_3 fd
    then Option.map (λ r. (with_kernel m r.0, word r.2.0, unread r.1 r.2.1))
        (k_sys_read fd count keys m.kernel)
    else read_from_3 fd count m

unfoldable pub sys_brk : ℕ → Machine → Reply
sys_brk new_brk m =
    let brk = if leb m.current_process_brk new_brk then new_brk else m.current_process_brk in
    if new_brk == 0
    then some (m, m.current_process_brk, nothing)
    else some (record m { current_process_brk = brk }, brk, nothing)

-- `(length + 4095) & ~4095`
abbrev pub page_aligned : ℕ → ℕ
page_aligned length = (length + 4095) % 2 ^ 32 / 4096 * 4096

unfoldable pub sys_mmap2 : ℕ → Machine → Reply
sys_mmap2 length m =
    let brk = (m.current_process_brk + page_aligned length) % 2 ^ 32 in
    some (record m { current_process_brk = brk }, m.current_process_brk, nothing)

-- The entry number and the base of a `user_desc`; the number is not checked, and a segment behind
-- the table is a fault.
unfoldable pub sys_set_thread_area : Option (ℕ × ℕ) → Machine → Reply
sys_set_thread_area none m = some (m, word (neg 9), nothing)
sys_set_thread_area (some (n, base_addr)) m =
    let number = if n == 0xFFFF_FFFF then 6 else n in
    if ltb number (length m.segments.gdt)
    then some (
      record m { segments = gdt_set_entry number base_addr 0xFFFFF 0xF2 0xCF m.segments },
      0,
      entry_number number,
    )
    else none

-- The loop of `writev` over the entries, with `total_written` so far; an entry with no base or no
-- bytes is left out.
unfoldable pub writev_loop : ℤ → List (Option (List ℕ)) → ℕ → Kernel → Option (Kernel × ℤ)
writev_loop fd [] total k = some (k, signed32 total)
writev_loop fd (none ∷ iov) total k = writev_loop fd iov total k
writev_loop fd (some [] ∷ iov) total k = writev_loop fd iov total k
writev_loop fd (some (c ∷ buf) ∷ iov) total k = k_sys_write fd (c ∷ buf) k >>= λ r. elim r.1 [
  | negsuc e ↦ some (r.0, negsuc e)
  | pos n ↦ writev_loop fd iov ((total + n) % 2 ^ 32) r.0
]

unfoldable pub sys_writev : ℤ → Option (List (Option (List ℕ))) → Machine → Reply
sys_writev fd none m = some (m, word (neg 9), nothing)
sys_writev fd (some iov) m =
    Option.map (λ r. (with_kernel m r.0, word r.1, nothing)) (writev_loop fd iov 0 m.kernel)

-- Any error of `vfs_open` is passed on as -2.
unfoldable pub sys_open : Option (List ℕ) → Machine → Reply
sys_open none m = some (m, word (neg 14), nothing)
sys_open (some path) m =
    Option.map (λ r. (with_kernel m r.0, (if is_neg r.1 then word (neg 2) else word r.1), nothing))
      (vfs_open path m.kernel)

-- `"/"` with its zero, where there is a buffer with room for more than two bytes.
unfoldable pub sys_getcwd : ℕ → ℕ → Machine → Reply
sys_getcwd user_buf size m =
    if (ltb 0 user_buf) && (ltb 2 size)
    then some (m, user_buf, bytes (b'/' ∷ 0 ∷ []))
    else some (m, 0, nothing)

-- `node->size`, which only an entry with a node has.
abbrev pub size_behind : Target → Kernel → Option ℕ
size_behind (Target.node a) k = some (k.nodes a).size
size_behind _ k = none

-- The new offset, `some none` where `whence` is not known.
unfoldable pub seek : ℕ → ℕ → File → Kernel → Option (Option ℕ)
seek zero low f k = some (some low)
seek (suc zero) low f k = some (some ((f.offset + low) % 2 ^ 32))
seek (suc (suc zero)) low f k =
    Option.map (λ size. some ((size + low) % 2 ^ 32)) (size_behind f.private_data k)
seek (suc (suc (suc whence))) low f k = some none

-- A found offset is stored.
unfoldable pub seek_to : ℕ → Bool → Option ℕ → Machine → Machine × ℕ × Output
seek_to n has_result none m = (m, word (neg 22), nothing)
seek_to n has_result (some offset) m = (
  with_vfs m (set_file n (λ f. record f { offset = offset }) m.kernel.vfs),
  0,
  if has_result then position offset else nothing,
)

-- An entry that is in use; `offset_high` falls out of every sum.
unfoldable pub seek_in : FileType → ℕ → File → ℕ → ℕ → Bool → Machine → Reply
seek_in FileType.empty n f offset_low whence has_result m = some (m, word (neg 9), nothing)
seek_in _ n f offset_low whence has_result m =
    Option.map (λ found. seek_to n has_result found m) (seek whence offset_low f m.kernel)

-- A descriptor below 0 stands before the table.
unfoldable pub sys_llseek : ℤ → ℕ → ℕ → ℕ → Bool → Machine → Reply
sys_llseek (negsuc n) offset_high offset_low whence has_result m = none
sys_llseek (pos n) offset_high offset_low whence has_result m =
    elim (lookup_fd (pos n) m.kernel.vfs) [
      | none ↦ some (m, word (neg 9), nothing)
      | some (i, f) ↦ seek_in f.type i f offset_low whence has_result m
    ]

-- The numbers of the calls that do nothing and return 0; `set_tid_address` and `getpgid` return 1.
abbrev pub zero_calls : List ℕ
zero_calls =
    123 ∷ 54 ∷ 175 ∷ 55 ∷ 108 ∷ 174 ∷ 238 ∷ 221 ∷ 191 ∷ 78 ∷ 199 ∷ 202 ∷ 64 ∷ 200 ∷ 201 ∷ 195 ∷ 197
    ∷ 147 ∷ 403 ∷ 340 ∷ 383 ∷ 308 ∷ 91 ∷ []

unfoldable pub is_in : ℕ → List ℕ → Bool
is_in n [] = false
is_in n (x ∷ xs) = (n == x) || is_in n xs

unfoldable pub stub_result : ℕ → ℤ
stub_result eax =
    if is_in eax zero_calls then pos 0 else if (eax == 258) || (eax == 132) then pos 1 else neg 38

unfoldable pub syscall_handler_c : SystemCall → Machine → Reply
syscall_handler_c (masix_read fd count keys) m = sys_read fd count keys m
syscall_handler_c (masix_write fd buf) m =
    Option.map (λ r. (with_kernel m r.0, word r.1, nothing)) (k_sys_write fd buf m.kernel)
syscall_handler_c masix_pipe m =
    let (s, result, made) = vfs_pipe m.kernel.vfs in
    some (with_vfs m s, word result, elim made [ some fds ↦ ends fds | none ↦ nothing ])
syscall_handler_c (masix_socketcall none) m = some (m, word (neg 14), nothing)
syscall_handler_c (masix_socketcall (some request)) m = socketcall request m
syscall_handler_c (masix_brk new_brk) m = sys_brk new_brk m
syscall_handler_c (masix_set_thread_area desc) m = sys_set_thread_area desc m
syscall_handler_c (masix_writev fd iov) m = sys_writev fd iov m
syscall_handler_c (masix_open path) m = sys_open path m
syscall_handler_c masix_getpid m = some (m, m.pid, nothing)
syscall_handler_c (masix_mmap2 length) m = sys_mmap2 length m
syscall_handler_c (masix_close fd) m = on_tables m (vfs_close fd m.kernel.vfs)
syscall_handler_c (masix_getcwd user_buf size) m = sys_getcwd user_buf size m
syscall_handler_c (masix_llseek fd high low whence has_result) m =
    sys_llseek fd high low whence has_result m
syscall_handler_c (stub eax) m = some (m, word (stub_result eax), nothing)

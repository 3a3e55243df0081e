-- ===== src/Syscall/Keeps.antt =====
-- Every call but `brk` and `mmap2` leaves `current_process_brk` as it is.
use mathlib.Core.Option
use mazuki_os.Base.{
  ℕ, ◌≡◌, inl, inr, refl, sym, ap, ◌∙◌, Bool, true, false, Option, none, some, List, arith,
  if◌then◌else◌, ℤ, pos, negsuc, neg, is_neg, Option-cases,
}
use mazuki_os.Vfs.State.{Vfs, File, FileType, lookup_fd, Call}
use mazuki_os.Vfs.Calls.{
  Reading, vfs_socket, vfs_socket_bind, vfs_socket_connect, vfs_socket_listen, vfs_socket_accept,
  vfs_socket_send, vfs_socket_recv, vfs_socket_sendto, vfs_socket_recvfrom,
}
use mazuki_os.Io.State.{Kernel}
use mazuki_os.Syscall.Api.{k_sys_read, k_sys_write}
use mazuki_os.Vfs.Close.{vfs_close}
use mazuki_os.Io.Open.{vfs_open}
use mazuki_os.Io.Transfer.{vfs_read}
use mazuki_os.Syscall.State
use mazuki_os.Syscall.Handler.{
  on_tables, socketcall, sys_read, sys_set_thread_area, sys_writev, sys_open, sys_getcwd,
  sys_llseek, seek, seek_to, seek_in, read_entry, read_from_3, below_3, writev_loop, stub_result,
  syscall_handler_c,
}
use mazuki_os.Syscall.State.{
  Machine, SocketRequest, socket, bind, connect, listen, accept, send, recv, sendto, recvfrom,
  unknown, SystemCall, masix_read, masix_write, masix_pipe, masix_socketcall, masix_brk,
  masix_set_thread_area, masix_writev, masix_open, masix_getpid, masix_mmap2, masix_close,
  masix_getcwd, masix_llseek, stub, Output, nothing, received, with_vfs, with_kernel, word, Reply,
  bytes,
}

-- A reply keeps a number that stands in the machine.
abbrev Keeps : ℕ → Reply → Type 0
Keeps b reply =
    (m : Machine) (w : ℕ) (o : Output) → reply ≡ some (m, w, o) → m.current_process_brk ≡ b

map-Keeps {ℓ} :
    {A : Type ℓ} (b : ℕ) (f : A → Machine × ℕ × Output) (x : Option A)
    → ((a : A) → (f a).0.current_process_brk ≡ b)
    → Keeps b (Option.map f x)
map-Keeps b f none same m w o e = absurd (cc)
map-Keeps b f (some a) same m w o e =
    let is : f a ≡ (m, w, o) = ground arith in sym (ap (λ r. r.0.current_process_brk) is) ∙ same a

now-Keeps : (b : ℕ) (r : Machine × ℕ × Output) → r.0.current_process_brk ≡ b → Keeps b (some r)
now-Keeps b r same m w o e =
    let is : r ≡ (m, w, o) = ground arith in sym (ap (λ x. x.0.current_process_brk) is) ∙ same

abbrev Behind : Machine → Reply → Type 0
Behind m reply = Keeps m.current_process_brk reply

tables-Keeps : (m : Machine) (call : Call) → Behind m (on_tables m call)
tables-Keeps m call =
    map-Keeps m.current_process_brk (λ r. (with_vfs m r.0, word r.1, nothing)) call (λ a. refl)

-- What a receiving call gives.
reading-Keeps :
    (m : Machine) (x : Option (Vfs × Reading))
    → Behind m (Option.map (λ r. (with_vfs m r.0, word r.1.0, received r.1.1)) x)
reading-Keeps m x = map-Keeps m.current_process_brk _ x (λ a. refl)

-- What a call on the whole kernel gives.
kernel-Keeps :
    {A : Type 0} (m : Machine) (x : Option A) (k : A → Kernel) (w : A → ℕ) (o : A → Output)
    → Behind m (Option.map (λ r. (with_kernel m (k r), w r, o r)) x)
kernel-Keeps m x k w o = map-Keeps m.current_process_brk _ x (λ a. refl)

socketcall-Keeps : (request : SocketRequest) (m : Machine) → Behind m (socketcall request m)
unfolding socketcall
socketcall-Keeps (socket domain type protocol) m =
    tables-Keeps m (some (vfs_socket domain type protocol m.kernel.vfs))
socketcall-Keeps (bind fd address len) m =
    tables-Keeps m (vfs_socket_bind fd address len m.kernel.vfs)
socketcall-Keeps (connect fd address len) m =
    tables-Keeps m (vfs_socket_connect fd address len m.kernel.vfs)
socketcall-Keeps (listen fd) m = tables-Keeps m (vfs_socket_listen fd m.kernel.vfs)
socketcall-Keeps (accept fd) m = tables-Keeps m (vfs_socket_accept fd m.kernel.vfs)
socketcall-Keeps (send fd buffer) m = tables-Keeps m (vfs_socket_send fd buffer m.kernel.vfs)
socketcall-Keeps (recv fd size) m = reading-Keeps m (vfs_socket_recv fd size m.kernel.vfs)
socketcall-Keeps (sendto fd buffer address len) m =
    tables-Keeps m (vfs_socket_sendto fd buffer address len m.kernel.vfs)
socketcall-Keeps (recvfrom fd size room) m =
    reading-Keeps m (vfs_socket_recvfrom fd size room m.kernel.vfs)
socketcall-Keeps unknown m = now-Keeps _ (m, word (neg 38), nothing) refl

if-Keeps :
    (b : ℕ) (test : Bool) (x y : Reply) → Keeps b x → Keeps b y → Keeps b (if test then x else y)
if-Keeps b true x y v w = v
if-Keeps b false x y v w = w

refused-Keeps : (m : Machine) (e : ℕ) → Behind m (some (m, e, nothing))
refused-Keeps m e = now-Keeps m.current_process_brk (m, e, nothing) refl

read_entry-Keeps :
    (t : FileType) (fd : ℤ) (count : ℕ) (m : Machine) → Behind m (read_entry t fd count m)
unfolding read_entry
read_entry-Keeps FileType.empty fd count m = refused-Keeps m (word (neg 9))
read_entry-Keeps FileType.device fd count m =
    kernel-Keeps m (vfs_read fd count m.kernel) (λ r. r.0) (λ r. word r.1.0) (λ r. bytes r.1.1)
read_entry-Keeps FileType.pipe_read fd count m =
    kernel-Keeps m (vfs_read fd count m.kernel) (λ r. r.0) (λ r. word r.1.0) (λ r. bytes r.1.1)
read_entry-Keeps FileType.pipe_write fd count m =
    kernel-Keeps m (vfs_read fd count m.kernel) (λ r. r.0) (λ r. word r.1.0) (λ r. bytes r.1.1)
read_entry-Keeps FileType.unix_socket fd count m =
    kernel-Keeps m (vfs_read fd count m.kernel) (λ r. r.0) (λ r. word r.1.0) (λ r. bytes r.1.1)
read_entry-Keeps FileType.inet_socket fd count m =
    kernel-Keeps m (vfs_read fd count m.kernel) (λ r. r.0) (λ r. word r.1.0) (λ r. bytes r.1.1)
read_entry-Keeps FileType.vfs_file fd count m =
    kernel-Keeps m (vfs_read fd count m.kernel) (λ r. r.0) (λ r. word r.1.0) (λ r. bytes r.1.1)

read_from_3-Keeps : (fd : ℤ) (count : ℕ) (m : Machine) → Behind m (read_from_3 fd count m)
unfolding read_from_3
read_from_3-Keeps fd count m = elim (Option-cases (lookup_fd fd m.kernel.vfs)) [
  | inl e ↦ rw (e, read_from_3) (refused-Keeps m (word (neg 9)))
  | inr ((n, f), e) ↦ rw (e, read_from_3) (read_entry-Keeps f.type fd count m)
]

sys_read-Keeps :
    (fd : ℤ) (count : ℕ) (keys : List ℕ) (m : Machine) → Behind m (sys_read fd count keys m)
unfolding sys_read
sys_read-Keeps fd count keys m =
    if-Keeps m.current_process_brk (below_3 fd) _ _
      (kernel-Keeps m (k_sys_read fd count keys m.kernel) (λ r. r.0) (λ r. word r.2.0)
        (λ r. State.unread r.1 r.2.1))
      (read_from_3-Keeps fd count m)

seek_to-Keeps :
    (n : ℕ) (has_result : Bool) (found : Option ℕ) (m : Machine)
    → (seek_to n has_result found m).0.current_process_brk ≡ m.current_process_brk
unfolding seek_to
seek_to-Keeps n has_result none m = refl
seek_to-Keeps n has_result (some offset) m = refl

seek_in-Keeps :
    (t : FileType) (n : ℕ) (f : File) (low whence : ℕ) (has_result : Bool) (m : Machine)
    → Behind m (seek_in t n f low whence has_result m)
unfolding seek_in
seek_in-Keeps FileType.empty n f low whence has_result m = refused-Keeps m (word (neg 9))
seek_in-Keeps FileType.device n f low whence has_result m =
    map-Keeps m.current_process_brk (λ found. seek_to n has_result found m)
      (seek whence low f m.kernel) (λ found. seek_to-Keeps n has_result found m)
seek_in-Keeps FileType.pipe_read n f low whence has_result m =
    map-Keeps m.current_process_brk (λ found. seek_to n has_result found m)
      (seek whence low f m.kernel) (λ found. seek_to-Keeps n has_result found m)
seek_in-Keeps FileType.pipe_write n f low whence has_result m =
    map-Keeps m.current_process_brk (λ found. seek_to n has_result found m)
      (seek whence low f m.kernel) (λ found. seek_to-Keeps n has_result found m)
seek_in-Keeps FileType.unix_socket n f low whence has_result m =
    map-Keeps m.current_process_brk (λ found. seek_to n has_result found m)
      (seek whence low f m.kernel) (λ found. seek_to-Keeps n has_result found m)
seek_in-Keeps FileType.inet_socket n f low whence has_result m =
    map-Keeps m.current_process_brk (λ found. seek_to n has_result found m)
      (seek whence low f m.kernel) (λ found. seek_to-Keeps n has_result found m)
seek_in-Keeps FileType.vfs_file n f low whence has_result m =
    map-Keeps m.current_process_brk (λ found. seek_to n has_result found m)
      (seek whence low f m.kernel) (λ found. seek_to-Keeps n has_result found m)

sys_llseek-Keeps :
    (fd : ℤ) (high low whence : ℕ) (has_result : Bool) (m : Machine)
    → Behind m (sys_llseek fd high low whence has_result m)
unfolding sys_llseek
sys_llseek-Keeps (negsuc n) high low whence has_result m = λ m' w o e. absurd (cc)
sys_llseek-Keeps (pos n) high low whence has_result m =
    elim (Option-cases (lookup_fd (pos n) m.kernel.vfs)) [
      | inl e ↦ rw (e, sys_llseek) (refused-Keeps m (word (neg 9)))
      | inr ((i, f), e) ↦ rw (e, sys_llseek) (seek_in-Keeps f.type i f low whence has_result m)
    ]

sys_set_thread_area-Keeps :
    (desc : Option (ℕ × ℕ)) (m : Machine) → Behind m (sys_set_thread_area desc m)
unfolding sys_set_thread_area
sys_set_thread_area-Keeps none m = refused-Keeps m (word (neg 9))
sys_set_thread_area-Keeps (some (n, base_addr)) m =
    if-Keeps m.current_process_brk _ _ none (now-Keeps m.current_process_brk _ refl)
      (λ m' w o e. absurd (cc))

-- Every call but two.
abbrev pub IsOther : SystemCall → Type 0
IsOther (masix_brk n) = ⊥
IsOther (masix_mmap2 n) = ⊥
IsOther _ = Unit

pub syscall_handler_c-Keeps :
    (request : SystemCall) (m m' : Machine) (w : ℕ) (o : Output)
    → IsOther request
    → syscall_handler_c request m ≡ some (m', w, o)
    → m'.current_process_brk ≡ m.current_process_brk
unfolding syscall_handler_c sys_writev sys_open sys_getcwd
syscall_handler_c-Keeps request m m' w o other e = of request other m' w o e
  where
    of : (request : SystemCall) → IsOther request → Behind m (syscall_handler_c request m)
    of (masix_read fd count keys) other = sys_read-Keeps fd count keys m
    of (masix_write fd buf) other =
        kernel-Keeps m (k_sys_write fd buf m.kernel) (λ r. r.0) (λ r. word r.1) (λ r. nothing)
    of masix_pipe other = now-Keeps m.current_process_brk _ refl
    of (masix_socketcall none) other = refused-Keeps m (word (neg 14))
    of (masix_socketcall (some request)) other = socketcall-Keeps request m
    of (masix_brk n) other = absurd other
    of (masix_set_thread_area desc) other = sys_set_thread_area-Keeps desc m
    of (masix_writev fd none) other = refused-Keeps m (word (neg 9))
    of (masix_writev fd (some iov)) other =
        kernel-Keeps m (writev_loop fd iov 0 m.kernel) (λ r. r.0) (λ r. word r.1) (λ r. nothing)
    of (masix_open none) other = refused-Keeps m (word (neg 14))
    of (masix_open (some path)) other =
        kernel-Keeps m (vfs_open path m.kernel) (λ r. r.0)
          (λ r. if is_neg r.1 then word (neg 2) else word r.1) (λ r. nothing)
    of masix_getpid other = now-Keeps m.current_process_brk _ refl
    of (masix_mmap2 n) other = absurd other
    of (masix_close fd) other = tables-Keeps m (vfs_close fd m.kernel.vfs)
    of (masix_getcwd user_buf size) other =
        if-Keeps m.current_process_brk _ _ _ (now-Keeps m.current_process_brk _ refl)
          (refused-Keeps m 0)
    of (masix_llseek fd high low whence has_result) other =
        sys_llseek-Keeps fd high low whence has_result m
    of (stub eax) other = refused-Keeps m (word (stub_result eax))

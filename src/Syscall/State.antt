-- ===== src/Syscall/State.antt =====
-- The machine that a call of a program works on, and the calls. The registers and what they point
-- to are the arguments of a request, with `none` for a pointer that is NULL; the calls that switch
-- tasks (exit, fork, execve, exit_group) are left out.
use mazuki_os.Base.{ℕ, ◌-◌, ◌%◌, ◌^◌, Bool, Option, List, ℤ, pos, negsuc}
use mazuki_os.Descriptors.{Gdt}
use mazuki_os.Vfs.State.{Vfs}
use mazuki_os.Vfs.Pipe.{Ends}
use mazuki_os.Vfs.Inet.{Received}
use mazuki_os.Io.State.{Kernel}

-- The kernel, `current_process_brk`, the segments, and `current_task->pid`.
pub record Machine : Type 0 where
  pub kernel : Kernel
  pub current_process_brk : ℕ
  pub segments : Gdt
  pub pid : ℕ

-- The value that `current_process_brk` starts with.
abbrev pub initial_brk : ℕ
initial_brk = 0x01100000

-- The first argument of `socketcall` and the words its second one points to. A descriptor is read
-- as an `int`; a buffer that is sent is its bytes; `room` is the length behind a pointer.
pub data SocketRequest : Type 0 where
  socket : ℕ → ℕ → ℕ → SocketRequest
  bind connect : ℤ → Option (List ℕ) → ℕ → SocketRequest
  listen accept : ℤ → SocketRequest
  send : ℤ → List ℕ → SocketRequest
  recv : ℤ → ℕ → SocketRequest
  sendto : ℤ → List ℕ → Option (List ℕ) → ℕ → SocketRequest
  recvfrom : ℤ → ℕ → Option ℕ → SocketRequest
  unknown : SocketRequest

-- A call by the number in `eax`; `stub` is any number with no case of its own here.
pub data SystemCall : Type 0 where
  masix_read : ℤ → ℕ → List ℕ → SystemCall
  masix_write : ℤ → List ℕ → SystemCall
  masix_pipe : SystemCall
  masix_socketcall : Option SocketRequest → SystemCall
  masix_brk : ℕ → SystemCall
  masix_set_thread_area : Option (ℕ × ℕ) → SystemCall
  masix_writev : ℤ → Option (List (Option (List ℕ))) → SystemCall
  masix_open : Option (List ℕ) → SystemCall
  masix_getpid : SystemCall
  masix_mmap2 : ℕ → SystemCall
  masix_close : ℤ → SystemCall
  masix_getcwd : ℕ → ℕ → SystemCall
  masix_llseek : ℤ → ℕ → ℕ → ℕ → Bool → SystemCall
  stub : ℕ → SystemCall

-- What a call writes for the program.
pub data Output : Type 0 where
  nothing : Output
  bytes : List ℕ → Output
  unread : List ℕ → List ℕ → Output
  ends : Ends → Output
  received : Received → Output
  entry_number : ℕ → Output
  position : ℕ → Output

-- The machine, the word in `eax`, and what was written; `none` is a fault, or a read that waits.
abbrev pub Reply : Type 0
Reply = Option (Machine × ℕ × Output)

-- The word for a result.
abbrev pub word : ℤ → ℕ
word (pos n) = n % 2 ^ 32
word (negsuc n) = 2 ^ 32 - 1 - n % 2 ^ 32

abbrev pub with_kernel : Machine → Kernel → Machine
with_kernel m k = record m { kernel = k }

abbrev pub with_vfs : Machine → Vfs → Machine
with_vfs m s = record m { kernel = record m.kernel { vfs = s } }

-- ===== src/Syscall/Memory.antt =====
-- The memory of a program: `brk` and `mmap2` over any sequence of calls.
use mazuki_os.Base.{ℕ, ◌+◌, ◌%◌, ◌^◌, ◌≤◌, ◌<◌, ◌≡◌, sym, ap, some, List, [], ◌∷◌, arith}
use mazuki_os.Syscall.Handler.{sys_brk, sys_mmap2, page_aligned, syscall_handler_c}
use mazuki_os.Syscall.State.{Machine, SystemCall, masix_brk, masix_mmap2, Output, nothing}
use mazuki_os.Syscall.Keeps.{IsOther, syscall_handler_c-Keeps}

-- What `mmap2` gave out: an address and the length that was asked for.
pub record Region : Type 0 where
  pub address : ℕ
  pub length : ℕ

-- A sequence of calls of any kind that return, with the regions that were mapped.
pub data Calls : Machine → List Region → Machine → Type 0 where
  done : {m : Machine} → Calls m [] m
  other :
      {m m' m'' : Machine} {rs : List Region} (request : SystemCall) (w : ℕ) (o : Output)
      → IsOther request
      → syscall_handler_c request m ≡ some (m', w, o)
      → Calls m' rs m''
      → Calls m rs m''
  brk :
      {m m' m'' : Machine} {rs : List Region} (n w : ℕ) (o : Output)
      → syscall_handler_c (masix_brk n) m ≡ some (m', w, o)
      → Calls m' rs m''
      → Calls m rs m''
  mmap2 :
      {m m' m'' : Machine} {rs : List Region} (n w : ℕ) (o : Output)
      → syscall_handler_c (masix_mmap2 n) m ≡ some (m', w, o)
      → Calls m' rs m''
      → Calls m (record { address = w; length = n } ∷ rs) m''

-- No region, rounded up to pages, goes past the end of the 32-bit addresses.
abbrev pub AllInside : List Region → Type 0
AllInside [] = Unit
AllInside (r ∷ rs) = (r.address + r.length + 4095 < 2 ^ 32) × AllInside rs

-- Regions one behind the other between two addresses: none meets another.
abbrev pub Apart : ℕ → List Region → ℕ → Type 0
Apart from [] to = from ≤ to
Apart from (r ∷ rs) to = (from ≤ r.address) × Apart (r.address + r.length) rs to

Apart-below :
    (from from' to : ℕ) (rs : List Region) → from ≤ from' → Apart from' rs to → Apart from rs to
Apart-below from from' to [] h v = omega (arith, h, v)
Apart-below from from' to (r ∷ rs) h v = (omega (arith, h, v.0), v.1)

sys_brk_lem :
    (n : ℕ) (m m' : Machine) (w : ℕ) (o : Output)
    → sys_brk n m ≡ some (m', w, o)
    → m.current_process_brk ≤ m'.current_process_brk
unfolding sys_brk
sys_brk_lem n m m' w o e = ground arith

sys_mmap2_address :
    (n : ℕ) (m m' : Machine) (w : ℕ) (o : Output)
    → sys_mmap2 n m ≡ some (m', w, o)
    → (w ≡ m.current_process_brk)
      × (m'.current_process_brk ≡ (m.current_process_brk + page_aligned n) % 2 ^ 32)
unfolding sys_mmap2
sys_mmap2_address n m m' w o e =
    let brk = (m.current_process_brk + page_aligned n) % 2 ^ 32 in
    let reply : Machine × ℕ × Output =
      (record m { current_process_brk = brk }, m.current_process_brk, nothing) in
    let same : reply ≡ (m', w, o) = ground arith in
    (sym (ap (λ r. r.1) same), sym (ap (λ r. r.0.current_process_brk) same))

-- Over any calls, if no mapping goes past the end of the addresses, the break never goes back, and
-- the mapped regions lie one behind the other above the break that there was: no two of them share
-- an address.
pub mmap2-Apart :
    {m m' : Machine} {rs : List Region}
    → Calls m rs m'
    → AllInside rs
    → Apart m.current_process_brk rs m'.current_process_brk
unfolding syscall_handler_c
mmap2-Apart done h = omega arith
mmap2-Apart {m} (other {m' = m1} {m'' = m2} {rs = rs} request w o is e v) h =
    Apart-below m.current_process_brk m1.current_process_brk m2.current_process_brk rs
      (omega (arith, syscall_handler_c-Keeps request m m1 w o is e)) (mmap2-Apart v h)
mmap2-Apart {m} (brk {m' = m1} {m'' = m2} {rs = rs} n w o e v) h =
    Apart-below m.current_process_brk m1.current_process_brk m2.current_process_brk rs
      (sys_brk_lem n m m1 w o e) (mmap2-Apart v h)
mmap2-Apart {m} (mmap2 {m' = m1} {m'' = m2} {rs = rs} n w o e v) h =
    let (at, up) = sys_mmap2_address n m m1 w o e in
    (
      omega (arith, at),
      Apart-below (w + n) m1.current_process_brk m2.current_process_brk rs
          (omega (arith, at, up, h.0)) (mmap2-Apart v h.1),
    )

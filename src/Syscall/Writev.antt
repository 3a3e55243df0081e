-- ===== src/Syscall/Writev.antt =====
-- `writev` to the terminal against one `write`.
use mazuki_os.Base.{
  ℕ, ◌+◌, ◌%◌, ◌^◌, ◌<◌, ◌≡◌, ◌⊎◌, inl, inr, refl, sym, ap, ap₂, ◌∙◌, Option, none, some, List, [],
  ◌∷◌, ◌++◌, arith, length, length-append, ℤ, pos, signed32_small,
}
use mazuki_os.Tty.{Tty, tty_write_char}
use mazuki_os.Tty.Sequence.{write_all}
use mazuki_os.Io.State.{Kernel}
use mazuki_os.Syscall.Api.{k_sys_write}
use mazuki_os.Syscall.Handler.{writev_loop, sys_writev, syscall_handler_c}
use mazuki_os.Syscall.State.{Machine, masix_write, masix_writev, with_kernel, nothing}

-- The bytes of the entries, one behind the other.
abbrev pub joined : List (Option (List ℕ)) → List ℕ
joined [] = []
joined (none ∷ iov) = joined iov
joined (some s ∷ iov) = s ++ joined iov

-- The descriptors that the terminal stands behind.
abbrev pub IsTerminal : ℤ → Type 0
IsTerminal fd = (fd ≡ pos 1) ⊎ (fd ≡ pos 2)

pub write_all-append :
    (s s' : List ℕ) (t : Tty) → write_all (s ++ s') t ≡ write_all s' (write_all s t)
unfolding write_all
write_all-append [] s' t = refl
write_all-append (c ∷ s) s' t = write_all-append s s' (tty_write_char c t)

k_sys_write-terminal :
    (fd : ℤ) (buf : List ℕ) (k : Kernel)
    → IsTerminal fd
    → length buf < 2 ^ 31
    → k_sys_write fd buf k ≡ some (record k { tty = write_all buf k.tty }, pos (length buf))
unfolding k_sys_write
k_sys_write-terminal fd buf k (inl e) h = rw (e, signed32_small (length buf) h) refl
k_sys_write-terminal fd buf k (inr e) h = rw (e, signed32_small (length buf) h) refl

writev_loop-terminal :
    (fd : ℤ) (iov : List (Option (List ℕ))) (total : ℕ) (k : Kernel)
    → IsTerminal fd
    → total + length (joined iov) < 2 ^ 31
    → writev_loop fd iov total k
      ≡ some (record k { tty = write_all (joined iov) k.tty }, pos (total + length (joined iov)))
unfolding writev_loop write_all
writev_loop-terminal fd [] total k v h =
    rw (signed32_small total (omega arith)) (ap (λ n. some (k, pos n)) (omega arith))
writev_loop-terminal fd (none ∷ iov) total k v h = writev_loop-terminal fd iov total k v h
writev_loop-terminal fd (some [] ∷ iov) total k v h = writev_loop-terminal fd iov total k v h
writev_loop-terminal fd (some (c ∷ buf) ∷ iov) total k v h =
    let k' : Kernel = record k { tty = write_all (c ∷ buf) k.tty } in
    let room : total + (length (c ∷ buf) + length (joined iov)) < 2 ^ 31 =
      omega (arith, length-append (c ∷ buf) (joined iov)) in
    let sum : (total + length (c ∷ buf)) % 2 ^ 32 ≡ total + length (c ∷ buf) =
      omega (arith, room) in
    let rest = writev_loop-terminal fd iov (total + length (c ∷ buf)) k' v (omega (arith, room)) in
    rw (k_sys_write-terminal fd (c ∷ buf) k v (omega (arith, room)), sum)
      (rest
        ∙ ap₂ (λ t n. some (record k { tty = t }, pos n))
            (sym (write_all-append (c ∷ buf) (joined iov) k.tty))
            (omega (arith, length-append (c ∷ buf) (joined iov))))

-- On the standard output or error, `writev` with fewer than 2 ^ 31 bytes does what one `write` of
-- all its bytes does: the terminal, everything else and the result are the same, and the result is
-- their number.
pub writev-write :
    (m : Machine) (fd : ℤ) (iov : List (Option (List ℕ)))
    → IsTerminal fd
    → length (joined iov) < 2 ^ 31
    → (syscall_handler_c (masix_writev fd (some iov)) m
        ≡ syscall_handler_c (masix_write fd (joined iov)) m)
      × (syscall_handler_c (masix_write fd (joined iov)) m
          ≡ some (
            with_kernel m (record m.kernel { tty = write_all (joined iov) m.kernel.tty }),
            length (joined iov),
            nothing,
          ))
unfolding syscall_handler_c sys_writev
writev-write m fd iov v h =
    let none_yet : 0 + length (joined iov) ≡ length (joined iov) = omega arith in
    let all = writev_loop-terminal fd iov 0 m.kernel v (omega (arith, h)) in
    let one = k_sys_write-terminal fd (joined iov) m.kernel v h in
    let fits : length (joined iov) % 2 ^ 32 ≡ length (joined iov) = omega (arith, h) in
    (rw (all, one, none_yet) refl, rw (one, fits) refl)

-- ===== src/Ring.antt =====
-- The circular buffers of sys/kernel/fs/vfs.c: the bytes of `pipe_t` and `unix_socket_t`, and the
-- datagrams of `inet_socket_t`. The capacity is an argument, and so is the value that stands for
-- a read out of range (a valid ring makes none).
pub mod Contents
pub mod Transfer
use mazuki_os.Base.{ℕ, zero, suc, ◌+◌, ◌-◌, ◌%◌, List, [], ◌∷◌, ltb, if◌then◌else◌, get_or, set}

-- `data`, `read_pos`, `write_pos` and `count`; in `inet_socket_t` `datagrams`, `head`, `tail` and
-- `count`.
pub record Ring {ℓ} (A : Type ℓ) : Type ℓ where
  pub cells : List A
  pub read_pos : ℕ
  pub write_pos : ℕ
  pub count : ℕ

module _ {ℓ} {A : Type ℓ} (cap : ℕ) where
  -- The body of a write loop.
  unfoldable pub put : Ring A → A → Ring A
  put r x = record r {
    cells = set r.cells r.write_pos x;
    write_pos = (r.write_pos + 1) % cap;
    count = r.count + 1;
  }

  -- The body of a read loop, less the copy; `count--` runs only at a positive count.
  unfoldable pub skip : Ring A → Ring A
  skip r = record r { read_pos = (r.read_pos + 1) % cap; count = r.count - 1 }

  -- `while (written < size && count < cap)`, over the rest of the source.
  unfoldable pub fill : List A → ℕ → Ring A → ℕ × Ring A
  fill [] written r = (written, r)
  fill (x ∷ xs) written r =
      let rest = fill xs (written + 1) (put r x) in if ltb r.count cap then rest else (written, r)

  module _ (default : A) where
    -- `while (read < size && count > 0)`, over the room left in the target: the items copied.
    unfoldable pub drain : ℕ → Ring A → List A × Ring A
    drain zero r = ([], r)
    drain (suc n) r =
        let (xs, r') = drain n (skip r) in
        if ltb 0 r.count then (get_or r.cells r.read_pos default ∷ xs, r') else ([], r)

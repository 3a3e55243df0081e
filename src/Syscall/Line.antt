-- ===== src/Syscall/Line.antt =====
-- Reading from the keyboard: `k_sys_read` on descriptor 0.
use mazuki_os.Base.{ℕ, ◌≤◌, ◌<◌, ◌≡◌, ◌⊎◌, Bool, true, false, List, [], ◌∷◌, ◌++◌, length}
use mazuki_os.Tty.{Tty}
use mazuki_os.Syscall.Api.{Input}
use mazuki_os.Syscall.State.{unread}

-- The end of a line.
abbrev pub IsReturn : ℕ → Type 0
IsReturn c = (c ≡ b'\n') ⊎ (c ≡ b'\r')

-- A key goes on with room left, or it ends the line, or it fills the buffer.
abbrev Pressed : ℕ → List ℕ → List ℕ × Tty × Bool → Type 0
Pressed count stored (stored', t', leave) =
    ((leave ≡ false) × (length stored' < count))
    ⊎ ((leave ≡ true)
        × ((stored' ≡ b'\n' ∷ stored) ⊎ ((length stored' ≡ count) × (0 < length stored'))))

-- What a call that ended gives: at least one byte and at most as many as there was room for, with a
-- newline at the end if there was room for more; the keys it took are the first ones.
abbrev pub Ended : ℕ → List ℕ → Input → Type 0
Ended count keys i =
    (0 < length i.bytes)
    × (length i.bytes ≤ count)
    × (((t : List ℕ) × (i.bytes ≡ t ++ b'\n' ∷ [])) ⊎ (length i.bytes ≡ count))
    × ((used : List ℕ) × (keys ≡ used ++ i.unread))

-- ===== src/Network/Echo.antt =====
-- `echo_udp`: the reply to a datagram.
use mazuki_os.Base.{ℕ, ◌+◌, ◌*◌, ◌%◌, ◌≤◌, ◌<◌, ◌≡◌, ltb, if◌then◌else◌, ◌∷◌}
use mazuki_os.Network.{Bytes, Nic, tx_count}

-- A frame that fits is put into the next buffer, with zeros up to 60 bytes, and the card is told.
abbrev pub Sent : Bytes → ℕ → Nic → Nic → Type 0
Sent frame length nic nic' =
    let index = nic.tx_index % tx_count in
    ((a : ℕ) → a < length → nic'.tx_buffers index a ≡ frame a)
    × ((a : ℕ) → length ≤ a → a < 60 → nic'.tx_buffers index a ≡ 0)
    × (nic'.sent ≡ (index, (if ltb length 60 then 60 else length)) ∷ nic.sent)
    × (nic'.tx_index ≡ (nic.tx_index + 1) % 256)

-- Where the UDP header of a frame starts, and the length in it.
abbrev pub udp_start : Bytes → ℕ
udp_start frame = 14 + frame 14 % 16 * 4

abbrev pub udp_size : Bytes → ℕ
udp_size frame = frame (udp_start frame + 4) * 256 + frame (udp_start frame + 5)

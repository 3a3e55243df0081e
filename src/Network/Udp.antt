-- ===== src/Network/Udp.antt =====
-- The UDP header and the payload of a reply.
use mazuki_os.Base.{ℕ, ◌+◌, ◌-◌, ◌≤◌, ◌<◌, ◌≡◌, inl, ap, ◌∙◌, arith, ==_ne}
use mazuki_os.Network.{Bytes, udp_header_of, udp_part}
use mazuki_os.Network.Copy.{copy_outside, copy_inside}

-- Nothing below the UDP header changes with it.
udp_header_below :
    (uh a : ℕ) (frame reply : Bytes) → a < uh → udp_header_of uh frame reply a ≡ reply a
unfolding udp_header_of
udp_header_below uh a frame reply h =
    rw
      (
        ==_ne a (uh + 7) (omega arith),
        ==_ne a (uh + 6) (omega arith),
        ==_ne a (uh + 3) (omega arith),
        ==_ne a (uh + 2) (omega arith),
        ==_ne a (uh + 1) (omega arith),
        ==_ne a uh (omega arith),
      )
      (copy_outside 8 uh uh a reply frame (inl h))

-- The four bytes of the ports.
abbrev pub ArePorts : ℕ → Bytes → Bytes → Type 0
ArePorts uh frame r =
    (r uh ≡ frame (uh + 2))
    × (r (uh + 1) ≡ frame (uh + 3))
    × (r (uh + 2) ≡ frame uh)
    × (r (uh + 3) ≡ frame (uh + 1))

udp_header-ArePorts :
    (uh : ℕ) (frame reply : Bytes) → ArePorts uh frame (udp_header_of uh frame reply)
unfolding udp_header_of
udp_header-ArePorts uh frame reply = (ground arith, ground arith, ground arith, ground arith)

-- The length is that of the request, and the checksum is left out.
abbrev pub HasLength : ℕ → Bytes → Bytes → Type 0
HasLength uh frame r =
    (r (uh + 4) ≡ frame (uh + 4))
    × (r (uh + 5) ≡ frame (uh + 5))
    × (r (uh + 6) ≡ 0)
    × (r (uh + 7) ≡ 0)

-- The ports and the checksum leave the two bytes of the length.
udp_header_length :
    (uh i : ℕ) (frame reply : Bytes)
    → 4 ≤ i
    → i < 6
    → udp_header_of uh frame reply (uh + i) ≡ frame (uh + i)
unfolding udp_header_of
udp_header_length uh i frame reply lo hi =
    rw
      (
        ==_ne (uh + i) (uh + 7) (omega arith),
        ==_ne (uh + i) (uh + 6) (omega arith),
        ==_ne (uh + i) (uh + 3) (omega arith),
        ==_ne (uh + i) (uh + 2) (omega arith),
        ==_ne (uh + i) (uh + 1) (omega arith),
        ==_ne (uh + i) uh (omega arith),
      )
      (copy_inside 8 uh uh i reply frame (omega arith))

udp_header-HasLength :
    (uh : ℕ) (frame reply : Bytes) → HasLength uh frame (udp_header_of uh frame reply)
unfolding udp_header_of
udp_header-HasLength uh frame reply = (
  udp_header_length uh 4 frame reply (omega arith) (omega arith),
  udp_header_length uh 5 frame reply (omega arith) (omega arith),
  ground arith,
  ground arith,
)

module _ (uh ul : ℕ) (frame reply : Bytes) where
  before_payload :
      (a : ℕ) → a < uh + 8 → udp_part uh ul frame reply a ≡ udp_header_of uh frame reply a
  unfolding udp_part
  before_payload a h =
      copy_outside (ul - 8) (uh + 8) (uh + 8) a (udp_header_of uh frame reply) frame (inl h)

  pub udp_part_below : (a : ℕ) → a < uh → udp_part uh ul frame reply a ≡ reply a
  udp_part_below a h = before_payload a (omega arith) ∙ udp_header_below uh a frame reply h

  pub udp_part-ArePorts : ArePorts uh frame (udp_part uh ul frame reply)
  udp_part-ArePorts =
      let (a, b, c, d) = udp_header-ArePorts uh frame reply in
      (
        before_payload uh (omega arith) ∙ a,
        before_payload (uh + 1) (omega arith) ∙ b,
        before_payload (uh + 2) (omega arith) ∙ c,
        before_payload (uh + 3) (omega arith) ∙ d,
      )

  pub udp_part-HasLength : HasLength uh frame (udp_part uh ul frame reply)
  udp_part-HasLength =
      let (a, b, c, d) = udp_header-HasLength uh frame reply in
      (
        before_payload (uh + 4) (omega arith) ∙ a,
        before_payload (uh + 5) (omega arith) ∙ b,
        before_payload (uh + 6) (omega arith) ∙ c,
        before_payload (uh + 7) (omega arith) ∙ d,
      )

  pub udp_part_payload :
      (i : ℕ) → 8 ≤ i → i < ul → udp_part uh ul frame reply (uh + i) ≡ frame (uh + i)
  unfolding udp_part
  udp_part_payload i lo hi =
      ap (udp_part uh ul frame reply) {x = uh + i} {y = uh + 8 + (i - 8)} (omega arith)
      ∙ copy_inside (ul - 8) (uh + 8) (uh + 8) (i - 8) (udp_header_of uh frame reply) frame
          (omega arith)
      ∙ ap frame (omega arith)

-- ===== src/Network/Reply.antt =====
-- The bytes of `udp_reply`.
use mazuki_os.Base.{ℕ, ◌+◌, ◌≤◌, ◌<◌, ◌≡◌, ◌≢◌, inl, refl, ap, ◌∙◌, arith, ==_ne}
use mazuki_os.Network.{
  Bytes, set_byte, copy, checksum, put_checksum, headers_of, ip_header_of, udp_part, udp_reply,
}
use mazuki_os.Network.Checksum.{AreBytes, set_byte-AreBytes, put_checksum_lem}
use mazuki_os.Network.Udp.{
  ArePorts, HasLength, udp_part_below, udp_part-ArePorts, udp_part-HasLength, udp_part_payload,
}
use mazuki_os.Network.Copy.{copy_outside, copy_inside, copy-AreBytes, checksum_same}

put_checksum_other : (reply : Bytes) (a : ℕ) → a ≢ 24 → a ≢ 25 → put_checksum reply a ≡ reply a
unfolding put_checksum
put_checksum_other reply a h l = rw (==_ne a 25 l, ==_ne a 24 h) refl

-- The addresses of the two ends, exchanged.
ip_header_of_addresses :
    (frame mac stack : Bytes) (i : ℕ)
    → i < 4
    → (ip_header_of frame mac stack (26 + i) ≡ frame (30 + i))
      × (ip_header_of frame mac stack (30 + i) ≡ frame (26 + i))
unfolding ip_header_of
ip_header_of_addresses frame mac stack i h = (
  put_checksum_other (copy 4 30 sources 26 frame) (26 + i) (omega arith) (omega arith)
      ∙ copy_outside 4 30 26 (26 + i) sources frame (inl (omega arith))
      ∙ copy_inside 4 26 30 i (headers_of frame mac stack) frame h,
  put_checksum_other (copy 4 30 sources 26 frame) (30 + i) (omega arith) (omega arith)
      ∙ copy_inside 4 30 26 i sources frame h,
)
  where
    sources : Bytes
    sources = copy 4 26 (headers_of frame mac stack) 30 frame

-- The bytes before the addresses but the checksum are those of the first two headers.
ip_header_of_early :
    (frame mac stack : Bytes) (a : ℕ)
    → a < 24
    → ip_header_of frame mac stack a ≡ headers_of frame mac stack a
unfolding ip_header_of
ip_header_of_early frame mac stack a h =
    let headers = headers_of frame mac stack in
    let sources = copy 4 26 headers 30 frame in
    put_checksum_other (copy 4 30 sources 26 frame) a (omega arith) (omega arith)
    ∙ copy_outside 4 30 26 a sources frame (inl (omega arith))
    ∙ copy_outside 4 26 30 a headers frame (inl (omega arith))

-- The Ethernet header goes to the sender, from the address of the card, with the type of IP.
abbrev pub IsEthernet : Bytes → Bytes → Bytes → Type 0
IsEthernet frame mac r =
    ((i : ℕ) → i < 6 → (r i ≡ frame (6 + i)) × (r (6 + i) ≡ mac i)) × (r 12 ≡ 8) × (r 13 ≡ 0)

headers_of-IsEthernet :
    (frame mac stack : Bytes) → IsEthernet frame mac (headers_of frame mac stack)
unfolding headers_of
headers_of-IsEthernet frame mac stack = (
  λ i h. (
    copy_outside 20 14 14 i kind frame (inl (omega arith))
        ∙ rw (==_ne i 13 (omega arith), ==_ne i 12 (omega arith)) refl
        ∙ copy_outside 6 6 0 i ends mac (inl (omega arith))
        ∙ ap ends {x = i} {y = 0 + i} (omega arith)
        ∙ copy_inside 6 0 6 i stack frame h,
    copy_outside 20 14 14 (6 + i) kind frame (inl (omega arith))
        ∙ rw (==_ne (6 + i) 13 (omega arith), ==_ne (6 + i) 12 (omega arith)) refl
        ∙ copy_inside 6 6 0 i ends mac h
        ∙ ap mac (omega arith),
  ),
  copy_outside 20 14 14 12 kind frame (inl (omega arith)),
  copy_outside 20 14 14 13 kind frame (inl (omega arith)),
)
  where
    ends : Bytes
    ends = copy 6 0 stack 6 frame

    kind : Bytes
    kind = set_byte 13 0 (set_byte 12 8 (copy 6 6 ends 0 mac))

headers_of_ip :
    (frame mac stack : Bytes) (i : ℕ)
    → i < 20
    → headers_of frame mac stack (14 + i) ≡ frame (14 + i)
unfolding headers_of
headers_of_ip frame mac stack i h =
    copy_inside 20 14 14 i (set_byte 13 0 (set_byte 12 8 (copy 6 6 (copy 6 0 stack 6 frame) 0 mac)))
      frame h

checksum-ip_header_of :
    (frame mac stack : Bytes)
    → AreBytes frame
    → AreBytes mac
    → AreBytes stack
    → checksum (ip_header_of frame mac stack) 14 20 ≡ 0
unfolding ip_header_of headers_of
checksum-ip_header_of frame mac stack f m s =
    let ends = copy 6 6 (copy 6 0 stack 6 frame) 0 mac in
    let kind = set_byte 13 0 (set_byte 12 8 ends) in
    let headers = copy 20 14 kind 14 frame in
    let sources = copy 4 26 headers 30 frame in
    let v =
      copy-AreBytes 6 6 0 (copy 6 0 stack 6 frame) mac (copy-AreBytes 6 0 6 stack frame s f) m in
    let w =
      set_byte-AreBytes 13 0 (set_byte 12 8 ends) (omega arith)
        (set_byte-AreBytes 12 8 ends (omega arith) v) in
    put_checksum_lem (copy 4 30 sources 26 frame) (
      copy-AreBytes 4 30 26 sources frame
        (copy-AreBytes 4 26 30 headers frame (copy-AreBytes 20 14 14 kind frame w f) f) f)

-- What a datagram's echo is, byte for byte: it goes from the card to the sender, its IP header is
-- that of the request with both addresses exchanged and a sum that checks, its ports are exchanged,
-- its length is the same, its UDP checksum is 0, and the payload is the same.
pub record IsEcho (frame mac reply : Bytes) (uh ul : ℕ) : Type 0 where
  pub ethernet : IsEthernet frame mac reply
  pub header : (i : ℕ) → i < 10 → reply (14 + i) ≡ frame (14 + i)
  pub sum : checksum reply 14 20 ≡ 0
  pub addresses :
      (i : ℕ) → i < 4 → (reply (26 + i) ≡ frame (30 + i)) × (reply (30 + i) ≡ frame (26 + i))
  pub ports : ArePorts uh frame reply
  pub length : HasLength uh frame reply
  pub payload : (i : ℕ) → 8 ≤ i → i < ul → reply (uh + i) ≡ frame (uh + i)

pub udp_reply-IsEcho :
    (frame mac stack : Bytes) (uh ul : ℕ)
    → AreBytes frame
    → AreBytes mac
    → AreBytes stack
    → 34 ≤ uh
    → IsEcho frame mac (udp_reply frame uh ul mac stack) uh ul
unfolding udp_reply
udp_reply-IsEcho frame mac stack uh ul f m s h =
    let below = λ (a : ℕ) (lt : a < 34).
      udp_part_below uh ul frame (ip_header_of frame mac stack) a (omega arith) in
    let early =
      λ (a : ℕ) (lt : a < 24). below a (omega arith) ∙ ip_header_of_early frame mac stack a lt in
    let (ends, kind, kind') = headers_of-IsEthernet frame mac stack in
    record {
      ethernet = (
        λ i lt.
            (early i (omega arith) ∙ (ends i lt).0, early (6 + i) (omega arith) ∙ (ends i lt).1),
        early 12 (omega arith) ∙ kind,
        early 13 (omega arith) ∙ kind',
      );
      header = λ i lt. early (14 + i) (omega arith) ∙ headers_of_ip frame mac stack i (omega arith);
      sum =
          checksum_same (udp_part uh ul frame (ip_header_of frame mac stack))
            (ip_header_of frame mac stack) (λ a lo hi. below a hi)
          ∙ checksum-ip_header_of frame mac stack f m s;
      addresses = λ i lt.
          let both = ip_header_of_addresses frame mac stack i lt in
          (below (26 + i) (omega arith) ∙ both.0, below (30 + i) (omega arith) ∙ both.1);
      ports = udp_part-ArePorts uh ul frame (ip_header_of frame mac stack);
      length = udp_part-HasLength uh ul frame (ip_header_of frame mac stack);
      payload = λ i lo hi. udp_part_payload uh ul frame (ip_header_of frame mac stack) i lo hi;
    }

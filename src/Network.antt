-- ===== src/Network.antt =====
-- sys/kernel/drivers/rtl8139.c: what the driver does with a frame. The registers of the card are
-- left out; a frame is the bytes behind a pointer, with its length.
pub mod Checksum
pub mod Copy
pub mod Echo
pub mod Reply
pub mod Udp
mod Tests
use mazuki_os.Base.{
  ℕ, zero, suc, ◌+◌, ◌-◌, ◌*◌, ◌/◌, ◌%◌, ◌^◌, Bool, true, false, ◌&&◌, ◌||◌, not, List, [], ◌∷◌,
  ltb, leb, ◌==◌, if◌then◌else◌, set,
}

abbrev pub tx_buffer_size : ℕ
tx_buffer_size = 1536

abbrev pub tx_count : ℕ
tx_count = 4

-- The bytes behind a pointer.
abbrev pub Bytes : Type 0
Bytes = ℕ → ℕ

-- `nic_mac`, `tx_buffers`, `tx_index` and `nic_ready`, with the lengths given to the card, the last
-- one first.
pub record Nic : Type 0 where
  pub mac : Bytes
  pub tx_buffers : ℕ → Bytes
  pub tx_index : ℕ
  pub ready : Bool
  pub sent : List (ℕ × ℕ)

abbrev pub set_byte : ℕ → ℕ → Bytes → Bytes
set_byte i x bytes = λ a. if a == i then x else bytes a

-- `for (i = 0; i < n; i++) to[dst + i] = from[src + i]`
unfoldable pub copy : ℕ → ℕ → Bytes → ℕ → Bytes → Bytes
copy zero dst to src from = to
copy (suc n) dst to src from = copy n (dst + 1) (set_byte dst (from src) to) (src + 1) from

-- The sum of `n` words of two bytes from `i` on, added to `sum`.
unfoldable pub sum_words : ℕ → ℕ → Bytes → ℕ → ℕ
sum_words zero i bytes sum = sum
sum_words (suc n) i bytes sum =
    sum_words n (i + 2) bytes ((sum + (bytes i * 256 + bytes (i + 1))) % 2 ^ 32)

-- `while (sum >> 16)`; three rounds are enough for any sum of 32 bits.
unfoldable pub fold_sum : ℕ → ℕ → ℕ
fold_sum zero sum = sum
fold_sum (suc fuel) sum =
    let rest = fold_sum fuel (sum % 2 ^ 16 + sum / 2 ^ 16) in
    if sum / 2 ^ 16 == 0 then sum else rest

-- `checksum(data + i, length)`
unfoldable pub checksum : Bytes → ℕ → ℕ → ℕ
checksum bytes i length =
    let words = sum_words (length / 2) i bytes 0 in
    let sum = if length % 2 == 1 then (words + bytes (i + length - 1) * 256) % 2 ^ 32 else words in
    (2 ^ 32 - 1 - fold_sum 3 sum) % 2 ^ 16

-- `length` has 16 bits; the padding is up to 60 bytes.
unfoldable pub transmit : Bytes → ℕ → Nic → Bool × Nic
transmit frame length nic =
    let index = nic.tx_index % tx_count in
    let filled = copy length 0 (nic.tx_buffers index) 0 frame in
    let padded = copy (60 - length) length filled 0 (λ a. 0) in
    if not nic.ready || ltb tx_buffer_size length then (false, nic) else (
      true,
      record nic {
        tx_buffers = λ b. if b == index then padded else nic.tx_buffers b;
        tx_index = (nic.tx_index + 1) % 256;
        sent = (index, if ltb length 60 then 60 else length) ∷ nic.sent;
      },
    )

-- The address of the kernel, 10.0.2.15, at `i`.
abbrev pub own_address : ℕ → Bytes → Bytes
own_address i bytes =
    set_byte (i + 3) 15 (set_byte (i + 2) 2 (set_byte (i + 1) 0 (set_byte i 10 bytes)))

-- The reply to a request for the address; `stack` is what the buffer held before.
unfoldable pub arp_reply : Bytes → Bytes → Bytes → Bytes
arp_reply request mac stack =
    let ethernet = copy 6 6 (copy 6 0 stack 6 request) 0 mac in
    let kind = set_byte 13 6 (set_byte 12 8 ethernet) in
    let format =
      set_byte 19 4
        (set_byte 18 6 (set_byte 17 0 (set_byte 16 8 (set_byte 15 1 (set_byte 14 0 kind))))) in
    let reply = set_byte 21 2 (set_byte 20 0 format) in
    copy 4 38 (own_address 28 (copy 6 32 (copy 6 22 reply 0 mac) 22 request)) 28 request

unfoldable pub send_arp_reply : Bytes → Bytes → Nic → Nic
send_arp_reply request stack nic = (transmit (arp_reply request nic.mac stack) 42 nic).1

-- The two bytes of the checksum, each from a call of its own.
unfoldable pub put_checksum : Bytes → Bytes
put_checksum reply =
    let cleared = set_byte 25 0 (set_byte 24 0 reply) in
    let high = set_byte 24 (checksum cleared 14 20 / 256) cleared in
    set_byte 25 (checksum high 14 20 % 256) high

-- The first two headers of the echo, before the addresses are exchanged.
unfoldable pub headers_of : Bytes → Bytes → Bytes → Bytes
headers_of frame mac stack =
    let ethernet = set_byte 13 0 (set_byte 12 8 (copy 6 6 (copy 6 0 stack 6 frame) 0 mac)) in
    copy 20 14 ethernet 14 frame

unfoldable pub ip_header_of : Bytes → Bytes → Bytes → Bytes
ip_header_of frame mac stack =
    put_checksum (copy 4 30 (copy 4 26 (headers_of frame mac stack) 30 frame) 26 frame)

-- The ports are exchanged, and the checksum is 0.
unfoldable pub udp_header_of : ℕ → Bytes → Bytes → Bytes
udp_header_of udp_header frame reply =
    let header = copy 8 udp_header reply udp_header frame in
    let source =
      set_byte (udp_header + 1) (frame (udp_header + 3))
        (set_byte udp_header (frame (udp_header + 2)) header) in
    let ports =
      set_byte (udp_header + 3) (frame (udp_header + 1))
        (set_byte (udp_header + 2) (frame udp_header) source) in
    set_byte (udp_header + 7) 0 (set_byte (udp_header + 6) 0 ports)

-- With the payload of the request.
unfoldable pub udp_part : ℕ → ℕ → Bytes → Bytes → Bytes
udp_part udp_header udp_length frame reply =
    copy (udp_length - 8) (udp_header + 8) (udp_header_of udp_header frame reply) (udp_header + 8)
      frame

unfoldable pub udp_reply : Bytes → ℕ → ℕ → Bytes → Bytes → Bytes
udp_reply frame udp_header udp_length mac stack =
    udp_part udp_header udp_length frame (ip_header_of frame mac stack)

unfoldable pub echo_udp : Bytes → ℕ → Bytes → Nic → Nic
echo_udp frame length stack nic =
    let udp_header = 14 + frame 14 % 16 * 4 in
    let udp_length = frame (udp_header + 4) * 256 + frame (udp_header + 5) in
    if ltb length 42 || not (frame 23 == 17)
    then nic
    else if ltb length (udp_header + udp_length) || ltb udp_length 8
    then nic
    else (transmit (udp_reply frame udp_header udp_length nic.mac stack) (udp_header + udp_length)
        nic).1

-- The test for a request for the address of the kernel.
abbrev pub asks_for_us : Bytes → ℕ → Bool
asks_for_us frame length =
    leb 42 length
    && frame 20 == 0
    && frame 21 == 1
    && frame 38 == 10
    && frame 39 == 0
    && frame 40 == 2
    && frame 41 == 15

unfoldable pub receive_frame : Bytes → ℕ → Bytes → Nic → Nic
receive_frame frame length stack nic =
    let protocol = frame 12 * 256 + frame 13 in
    if ltb length 14
    then nic
    else if protocol == 0x0806 && asks_for_us frame length
    then send_arp_reply frame stack nic
    else if protocol == 0x0800
    then echo_udp frame length stack nic
    else nic

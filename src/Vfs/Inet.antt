-- ===== src/Vfs/Inet.antt =====
-- The loopback datagram sockets of vfs.c. An address that user code passes is the memory that the
-- pointer shows, `none` for NULL.
use Prim.Native.Nat.{bit_or}
use mathlib.Core.Option
use mazuki_os.Base.{
  ℕ, ◌+◌, ◌-◌, ◌*◌, ◌/◌, ◌%◌, ◌^◌, min, Bool, true, ◌&&◌, ◌||◌, not, Option, none, some, List, [],
  ltb, ◌==◌, if◌then◌else◌, length, get_elem?, get_or, take, any_other, first_where, ℤ, pos, neg,
  Result, ok, err,
}
use mazuki_os.Ring.{put, skip}
use mazuki_os.Vfs.State.{
  Vfs, File, Target, InetSocket, Datagram, zero_datagram, inet_datagram_count, inet_datagram_size,
  set_inet,
}

abbrev pub loopback : ℕ
loopback = 0x0100_007F

-- `network_port`, which swaps the two bytes
unfoldable pub network_port : ℕ → ℕ
network_port port = bit_or (port / 2 ^ 8) (port * 2 ^ 8) % 2 ^ 16

-- A little-endian field of `width` bytes.
unfoldable pub field16 : List ℕ → ℕ → ℕ
field16 bytes i = get_or bytes i 0 + get_or bytes (i + 1) 0 * 2 ^ 8

unfoldable pub field32 : List ℕ → ℕ → ℕ
unfolding field16
field32 bytes i = field16 bytes i + field16 bytes (i + 2) * 2 ^ 16

pub record Endpoint : Type 0 where
  pub ip : ℕ
  pub port : ℕ

-- `inet_address`, on the fields of `struct inet_sockaddr`
unfoldable pub check_endpoint : ℕ → ℕ → ℕ → Result Endpoint
unfolding network_port
check_endpoint family port ip =
    if not (family == 2)
    then err 97
    else if not (ip == 0) && not (ip == loopback)
    then err 101
    else if network_port port == 0
    then err 22
    else ok (record { ip = ip; port = network_port port })

unfoldable pub inet_address : Option (List ℕ) → ℕ → Result Endpoint
unfolding check_endpoint field16 field32
inet_address none address_length = err 14
inet_address (some bytes) address_length =
    if ltb address_length 8
    then err 14
    else check_endpoint (field16 bytes 0) (field16 bytes 2) (field32 bytes 4)

-- Does a datagram to this address and port go to this socket?
abbrev pub receives : ℕ → ℕ → InetSocket → Bool
receives address port d = d.used && (d.port == port) && ((d.address == 0) || (d.address == address))

abbrev pub datagram_from : InetSocket → List ℕ → Datagram
datagram_from source buffer = record {
  payload = buffer;
  source_address = if source.address == 0 then loopback else source.address;
  source_port = source.port;
}

-- At the socket that receives: its queue is full, or the datagram is stored behind the others.
unfoldable pub deliver : InetSocket → List ℕ → ℕ → InetSocket → Vfs → Vfs × ℤ
deliver source buffer i destination s =
    if destination.ring.count == inet_datagram_count then (s, neg 11) else (
      set_inet i
          (λ d. record d { ring = put inet_datagram_count d.ring (datagram_from source buffer) }) s,
      pos (length buffer),
    )

-- `inet_send`; `first_where` finds an index of the table, so the last case is not met.
unfoldable pub inet_send : InetSocket → List ℕ → ℕ → ℕ → Vfs → Vfs × ℤ
unfolding deliver
inet_send source buffer address port s =
    if ltb inet_datagram_size (length buffer)
    then (s, neg 90)
    else elim (first_where (receives address port) s.inet_sockets 0) [
      | none ↦ (s, neg 111)
      | some i ↦ elim (get_elem? s.inet_sockets i) [
        | none ↦ (s, neg 111)
        | some destination ↦ deliver source buffer i destination s
      ]
    ]

-- The socket behind a descriptor's `private_data`.
unfoldable pub inet_of : File → Vfs → Option (ℕ × InetSocket)
inet_of f s = elim f.private_data [
  | Target.inet j ↦ Option.map (λ x. (j, x)) (get_elem? s.inet_sockets j)
  | _ ↦ none
]

-- Would binding to `ip` and `port` meet this other socket?
abbrev pub clashes : ℕ → ℕ → InetSocket → Bool
clashes ip port d =
    d.used && (d.port == port) && ((d.address == 0) || (ip == 0) || (d.address == ip))

unfoldable pub inet_bind : ℕ → Option (List ℕ) → ℕ → Vfs → Vfs × ℤ
inet_bind j address address_length s = elim (inet_address address address_length) [
  | err e ↦ (s, neg e)
  | ok to ↦
      if any_other j (clashes to.ip to.port) s.inet_sockets
      then (s, neg 98)
      else (set_inet j (λ d. record d { address = to.ip; port = to.port }) s, pos 0)
]

-- `if (socket->port == 0) socket->port = 49152 + (uint16_t)(fd - 3);`
unfoldable pub with_port : ℕ → InetSocket → InetSocket
with_port fd d =
    if d.port == 0 then record d { port = (49152 + (fd + 2 ^ 16 - 3) % 2 ^ 16) % 2 ^ 16 } else d

unfoldable pub inet_connect : ℕ → ℕ → Option (List ℕ) → ℕ → Vfs → Vfs × ℤ
unfolding with_port
inet_connect fd j address address_length s = elim (inet_address address address_length) [
  | err e ↦ (s, neg e)
  | ok to ↦ (
    set_inet j
        (λ d. record (with_port fd d) {
          peer_address = to.ip;
          peer_port = to.port;
          connected = true;
        })
        s,
    pos 0,
  )
]

unfoldable pub inet_sendto : ℕ → ℕ → InetSocket → List ℕ → Option (List ℕ) → ℕ → Vfs → Vfs × ℤ
unfolding with_port
inet_sendto fd j socket buffer address address_length s =
    elim (inet_address address address_length) [
      | err e ↦ (s, neg e)
      | ok to ↦ inet_send (with_port fd socket) buffer to.ip to.port (set_inet j (with_port fd) s)
    ]

-- The `struct inet_sockaddr` written back, where the caller has room for it.
pub record SockAddr : Type 0 where
  pub family : ℕ
  pub port : ℕ
  pub address : ℕ

pub record Received : Type 0 where
  pub bytes : List ℕ
  pub source : Option SockAddr

abbrev pub nothing_received : Received
nothing_received = record { bytes = []; source = none }

-- `room` is `*address_length`, `none` where one of the two pointers is NULL.
abbrev pub source_of : Option ℕ → Datagram → Option SockAddr
source_of none d = none
source_of (some room) d =
    if ltb room 16
    then none
    else some (record { family = 2; port = network_port d.source_port; address = d.source_address })

-- `vfs_socket_recvfrom` at the socket: the oldest datagram, cut to `size` bytes.
unfoldable pub inet_recvfrom : ℕ → InetSocket → ℕ → Option ℕ → Vfs → Vfs × ℤ × Received
inet_recvfrom j socket size room s =
    let d = get_or socket.ring.cells socket.ring.read_pos zero_datagram in
    if socket.ring.count == 0 then (s, neg 11, nothing_received) else (
      set_inet j (λ x. record x { ring = skip inet_datagram_count x.ring }) s,
      pos (min (length d.payload) size),
      record { bytes = take size d.payload; source = source_of room d },
    )

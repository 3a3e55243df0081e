-- ===== src/Network/Tests.antt =====
-- A witness for the echo: a datagram of four bytes.
use mazuki_os.Base.{true, []}
use mazuki_os.Network.{Bytes, Nic, set_byte}

abbrev sevens : Bytes
sevens = λ a. 7

abbrev datagram : Bytes
datagram = set_byte 23 17 (set_byte 14 69 (set_byte 38 0 (set_byte 39 12 sevens)))

abbrev card : Nic
card = record { mac = sevens; tx_buffers = λ b. sevens; tx_index = 3; ready = true; sent = [] }

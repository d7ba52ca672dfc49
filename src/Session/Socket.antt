-- ===== src/Session/Socket.antt =====
-- How XBridgeSession reads packets from its socket (src/xbridgesession.cpp): doReadHeader, onReadHeader,
-- doReadBody, onReadBody and disconnect. Each read is asynchronous: the socket fills some of the buffer that it
-- was given, and the handler runs on what has arrived.
pub mod Buffer
pub mod Stream
pub mod Whole
use xhubv.Prelude.{
  ℕ, ◌+◌, ◌-◌, ◌≤◌, List, [], ◌∷◌, ◌++◌, Bool, true, false, not, Option, none, some, Bytes, length,
  replicate, ◌==◌, if◌then◌else◌,
}
use xhubv.Packet.{Packet, header_size, protocol_version, set_field32, size, alloc, overwrite}
use xhubv.Session.{check_packet_version}

-- What a session waits for: the rest of a header or of a body behind the bytes that it has, or nothing.
pub data Reading : Type 0 where
  header : Packet → ℕ → Reading
  body : Packet → ℕ → Reading
  closed : Reading

-- What a read comes to: some bytes at a time, or an error.
pub data Arrival : Type 0 where
  got : ℕ → Bytes → Arrival
  failed : Arrival

-- XBridgePacket()
unfoldable pub blank_packet : ℕ → Packet
blank_packet now = record {
  body = set_field32 2 now (set_field32 0 protocol_version (replicate header_size 0));
}

-- start, and the end of onReadBody: the next header is waited for.
unfoldable pub start : ℕ → Reading
unfolding blank_packet
start now = Reading.header (blank_packet now) 0

-- The size of the buffer of doReadHeader or doReadBody.
unfoldable pub room : Reading → ℕ
room (Reading.header p offset) = header_size - offset
room (Reading.body p offset) = size p - offset
room Reading.closed = 0

-- The bytes are in the packet, behind `offset` bytes of the header.
unfoldable pub on_read_header : Packet → ℕ → Reading
on_read_header p offset =
    if not (offset == header_size)
    then Reading.header p offset
    else if not (check_packet_version p)
    then Reading.closed
    else Reading.body (alloc p) 0

-- The second component is the packet that goes to processPacket.
unfoldable pub on_read_body : ℕ → Packet → ℕ → Reading × Option Packet
unfolding start
on_read_body now p offset =
    if not (offset == size p) then (Reading.body p offset, none) else (start now, some p)

-- Bytes that arrive stand in the buffer before the handler runs.
unfoldable pub arrive : Arrival → Reading → Reading × Option Packet
unfolding on_read_header on_read_body
arrive a Reading.closed = (Reading.closed, none)
arrive Arrival.failed r = (Reading.closed, none)
arrive (Arrival.got now c) (Reading.header p offset) =
    (on_read_header (record { body = overwrite offset c p.body }) (offset + length c), none)
arrive (Arrival.got now c) (Reading.body p offset) =
    on_read_body now (record { body = overwrite (header_size + offset) c p.body })
      (offset + length c)

-- The packets that are processed, in their order.
unfoldable pub arrive_all : List Arrival → Reading → Reading × List Packet
unfolding arrive
arrive_all [] r = (r, [])
arrive_all (a ∷ later) r =
    let (r', d) = arrive a r in
    let (r'', ds) = arrive_all later r' in (r'', elim d [ none ↦ ds | some p ↦ p ∷ ds ])

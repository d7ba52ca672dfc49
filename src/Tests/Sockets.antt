-- ===== src/Tests/Sockets.antt =====
-- The theorems on the reader of a socket, applied to two packets that come in five reads.
use xhubv.Prelude.{
  ◌<◌, ◌≡◌, refl, arith, List, [], ◌∷◌, true, false, All, take, drop, le_bytes, le_value,
}
use xhubv.Packet.{
  Packet, XBridgeCommand, command_code, new_packet, append_uint32, append_bytes, set_field32,
  field32, size, alloc, overwrite, resized,
}
use xhubv.Session.{check_packet_version}
use xhubv.Session.Socket.{
  Arrival, start, blank_packet, room, arrive, arrive_all, on_read_header, on_read_body,
}
use xhubv.Session.Socket.Stream.{IsWhole}
use xhubv.Session.Socket.Whole.{arrived, bodies, Fits, Cut, arrive_all-cuts, arrive_all-reads}

abbrev first : Packet
first = append_uint32 7 (new_packet XBridgeCommand.xbc_transaction 100)

abbrev second : Packet
second = append_bytes (5 ∷ 6 ∷ []) (new_packet XBridgeCommand.xbc_transaction_hold 101)

-- The first header in two reads, its body in two, and the second packet in two.
abbrev reads : List Arrival
reads =
    Arrival.got 100 (take 10 first.body)
    ∷ Arrival.got 100 (drop 10 (take 32 first.body))
    ∷ Arrival.got 101 (drop 32 (take 33 first.body))
    ∷ Arrival.got 101 (drop 33 first.body)
    ∷ Arrival.got 102 (take 32 second.body)
    ∷ Arrival.got 102 (drop 32 second.body)
    ∷ []

reads-Fits : Fits false reads (start 100)
unfolding arrive room start blank_packet on_read_header on_read_body check_packet_version alloc
    overwrite resized field32 set_field32 append_uint32 append_bytes new_packet le_bytes le_value
    command_code
reads-Fits = (
  tt,
  omega arith,
  (tt, omega arith, (tt, omega arith, (tt, omega arith, (tt, omega arith, (tt, omega arith, tt))))),
)

first-IsWhole : IsWhole first
unfolding check_packet_version field32 set_field32 append_uint32 append_bytes new_packet le_bytes
    le_value command_code
first-IsWhole = record { long = refl; versed = refl }

second-IsWhole : IsWhole second
unfolding check_packet_version field32 set_field32 append_bytes new_packet le_bytes le_value
    command_code
second-IsWhole = record { long = refl; versed = refl }

nonempty : All (λ p. 0 < size p) (first ∷ second ∷ [])
unfolding field32 set_field32 append_uint32 append_bytes new_packet le_bytes le_value command_code
nonempty = (omega arith, (omega arith, tt))

whole_stream : arrived reads ≡ bodies (first ∷ second ∷ [])
unfolding set_field32 append_uint32 append_bytes new_packet le_bytes command_code
whole_stream = refl

arrive_all-reads_example : (arrive_all reads (start 100)).1 ≡ first ∷ second ∷ []
arrive_all-reads_example =
    arrive_all-reads 100 reads (first ∷ second ∷ []) (first-IsWhole, (second-IsWhole, tt)) nonempty
      reads-Fits whole_stream

-- The socket fails in the middle of the first body.
abbrev broken_reads : List Arrival
broken_reads =
    Arrival.got 100 (take 10 first.body)
    ∷ Arrival.got 100 (drop 10 (take 32 first.body))
    ∷ Arrival.got 101 (drop 32 (take 33 first.body))
    ∷ Arrival.failed
    ∷ []

broken_reads-Fits : Fits true broken_reads (start 100)
unfolding arrive room start blank_packet on_read_header on_read_body check_packet_version alloc
    overwrite resized field32 set_field32 append_uint32 append_bytes new_packet le_bytes le_value
    command_code
broken_reads-Fits = (tt, omega arith, (tt, omega arith, (tt, omega arith, (refl, omega arith, tt))))

arrive_all-cuts_example : Cut true (arrived broken_reads) (arrive_all broken_reads (start 100))
arrive_all-cuts_example = arrive_all-cuts 100 broken_reads broken_reads-Fits

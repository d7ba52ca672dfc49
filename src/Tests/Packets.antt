-- ===== src/Tests/Packets.antt =====
-- The theorems on packets, applied to small ones.
use xhubv.Prelude.{◌≡◌, arith, [], ◌∷◌, true}
use xhubv.Hex.{hex_str, parse_hex, parse_hex-hex_str}
use xhubv.Packet.{Packet, XBridgeCommand, timestamp, size, payload, new_packet, set_data_int32}
use xhubv.Packet.Data.{set_data_int32-timestamp}

abbrev hold : Packet
hold = new_packet XBridgeCommand.xbc_transaction_hold 100

set_data_int32-timestamp_example :
    (timestamp (set_data_int32 5 hold) ≡ 5)
    × (size (set_data_int32 5 hold) ≡ 4)
    × (payload (set_data_int32 5 hold) ≡ payload (set_data_int32 6 hold))
set_data_int32-timestamp_example = set_data_int32-timestamp 5 6 hold (omega arith)

-- The bytes 0, 171 and 255, with blanks between them.
parse_hex-hex_str_example : parse_hex (hex_str true (0 ∷ 171 ∷ 255 ∷ [])) ≡ 0 ∷ 171 ∷ 255 ∷ []
parse_hex-hex_str_example =
    parse_hex-hex_str true (0 ∷ 171 ∷ 255 ∷ []) (omega arith, (omega arith, (omega arith, tt)))

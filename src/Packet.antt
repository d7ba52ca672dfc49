-- ===== src/Packet.antt =====
-- XBridgePacket of src/xbridgepacket.h: the vector m_body, a header of eight 32-bit words and the
-- data behind it. A word is read and written where the source casts the vector's memory.
pub mod Fields
pub mod Append
pub mod Parts
pub mod Data
use xhubv.Prelude.{
  ℕ, ◌+◌, ◌-◌, ◌*◌, ◌%◌, ◌^◌, [], ◌∷◌, ◌++◌, Option, none, some, Bytes, le_bytes, le_value, slice,
  c_string, length, take, drop, replicate, ltb, ◌==◌, if◌then◌else◌,
}

abbrev pub protocol_version : ℕ
protocol_version = 0xff000003

-- headerSize
abbrev pub header_size : ℕ
header_size = 32

pub data XBridgeCommand : Type 0 where
  xbc_invalid xbc_announce_addresses xbc_x_chat_message xbc_transaction xbc_transaction_hold
        xbc_transaction_hold_apply xbc_transaction_init xbc_transaction_initialized
        xbc_transaction_create xbc_transaction_created xbc_transaction_sign xbc_transaction_signed
        xbc_transaction_commit xbc_transaction_commited xbc_transaction_confirm
        xbc_transaction_confirmed xbc_transaction_cancel xbc_transaction_rollback
        xbc_transaction_finished xbc_transaction_dropped xbc_exchange_wallets
        xbc_received_transaction xbc_pending_transaction xbc_address_book_entry :
      XBridgeCommand

-- The enumeration's numbers.
unfoldable pub command_code : XBridgeCommand → ℕ
command_code xbc_invalid = 0
command_code xbc_announce_addresses = 1
command_code xbc_x_chat_message = 2
command_code xbc_transaction = 3
command_code xbc_transaction_hold = 4
command_code xbc_transaction_hold_apply = 5
command_code xbc_transaction_init = 6
command_code xbc_transaction_initialized = 7
command_code xbc_transaction_create = 8
command_code xbc_transaction_created = 9
command_code xbc_transaction_sign = 10
command_code xbc_transaction_signed = 11
command_code xbc_transaction_commit = 12
command_code xbc_transaction_commited = 13
command_code xbc_transaction_confirm = 14
command_code xbc_transaction_confirmed = 15
command_code xbc_transaction_cancel = 16
command_code xbc_transaction_rollback = 17
command_code xbc_transaction_finished = 18
command_code xbc_transaction_dropped = 19
command_code xbc_exchange_wallets = 20
command_code xbc_received_transaction = 21
command_code xbc_pending_transaction = 22
command_code xbc_address_book_entry = 23

pub record Packet : Type 0 where
  pub body : Bytes

-- field32<INDEX>(), read. Every packet of the model has the four words that are read.
unfoldable pub field32 : ℕ → Bytes → ℕ
field32 index b = le_value (take 4 (drop (index * 4) b))

-- field32<INDEX>() = value, which keeps the low 32 bits.
unfoldable pub set_field32 : ℕ → ℕ → Bytes → Bytes
set_field32 index value b = take (index * 4) b ++ (le_bytes 4 value ++ drop (index * 4 + 4) b)

-- std::vector::resize(n)
unfoldable pub resized : ℕ → Bytes → Bytes
resized n b = take n b ++ replicate (n - length b) 0

abbrev pub version : Packet → ℕ
version p = field32 0 p.body

abbrev pub command : Packet → ℕ
command p = field32 1 p.body

abbrev pub timestamp : Packet → ℕ
timestamp p = field32 2 p.body

abbrev pub size : Packet → ℕ
size p = field32 3 p.body

abbrev pub all_size : Packet → ℕ
all_size p = length p.body

-- What stands from data() to the vector's end.
abbrev pub payload : Packet → Bytes
payload p = drop header_size p.body

-- `n` bytes at data() + off; `none` where the source reads past the vector.
abbrev pub data_at : ℕ → ℕ → Packet → Option Bytes
data_at off n p = slice off n (payload p)

-- The C string at data() + off.
abbrev pub text_at : ℕ → Packet → Option Bytes
text_at off p = c_string off (payload p)

-- XBridgePacket(XBridgeCommand), at the time `now`.
unfoldable pub new_packet : XBridgeCommand → ℕ → Packet
unfolding command_code set_field32
new_packet c now = record {
  body =
      set_field32 2 now
        (set_field32 1 (command_code c) (set_field32 0 protocol_version (replicate header_size 0)));
}

unfoldable pub alloc : Packet → Packet
alloc p = record { body = resized (header_size + size p) p.body }

unfoldable pub clear : Packet → Packet
clear p = record { body = set_field32 3 0 (set_field32 1 0 (resized header_size p.body)) }

-- resize, with the sum of unsigned int
unfoldable pub resize : ℕ → Packet → Packet
resize n p = record { body = set_field32 3 n (resized ((n + header_size) % 2 ^ 32) p.body) }

-- Writes `src` over the bytes from `off`, which lie in `b`.
unfoldable pub overwrite : ℕ → Bytes → Bytes → Bytes
overwrite off src b = take off b ++ (src ++ drop (off + length src) b)

-- setData(const unsigned char)
unfoldable pub set_data_byte : ℕ → Packet → Packet
set_data_byte d p = record {
  body = overwrite header_size (d ∷ []) (set_field32 3 1 (resized (1 + header_size) p.body));
}

-- setData(const boost::int32_t), the bit pattern of the argument
unfoldable pub set_data_int32 : ℕ → Packet → Packet
set_data_int32 d p = record {
  body = set_field32 2 d (set_field32 3 4 (resized (4 + header_size) p.body));
}

-- setData(const std::string &)
unfoldable pub set_data_string : Bytes → Packet → Packet
set_data_string d p = record {
  body =
      overwrite header_size d (set_field32 3 (length d) (resized (length d + header_size) p.body));
}

-- setData(const unsigned char *, size, offset), with the sums of unsigned int; `none` where memcpy
-- would write past the vector.
unfoldable pub set_data_at : Bytes → ℕ → Packet → Option Packet
set_data_at d offset p =
    let n = length d % 2 ^ 32 in
    let off = (offset + header_size) % 2 ^ 32 in
    let end = (n + off) % 2 ^ 32 in
    let grown =
      if ltb (length p.body) end
      then set_field32 3 ((end + 2 ^ 32 - header_size) % 2 ^ 32) (resized end p.body)
      else p.body in
    if n == 0
    then some p
    else if ltb (length grown) (off + n)
    then none
    else some (record { body = overwrite off (take n d) grown })

-- The last line of each append: sizeField() = m_body.size() - headerSize.
unfoldable pub append_bytes : Bytes → Packet → Packet
append_bytes d p = let b = p.body ++ d in record { body = set_field32 3 (length b - header_size) b }

unfoldable pub append_uint32 : ℕ → Packet → Packet
append_uint32 d p = append_bytes (le_bytes 4 d) p

unfoldable pub append_uint64 : ℕ → Packet → Packet
append_uint64 d p = append_bytes (le_bytes 8 d) p

-- append(id.begin(), 32)
unfoldable pub append_uint256 : ℕ → Packet → Packet
append_uint256 d p = append_bytes (le_bytes 32 d) p

-- append(const std::string &) adds a NUL.
unfoldable pub append_string : Bytes → Packet → Packet
append_string d p = append_bytes (d ++ 0 ∷ []) p

-- copyFrom: the assertion on the size field is on `false || "text"`, which is true, so the packet is
-- taken whatever its size field says. `none`: the vector is too short for that field.
unfoldable pub copy_from : Bytes → Option Packet
copy_from d = if ltb (length d) 16 then none else some (record { body = d })

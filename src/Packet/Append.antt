-- ===== src/Packet/Append.antt =====
-- What the constructor and the append functions do to a packet: the size field follows the
-- vector, the data grows at its end and the other words of the header stay.
use xhubv.Prelude.{
  ℕ, ◌+◌, ◌-◌, ◌*◌, ◌^◌, ◌≤◌, ◌<◌, ◌≡◌, refl, ap, ◌∙◌, ◌++◌, [], arith, Bytes, le_bytes, length,
  take, drop, length-append, drop-append_le, take-append_le, length-drop, le_value,
}
use xhubv.Packet.{
  Packet, XBridgeCommand, field32, header_size, version, command, timestamp, size, payload,
  new_packet, append_bytes, command_code, protocol_version,
}
use xhubv.Packet.Fields.{
  length-set_field32, drop-set_field32, field32-set_field32_self, field32-set_field32_lt,
}

-- The header is there, and the size field counts the bytes behind it.
pub record IsFramed (p : Packet) : Type 0 where
  pub headed : header_size ≤ length p.body
  pub sized : size p ≡ length (payload p)

field32_append : (i : ℕ) (b d : Bytes) → i * 4 + 4 ≤ length b → field32 i (b ++ d) ≡ field32 i b
unfolding field32
field32_append i b d h =
    ap (λ t. le_value (take 4 t)) (drop-append_le (i * 4) b d (omega arith))
    ∙ ap le_value (take-append_le 4 (drop (i * 4) b) d (omega (arith, length-drop (i * 4) b)))

module _ (d : Bytes) (p : Packet) (headed : header_size ≤ length p.body) where
  abbrev grown : Bytes
  grown = p.body ++ d

  length-grown : length grown ≡ length p.body + length d
  length-grown = length-append p.body d

  pub length-append_bytes : length (append_bytes d p).body ≡ length p.body + length d
  unfolding append_bytes
  length-append_bytes = length-set_field32 3 _ grown (omega (arith, length-grown)) ∙ length-grown

  pub payload-append_bytes : payload (append_bytes d p) ≡ payload p ++ d
  unfolding append_bytes
  payload-append_bytes =
      drop-set_field32 3 _ grown (omega (arith, length-grown)) 32 (omega arith)
      ∙ drop-append_le 32 p.body d headed

  pub field32-append_bytes : (i : ℕ) → i < 3 → field32 i (append_bytes d p).body ≡ field32 i p.body
  unfolding append_bytes
  field32-append_bytes i h =
      field32-set_field32_lt 3 _ grown (omega (arith, length-grown)) i h
      ∙ field32_append i p.body d (omega arith)

  pub size-append_bytes :
      length p.body + length d < 2 ^ 32 → size (append_bytes d p) ≡ length p.body + length d - 32
  unfolding append_bytes
  size-append_bytes h =
      field32-set_field32_self 3 _ grown (omega (arith, length-grown)) (omega (arith, length-grown))
      ∙ omega (arith, length-grown)

  -- Whatever is appended to a packet with a header, as long as the vector stays below 2 ^ 32
  -- bytes, the packet has a header and a size field that counts the data, the data is the old
  -- data followed by the new bytes, and the version, the command and the timestamp stay.
  pub append_bytes-IsFramed :
      length p.body + length d < 2 ^ 32
      → IsFramed (append_bytes d p)
        × (payload (append_bytes d p) ≡ payload p ++ d)
        × (version (append_bytes d p) ≡ version p)
        × (command (append_bytes d p) ≡ command p)
        × (timestamp (append_bytes d p) ≡ timestamp p)
  append_bytes-IsFramed h = (
    record {
      headed = omega (arith, length-append_bytes);
      sized =
          size-append_bytes h
          ∙ omega (arith, length-append_bytes, length-drop 32 (append_bytes d p).body);
    },
    payload-append_bytes,
    field32-append_bytes 0 (omega arith),
    field32-append_bytes 1 (omega arith),
    field32-append_bytes 2 (omega arith),
  )

module _ (c : XBridgeCommand) (now : ℕ) where
  pub length-new_packet : length (new_packet c now).body ≡ 32
  unfolding new_packet le_bytes
  length-new_packet = refl

  pub payload-new_packet : payload (new_packet c now) ≡ []
  unfolding new_packet le_bytes
  payload-new_packet = refl

  pub version-new_packet : version (new_packet c now) ≡ protocol_version
  unfolding new_packet le_bytes field32 le_value
  version-new_packet = refl

pub command-new_packet :
    (c : XBridgeCommand) (now : ℕ) → command (new_packet c now) ≡ command_code c
unfolding new_packet le_bytes field32 le_value
command-new_packet XBridgeCommand.xbc_invalid now = refl
command-new_packet _ now = refl

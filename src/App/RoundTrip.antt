-- ===== src/App/RoundTrip.antt =====
-- An order that a client sends is the order that the hub reads.
use xhubv.Prelude.{
  ℕ, ◌-◌, ◌^◌, ◌<◌, ◌≡◌, List, [], ◌∷◌, ◌++◌, Bytes, le_bytes, length, replicate, IsText,
}
use xhubv.Packet.{Packet, XBridgeCommand, new_packet}
use xhubv.Packet.Parts.{append_all}
use xhubv.Exchange.{Order}
use xhubv.Session.{Descr}

-- A currency of at most seven characters, which leaves room for the NUL.
pub record IsCurrency (c : Bytes) : Type 0 where
  pub text : IsText c
  pub short : length c < 8

-- An order whose fields fit those of the packet.
pub record Fits (d : Descr) : Type 0 where
  pub from : length d.from ≡ 20
  pub to : length d.to ≡ 20
  pub from_currency : IsCurrency d.from_currency
  pub to_currency : IsCurrency d.to_currency
  pub from_amount : d.from_amount < 256 ^ 8
  pub to_amount : d.to_amount < 256 ^ 8
  pub id : d.id < 256 ^ 32

-- The order as the exchange sees it.
abbrev pub order_of : Descr → Order
order_of d = record {
  id = d.id;
  source_addr = d.from;
  source_currency = d.from_currency;
  source_amount = d.from_amount;
  dest_addr = d.to;
  dest_currency = d.to_currency;
  dest_amount = d.to_amount;
}

-- The field of eight bytes: the text, a NUL and the rest of the padding.
abbrev padded : Bytes → Bytes
padded c = c ++ 0 ∷ replicate (7 - length c) 0

module _ (now : ℕ) (d : Descr) (fits : Fits d) where
  abbrev parts : List Bytes
  parts =
      le_bytes 32 d.id
      ∷ d.from
      ∷ padded d.from_currency
      ∷ le_bytes 8 d.from_amount
      ∷ d.to
      ∷ padded d.to_currency
      ∷ le_bytes 8 d.to_amount
      ∷ []

  abbrev sent : Packet
  sent = append_all parts (new_packet XBridgeCommand.xbc_transaction now)

-- ===== src/Session.antt =====
-- XBridgeSession (src/xbridgesession.cpp): the parts that its packet handlers share. A node is the
-- exchange, the queue of messages that XBridgeApp::onSend fills (src/xbridgeapp.cpp) and the
-- client's table of its own trades. A handler takes the node's id, the time, the packet and the node; it
-- gives the new node and its result, or `none` where the source reads or writes outside a buffer.
-- Sockets, the user interface and the logs are left out.
pub mod Hub
pub mod Settle
pub mod Upkeep
pub mod Sweep
pub mod Expiry
pub mod Updates
pub mod History
pub mod Client
pub mod Wallet
pub mod Payment
pub mod Socket
pub mod Total
use xhubv.Prelude.{
  ◌||◌, not, ℕ, ◌+◌, ◌-◌, ◌*◌, List, [], ◌∷◌, ◌++◌, Bool, true, false, not, Option, none, some,
  Bytes, bytes_eq, le_value, length, replicate, ltb, leb, ◌==◌, if◌then◌else◌, ◌>>=◌,
}
use xhubv.Packet.{
  new_packet, append_bytes, append_uint256, XBridgeCommand, Packet, XBridgeCommand, size, version,
  data_at, text_at, protocol_version,
}
use xhubv.Transaction.{Transaction}
use xhubv.Exchange.{Exchange, is_enabled, store}

-- XBridgeTransactionDescr::State
pub data DescrState : Type 0 where
  tr_new tr_pending tr_accepting tr_hold tr_created tr_signed tr_commited tr_finished tr_rollback
        tr_dropped tr_cancelled tr_invalid tr_expired :
      DescrState

-- XBridgeTransactionDescr, without the two times and the packet.
pub record Descr : Type 0 where
  pub id : ℕ
  pub hub_address : Bytes
  pub my_address : Bytes
  pub from : Bytes
  pub from_currency : Bytes
  pub from_amount : ℕ
  pub to : Bytes
  pub to_currency : Bytes
  pub to_amount : ℕ
  pub state : DescrState
  pub pay_tx_id : ℕ
  pub pay_tx : Bytes
  pub rev_tx : Bytes

-- An entry of m_messages: the address, empty for a broadcast, the packet's bytes, and whether the address
-- has been searched for.
pub record Message : Type 0 where
  pub to : Bytes
  pub body : Bytes
  pub searched : Bool

-- The client's tables hold pointers into `heap`, which XBridgeTransactionDescrPtr shares; `raw_sent` is
-- what rpc::sendRawTransaction has handed to a wallet.
pub record Node : Type 0 where
  pub exchange : Exchange
  pub messages : List Message
  pub heap : List (ℕ × Descr)
  pub next : ℕ
  pub my_pending : List (ℕ × ℕ)
  pub my_transactions : List (ℕ × ℕ)
  pub my_unconfirmed : List (ℕ × ℕ)
  pub raw_sent : List Bytes
  pub signal_send : Bool

-- sendPacket: XBridgeApp::onSend(id, message)
unfoldable pub send_packet : Bytes → Packet → Node → Node
send_packet to p n = record n {
  messages = n.messages ++ record { to = to; body = p.body; searched = false } ∷ [];
  signal_send = true;
}

-- sendPacketBroadcast, which always succeeds: XBridgeApp::onSend(packet)
unfoldable pub send_packet_broadcast : Packet → Node → Node
unfolding send_packet
send_packet_broadcast p n = send_packet [] p n

unfoldable pub check_packet_version : Packet → Bool
check_packet_version p = version p == protocol_version

-- uint256(packet->data() + off)
unfoldable pub uint256_at : ℕ → Packet → Option ℕ
uint256_at off p = do b ← data_at off 32 p; some (le_value b)

unfoldable pub uint64_at : ℕ → Packet → Option ℕ
uint64_at off p = do b ← data_at off 8 p; some (le_value b)

unfoldable pub uint32_at : ℕ → Packet → Option ℕ
uint32_at off p = do b ← data_at off 4 p; some (le_value b)

-- relayPacket: true if the packet is not for this node, and has been sent on.
unfoldable pub relay_packet : Bytes → Packet → Node → Option (Node × Bool)
unfolding send_packet
relay_packet my_id p n = if ltb (size p) 20 then some (n, false) else do
  addr ← data_at 0 20 p
  some (if bytes_eq addr my_id then (n, false) else (send_packet addr p n, true))

-- A currency in a field of eight bytes; `none` where std::copy writes past the vector of eight.
unfoldable pub currency_field : Bytes → Option Bytes
currency_field c = if leb (length c) 8 then some (c ++ replicate (8 - length c) 0) else none

-- A trade that a handler has read, with the result of the exchange's update.
unfoldable pub write_back : ℕ → Transaction → Node → Node
write_back id t n = record n { exchange = store id t n.exchange }

module _ (my_id : Bytes) (now : ℕ) where
  -- The head that the hub's packets to a client share: the client, the hub, the trade.
  unfoldable pub to_client : XBridgeCommand → Bytes → ℕ → Packet
  to_client c addr id =
      append_uint256 id (append_bytes my_id (append_bytes addr (new_packet c now)))

-- `check is for me`, and whether this node is an exchange: the rest of a handler runs on `k`.
unfoldable pub for_exchange :
    Bytes → Packet → Node → (Node → Option (Node × Bool)) → Option (Node × Bool)
for_exchange my_id p n k = do
  (n', relayed) ← relay_packet my_id p n
  if relayed || not (is_enabled n'.exchange) then some (n', true) else k n'

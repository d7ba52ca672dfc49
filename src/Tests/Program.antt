-- ===== src/Tests/Program.antt =====
-- The theorems on the whole program, applied to a hub with a wallet's session and a client's address.
use xhubv.Prelude.{
  ℕ, ◌≡◌, refl, arith, List, [], ◌∷◌, ◌++◌, true, false, none, some, bytes_eq, lookup, le_bytes,
  le_value, contains, ℕ-key, Bytes-key, slice,
}
use xhubv.Packet.{
  Packet, XBridgeCommand, new_packet, append_bytes, copy_from, command_code, field32, set_field32,
}
use xhubv.Exchange.Invariant.{new_exchange-IsSound, init-IsSound}
use xhubv.Session.{Message, check_packet_version}
use xhubv.Session.Updates.{Ensures}
use xhubv.App.Sessions.{
  XBridgeApp, Program, World, SendResult, is_local_address, is_known_message, known_hash,
}
use xhubv.App.Dispatch.{on_broadcast_received, on_message_received, send_xbridge_message}
use xhubv.App.Loop.{send_to_address}
use xhubv.App.History.{AppEvent, live}
use xhubv.App.History.Handlers.{SoundApp}
use xhubv.App.History.Sound.{live-Sound}
use xhubv.App.History.Quiet.{IsQuiet}
use xhubv.App.History.Once.{IsOnce, live-IsOnce}
use xhubv.App.History.Retry.{IsLost, given, retry_resends}
use xhubv.App.History.Announce.{IsAnnouncement, announce_captures, announce_locks}
use xhubv.Tests.{
  test_sha, my_id, alice_pays, alice_gets, alice_order, bob_order, order_body, btc, settings,
  open_exchange, node, rpc, millionths, bitcoin, purse,
}

abbrev program : Program
program = record {
  sha256 = test_sha;
  doubles = millionths;
  bitcoin = bitcoin;
  base64_encode = λ s. s;
  base64_decode = λ s. s;
  decode_base58_check = λ s. some s;
  my_id = my_id;
}

-- A network on which nobody is found.
abbrev world : World ℕ
world = record {
  now = 120;
  wallet = λ ptr. purse;
  rpc = λ ptr. rpc;
  address_book = λ ptr. none;
  send_message = λ to message. SendResult.failed;
  search_ends = λ id. false;
}

-- The hub with the session 0 for Bitcoin, at which Alice's address is known.
abbrev app : XBridgeApp
app = record {
  node = node open_exchange;
  session_addrs = (alice_gets, 0) ∷ [];
  session_ids = (btc, 0) ∷ [];
  currencies = (0, btc) ∷ [];
  next_session = 1;
  known = [];
  address_book = [];
  addresses = [];
  search_strings = [];
  signal_search = false;
  network = [];
  searches = [];
}

-- Two orders come in, are sent on, and the first comes in once more.
abbrev events : List (World ℕ × AppEvent)
events =
    (world, AppEvent.broadcast (order_body alice_order).body)
    ∷ (world, AppEvent.turn)
    ∷ (world, AppEvent.message my_id (order_body bob_order).body)
    ∷ (world, AppEvent.broadcast (order_body alice_order).body)
    ∷ (world, AppEvent.turn)
    ∷ (world, AppEvent.check_finished)
    ∷ []

live-Sound_example : Ensures (SoundApp test_sha) (live program events app)
live-Sound_example =
    live-Sound program events app
      (init-IsSound test_sha true settings (new_exchange-IsSound test_sha))

live-IsOnce_example : Ensures (IsOnce test_sha) (live program events app)
live-IsOnce_example = live-IsOnce program events app (record { sent_known = tt; apart = tt })

-- A message to an address that nobody has announced.
abbrev lost : Message
lost = record { to = alice_pays; body = (order_body alice_order).body; searched = false }

abbrev losing : XBridgeApp
losing = record app {
  node = record (node open_exchange) { messages = lost ∷ []; signal_send = true };
}

is_lost : IsLost program world lost losing
unfolding is_known_message known_hash bytes_eq lookup
is_lost = record {
  queued = refl;
  raised = refl;
  first = refl;
  new = refl;
  addressed = refl;
  remote = refl;
  not_found = refl;
}

-- A network that finds every search done at once, and then takes the message.
abbrev found : World ℕ
found = record world { send_message = λ to message. SendResult.sent; search_ends = λ id. true }

retry_resends_example :
    (c : XBridgeApp) × (live program ((world, AppEvent.turn) ∷ (found, AppEvent.turn) ∷ []) losing
      ≡ some c)
    × (c.node.messages ≡ [])
    × (c.network ≡ [] ++ given SendResult.sent (record lost { searched = true }))
retry_resends_example = retry_resends program world found lost losing is_lost refl refl

-- The announcement of Alice's other address.
abbrev announcement : Packet
announcement = append_bytes alice_pays (new_packet XBridgeCommand.xbc_announce_addresses 100)

announces : IsAnnouncement announcement.body announcement alice_pays
unfolding append_bytes new_packet copy_from field32 set_field32 slice command_code le_bytes le_value
announces = record { taken = refl; commanded = refl; sized = refl; announced = refl }

announce_captures_example :
    (b : XBridgeApp) × (on_broadcast_received program world announcement.body app ≡ some b)
    × (lookup alice_pays b.session_addrs ≡ some 1)
    × ((v : World ℕ) (k : Message)
        → k.to ≡ alice_pays
        → (send_to_address program v k b ≡ send_xbridge_message program v true 1 k.body b)
          × Ensures (IsQuiet b) (send_to_address program v k b))
announce_captures_example =
    announce_captures program world announcement.body announcement alice_pays announces app

announced_version : check_packet_version announcement ≡ true
unfolding check_packet_version append_bytes new_packet field32 set_field32 le_value le_bytes
announced_version = refl

alice_is_local : is_local_address my_id alice_gets app ≡ true
unfolding is_local_address contains bytes_eq
alice_is_local = refl

announce_locks_example : on_message_received program world alice_gets announcement.body app ≡ none
announce_locks_example =
    announce_locks program world announcement.body announcement alice_pays announces alice_gets app
      (omega arith) announced_version alice_is_local

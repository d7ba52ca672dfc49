-- ===== src/App/History/Dispatched.antt =====
-- A property of the program's state that every handler keeps is kept by whatever brings a packet to a session.
use xhubv.Prelude.{
  ℕ, Bool, true, false, not, none, some, Bytes, bytes_eq, length, lookup, Bytes-key, ltb,
  Option-cases, inl, inr,
}
use xhubv.Packet.{Packet, XBridgeCommand, command, copy_from}
use xhubv.Session.{check_packet_version}
use xhubv.Session.Updates.{Ensures, Ensures-bind, Ensures-bind_of, either}
use xhubv.Session.Client.Sound.{by_lookup}
use xhubv.App.Sessions.{XBridgeApp, Program, World, new_session}
use xhubv.App.Dispatch.{
  handler, processors, find_processor, process_packet, send_xbridge_message, on_read_body,
  on_message_received, on_broadcast_received,
}

module _ (g : Program) (P : XBridgeApp → Type 0) (w : World g.doubles.Double)
    (kept : (locked : Bool) (ptr : ℕ) (p : Packet) (c : XBridgeCommand) (a : XBridgeApp)
      → P a
      → Ensures (λ x. P x.0) (handler g w locked ptr p a c)) where
  abbrev Q : XBridgeApp × Bool → Type 0
  Q x = P x.0

  process_packet-keeps :
      (locked : Bool) (ptr : ℕ) (p : Packet) (a : XBridgeApp)
      → P a
      → Ensures Q (process_packet g w locked ptr p a)
  unfolding process_packet
  process_packet-keeps locked ptr p a h =
      by_lookup (Ensures Q) (find_processor (command p) processors) (some (a, false))
        (handler g w locked ptr p a) h (λ c. kept locked ptr p c a h)

  pub on_read_body-keeps :
      (ptr : ℕ) (p : Packet) (a : XBridgeApp) → P a → Ensures P (on_read_body g w ptr p a)
  unfolding on_read_body
  on_read_body-keeps ptr p a h =
      Ensures-bind_of Q P (process_packet g w false ptr p a) _
        (process_packet-keeps false ptr p a h) (λ x q. q)

  pub send_xbridge_message-keeps :
      (locked : Bool) (ptr : ℕ) (m : Bytes) (a : XBridgeApp)
      → P a
      → Ensures P (send_xbridge_message g w locked ptr m a)
  unfolding send_xbridge_message
  send_xbridge_message-keeps locked ptr m a h = Ensures-bind P (copy_from m) _ λ p.
      Ensures-bind_of Q P (process_packet g w locked ptr p a) _
        (process_packet-keeps locked ptr p a h) (λ x q. q)

  module _ (fresh : (a : XBridgeApp) → P a → P (new_session a).0) where
    pub on_broadcast_received-keeps :
        (m : Bytes) (a : XBridgeApp) → P a → Ensures P (on_broadcast_received g w m a)
    unfolding on_broadcast_received
    on_broadcast_received-keeps m a h = Ensures-bind P (copy_from m) _ λ p.
        Ensures-bind_of Q P (process_packet g w false (new_session a).1 p (new_session a).0) _
          (process_packet-keeps false (new_session a).1 p (new_session a).0 (fresh a h)) (λ x q. q)

    pub on_message_received-keeps :
        (id m : Bytes) (a : XBridgeApp) → P a → Ensures P (on_message_received g w id m a)
    unfolding on_message_received
    on_message_received-keeps id m a h = either (Ensures P) (ltb (length id) 20) none _ tt (
        Ensures-bind P (copy_from m) _ λ p.
          either (Ensures P) (not (check_packet_version p)) _ _ h
            (elim (Option-cases (lookup id a.session_addrs)) [
              | inl unknown ↦ rw unknown (
                  either (Ensures P) (bytes_eq id g.my_id) _ _
                    (Ensures-bind_of Q P
                      (process_packet g w true (new_session a).1 p (new_session a).0) _
                      (process_packet-keeps true (new_session a).1 p (new_session a).0 (fresh a h))
                      (λ x q. q))
                    h)
              | inr (ptr, found) ↦ rw found (
                  Ensures-bind_of Q P (process_packet g w true ptr p a) _
                    (process_packet-keeps true ptr p a h) (λ x q. q))
            ]))

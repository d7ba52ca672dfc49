-- ===== src/App/History/Announce.antt =====
-- Announcements of addresses, processAnnounceAddresses, by their way to a session.
use xhubv.Prelude.{
  ℕ, ◌≡◌, ◌≤◌, refl, ap, sym, subst, ◌∙◌, Bool, true, false, not, none, some, Bytes, bytes_eq,
  length, lookup, contains-eq_false, insert, Bytes-key, lookup-insert_self, ltb, arith, ◌>>=◌,
  when_false, when_some, Option-cases, inl, inr, ◌==◌,
}
use xhubv.Packet.{Packet, XBridgeCommand, command, size, data_at, copy_from, command_code}
use xhubv.Session.{Message, check_packet_version}
use xhubv.Session.Updates.{Ensures}
use xhubv.App.Sessions.{XBridgeApp, Program, World, new_session, storage_store, is_local_address}
use xhubv.App.Dispatch.{
  process_announce_addresses, processors, find_processor, handler, process_packet,
  on_message_received, on_broadcast_received, send_xbridge_message,
}
use xhubv.App.Loop.{send_to_address}
use xhubv.App.History.Quiet.{IsQuiet, deliver-IsQuiet}

-- A packet that announces `id`, and the bytes that it comes in.
pub record IsAnnouncement (m : Bytes) (p : Packet) (id : Bytes) : Type 0 where
  pub taken : copy_from m ≡ some p
  pub commanded : command p ≡ 1
  pub sized : size p ≡ 20
  pub announced : data_at 0 20 p ≡ some id

captured :
    (g : Program) (v : World g.doubles.Double) (k : Message) (b : XBridgeApp) (ptr : ℕ)
    → lookup k.to b.session_addrs ≡ some ptr
    → (send_to_address g v k b ≡ send_xbridge_message g v true ptr k.body b)
      × Ensures (IsQuiet b) (send_to_address g v k b)
unfolding send_to_address
captured g v k b ptr e =
    let handed = when_some (lookup k.to b.session_addrs) _ _ ptr e in
    (handed, subst (Ensures (IsQuiet b)) (sym handed) (deliver-IsQuiet g v b ptr k.body))

module _ (g : Program) (w : World g.doubles.Double) (m : Bytes) (p : Packet) (id : Bytes)
    (n : IsAnnouncement m p id) where
  found : find_processor (command p) processors ≡ some XBridgeCommand.xbc_announce_addresses
  unfolding find_processor processors command_code
  found = ap (λ c. find_processor c processors) n.commanded

  process_packet-announced :
      (locked : Bool) (ptr : ℕ) (a : XBridgeApp)
      → process_packet g w locked ptr p a ≡ (do a' ← storage_store locked ptr id a; some (a', true))
  unfolding process_packet process_announce_addresses
  process_packet-announced locked ptr a =
      when_some (find_processor (command p) processors) (some (a, false))
        (handler g w locked ptr p a) XBridgeCommand.xbc_announce_addresses found
      ∙ when_false (not (size p == 20)) _ _ (ap (λ s. not (s == 20)) n.sized)
      ∙ ap (λ o. do id' ← o; a' ← storage_store locked ptr id' a; some (a', true)) n.announced

  -- A broadcast that announces an address of 20 bytes puts this address on the session that was
  -- made for the broadcast alone. In the state that it leaves, sending any message to this
  -- address is to hand it to that session, and if this returns, the known messages and what the
  -- network has been given are as before.
  pub announce_captures :
      (a : XBridgeApp)
      → (b : XBridgeApp) × (on_broadcast_received g w m a ≡ some b)
        × (lookup id b.session_addrs ≡ some a.next_session)
        × ((v : World g.doubles.Double) (k : Message)
            → k.to ≡ id
            → (send_to_address g v k b ≡ send_xbridge_message g v true a.next_session k.body b)
              × Ensures (IsQuiet b) (send_to_address g v k b))
  unfolding on_broadcast_received new_session storage_store
  announce_captures a =
      let fresh = (new_session a).0 in
      let ran = process_packet-announced false a.next_session fresh in
      (
        _,
        ap (λ o. do q ← o; x ← process_packet g w false a.next_session q fresh; some x.0) n.taken
            ∙ ap (λ o. do x ← o; some x.0) ran,
        lookup-insert_self id a.next_session a.session_addrs,
        λ v k e. captured g v k _ a.next_session (
            ap (λ x. lookup x (insert id a.next_session a.session_addrs)) e
            ∙ lookup-insert_self id a.next_session a.session_addrs),
      )

  -- A message of the right version that announces an address and comes for a local address of at
  -- least 20 bytes never returns from onMessageReceived, which holds the lock that storageStore
  -- takes again.
  pub announce_locks :
      (to : Bytes) (a : XBridgeApp)
      → 20 ≤ length to
      → check_packet_version p ≡ true
      → is_local_address g.my_id to a ≡ true
      → on_message_received g w to m a ≡ none
  unfolding on_message_received new_session storage_store is_local_address
  announce_locks to a long versioned here =
      let fresh = (new_session a).0 in
      let short : ltb (length to) 20 ≡ false = ground arith in
      elim (Option-cases (lookup to a.session_addrs)) [
        | inl absent ↦
            let mine : bytes_eq to g.my_id ≡ true =
              ground (arith, contains-eq_false to a.session_addrs absent, here) in
            rw
              (
                short,
                n.taken,
                versioned,
                absent,
                mine,
                process_packet-announced true a.next_session fresh,
              )
              refl
        | inr (ptr, stored) ↦
            rw (short, n.taken, versioned, stored, process_packet-announced true ptr a) refl
      ]

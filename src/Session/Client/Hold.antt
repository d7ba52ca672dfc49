-- ===== src/Session/Client/Hold.antt =====
-- The hub's hold packet at the client whose order it names.
use xhubv.Prelude.{
  ℕ, ◌^◌, ◌<◌, ◌≡◌, refl, ap, ◌∙◌, List, [], ◌∷◌, ◌++◌, arith, true, false, none, some, Bytes,
  le_bytes, length-le_bytes, le_value-le_bytes, slice, concat, total, slice-concat, lookup, erase,
  insert, assign, ℕ-key, lookup-erase_self, lookup-insert_self, lookup-assign,
}
use xhubv.Packet.{Packet, XBridgeCommand, size, payload, data_at, new_packet, append_uint256}
use xhubv.Packet.Parts.{append_all, payload-built, size-built}
use xhubv.Session.{Node, Descr, DescrState, uint256_at, send_packet, send_packet_broadcast}
use xhubv.Session.Upkeep.{set_descr_state}
use xhubv.Session.Hub.{hold_packet}
use xhubv.Session.Client.{answer, hold_mine, process_transaction_hold}
use xhubv.Session.Client.Answers.{IsAnswer}

pub set_descr_state_found :
    (ptr : ℕ) (s : DescrState) (d : Descr) (n : Node)
    → lookup ptr n.heap ≡ some d
    → set_descr_state ptr s n ≡ record n { heap = assign ptr (record d { state = s }) n.heap }
unfolding set_descr_state
set_descr_state_found ptr s d n found = rw (set_descr_state, found) refl

-- The order `id` has become the trade `newid`, and the answer has gone out.
pub record IsHeld (hub me : Bytes) (id newid now ptr : ℕ) (d : Descr) (n m : Node) : Type 0 where
  pub gone : lookup id m.my_pending ≡ none
  pub mine : lookup newid m.my_transactions ≡ some ptr
  pub held : lookup ptr m.heap ≡ some (record d { state = DescrState.tr_hold })
  pub answered :
      m.messages
      ≡ n.messages
        ++ (record {
          to = [];
          body = (answer now XBridgeCommand.xbc_transaction_hold_apply hub me newid).body;
          searched = false;
        }
            ∷ [])

module _ (hub me : Bytes) (sent id newid : ℕ) (a : IsAnswer hub me newid)
    (small : id < 256 ^ 32) where
  abbrev p : Packet
  p = hold_packet hub sent me id newid

  abbrev parts : List Bytes
  parts = me ∷ hub ∷ le_bytes 32 id ∷ le_bytes 32 newid ∷ []

  hold-parts : p ≡ append_all parts (new_packet XBridgeCommand.xbc_transaction_hold sent)
  unfolding hold_packet append_uint256
  hold-parts = refl

  payload-hold : payload p ≡ concat parts
  payload-hold =
      ap payload hold-parts ∙ payload-built XBridgeCommand.xbc_transaction_hold sent parts

  total-parts : total parts ≡ 104
  total-parts =
      omega (arith, a.hub_address, a.my_address, length-le_bytes 32 id, length-le_bytes 32 newid)

  size-hold : size p ≡ 104
  size-hold =
      ap size hold-parts
      ∙ size-built XBridgeCommand.xbc_transaction_hold sent me
          (hub ∷ le_bytes 32 id ∷ le_bytes 32 newid ∷ []) (omega (arith, total-parts))
      ∙ total-parts

  part_me : data_at 0 20 p ≡ some me
  part_me =
      ap (slice 0 20) payload-hold
      ∙ slice-concat [] me (hub ∷ le_bytes 32 id ∷ le_bytes 32 newid ∷ []) 0 20 refl a.my_address

  part_hub : data_at 20 20 p ≡ some hub
  part_hub =
      ap (slice 20 20) payload-hold
      ∙ slice-concat (me ∷ []) hub (le_bytes 32 id ∷ le_bytes 32 newid ∷ []) 20 20
          (omega (arith, a.my_address)) a.hub_address

  part_id : uint256_at 40 p ≡ some id
  unfolding uint256_at
  part_id =
      rw
        (ap (slice 40 32) payload-hold
          ∙ slice-concat (me ∷ hub ∷ []) (le_bytes 32 id) (le_bytes 32 newid ∷ []) 40 32
              (omega (arith, a.hub_address, a.my_address)) (length-le_bytes 32 id))
        (ap some (le_value-le_bytes 32 id small))

  part_newid : uint256_at 72 p ≡ some newid
  unfolding uint256_at
  part_newid =
      rw
        (ap (slice 72 32) payload-hold
          ∙ slice-concat (me ∷ hub ∷ le_bytes 32 id ∷ []) (le_bytes 32 newid) [] 72 32
              (omega (arith, a.hub_address, a.my_address, length-le_bytes 32 id))
              (length-le_bytes 32 newid))
        (ap some (le_value-le_bytes 32 newid a.trade))

  hold_mine-IsHeld :
      (now ptr : ℕ) (d : Descr) (n : Node)
      → lookup ptr n.heap ≡ some d
      → IsHeld hub me id newid now ptr d n (hold_mine now hub me id newid ptr n)
  unfolding hold_mine send_packet_broadcast send_packet
  hold_mine-IsHeld now ptr d n own =
      rw
        (set_descr_state_found ptr DescrState.tr_hold d
          (record n {
            my_pending = erase id n.my_pending;
            my_transactions = insert newid ptr n.my_transactions;
          })
          own)
        (record {
          gone = lookup-erase_self id n.my_pending;
          mine = lookup-insert_self newid ptr n.my_transactions;
          held =
              ground
                (arith, lookup-assign ptr ptr (record d { state = DescrState.tr_hold }) n.heap);
          answered = refl;
        })

  -- A client that receives the hub's hold packet for an order of its own moves the order from
  -- the pending ones to the trades under the new id, marks it as held, and queues, behind its
  -- other messages, the broadcast of an answer that names the hub, itself and the trade. The
  -- addresses have 20 bytes and the two ids fit 32.
  pub process_transaction_hold-answers :
      (now ptr : ℕ) (d : Descr) (n : Node)
      → lookup id n.my_pending ≡ some ptr
      → lookup ptr n.heap ≡ some d
      → (m : Node) × (process_transaction_hold now (hold_packet hub sent me id newid) n
          ≡ some (m, true))
        × IsHeld hub me id newid now ptr d n m
  unfolding process_transaction_hold
  process_transaction_hold-answers now ptr d n waiting own =
      rw (size-hold, part_me, part_hub, part_id, part_newid, waiting)
        (_, refl, hold_mine-IsHeld now ptr d n own)

-- ===== src/Session/Client/Protocol.antt =====
-- The whole exchange of answers at the hub, packet by packet, against increaseStateCounter.
use xhubv.Prelude.{
  ℕ, ◌+◌, ◌^◌, ◌<◌, ◌≤◌, ◌≡◌, sym, ap, subst, ◌∙◌, arith, Bool, true, ◌&&◌, Option, some, Bytes,
  IsText, length, lookup, ℕ-key, ltb,
}
use xhubv.Packet.{XBridgeCommand}
use xhubv.Transaction.{State, Transaction, increase_state_counter, update_timestamp}
use xhubv.Transaction.Phases.{Phase, joining, holding, initializing, creating, signing, commiting}
use xhubv.Transaction.Currencies.{FitsFields}
use xhubv.Transaction.Core.{core, increase-core, IsOpen}
use xhubv.Exchange.{is_enabled}
use xhubv.Exchange.Counted.{
  Counts, update_when_created-Counts, update_when_signed-Counts, update_when_commited-Counts,
}
use xhubv.Session.{Node}
use xhubv.Session.Hub.{process_transaction_hold_apply, process_transaction_initialized}
use xhubv.Session.Settle.{
  process_transaction_created, process_transaction_signed, process_transaction_commited,
  process_transaction_confirmed,
}
use xhubv.Session.Updates.{Yields}
use xhubv.Session.Client.{answer}
use xhubv.Session.Client.Answers.{IsAnswer}
use xhubv.Session.Client.Carried.{created_answer, signed_answer, commited_answer}
use xhubv.Session.Client.Heard.{handlers_hear}
use xhubv.Session.Client.Payments.{created-Stored, signed-Stored, commited-Stored}

-- What a client says to the hub in a phase: its address, when it sends and when the hub receives, and the
-- payment, the refund and the hash, which go into the answers that have a field for them.
pub record Say : Type 0 where
  pub from : Bytes
  pub sent : ℕ
  pub now : ℕ
  pub pay : Bytes
  pub rev : Bytes
  pub tx_hash : ℕ

-- The words fit the fields of an answer.
pub record Fits (hub : Bytes) (id : ℕ) (s : Say) : Type 0 where
  pub words : IsAnswer hub s.from id
  pub pay_text : IsText s.pay
  pub rev_text : IsText s.rev
  pub short : length s.pay + length s.rev < 2 ^ 31
  pub hash_fits : s.tx_hash < 256 ^ 32

-- The hub holds a trade that is `u` but for its time, payments and hashes.
pub record Serves (id : ℕ) (u : Transaction) (n : Node) : Type 0 where
  pub trade : Transaction
  pub stands : lookup id n.exchange.transactions ≡ some trade
  pub alike : core trade ≡ u
  pub on : is_enabled n.exchange ≡ true

-- What stays true of the trade throughout.
pub record IsSteady (u : Transaction) : Type 0 where
  pub fits : FitsFields u
  pub open' : IsOpen u

module _ (hub : Bytes) (id : ℕ) where
  -- The hub's handler of the answer that belongs to a phase, on that answer.
  unfoldable pub hear_answer :
      {s n : State} {src : Bool} → Phase s n src → Say → Node → Option (Node × Bool)
  hear_answer joining s n =
      process_transaction_hold_apply hub s.now
        (answer s.sent XBridgeCommand.xbc_transaction_hold_apply hub s.from id) n
  hear_answer holding s n =
      process_transaction_initialized hub s.now
        (answer s.sent XBridgeCommand.xbc_transaction_initialized hub s.from id) n
  hear_answer initializing s n =
      process_transaction_created hub s.now (created_answer s.sent hub s.from id s.pay s.rev) n
  hear_answer creating s n =
      process_transaction_signed hub s.now (signed_answer s.sent hub s.from id s.rev) n
  hear_answer signing s n =
      process_transaction_commited hub s.now (commited_answer s.sent hub s.from id s.tx_hash) n
  hear_answer commiting s n =
      process_transaction_confirmed hub s.now
        (answer s.sent XBridgeCommand.xbc_transaction_confirmed hub s.from id) n

  enabled-kept :
      (n m : Node)
      → m.exchange.wallets ≡ n.exchange.wallets
      → is_enabled n.exchange ≡ true
      → is_enabled m.exchange ≡ true
  unfolding is_enabled
  enabled-kept n m e on = ap (λ ws. ltb 0 (length ws)) e ∙ on

  -- A handler that stores a counted trade and keeps the wallets serves the counted trade.
  Serves-Counts :
      (s : State) (from : Bytes) (u : Transaction) (now : ℕ) (n : Node) (v : Serves id u n)
      (w : Transaction) (r : Option (Node × Bool))
      → Counts s from (update_timestamp now v.trade) w
      → Yields
          (λ x.
            (lookup id x.0.exchange.transactions ≡ some w)
            × (x.0.exchange.wallets ≡ n.exchange.wallets))
          r
      → Yields (λ x. Serves id (increase_state_counter s from u).0 x.0) r
  unfolding update_timestamp
  Serves-Counts s from u now n v w r c (x, e, (stands, kept)) = (
    x,
    e,
    record {
      trade = w;
      stands = stands;
      alike = c ∙ ap (λ z. (increase_state_counter s from z).0) v.alike;
      on = enabled-kept n x.0 kept v.on;
    },
  )

  alike-FitsFields : (u t : Transaction) → core t ≡ u → FitsFields u → FitsFields t
  alike-FitsFields u t e f = record {
    source = subst (λ c. length c ≤ 8) (sym (ap (λ z. z.source_currency) e)) f.source;
    dest = subst (λ c. length c ≤ 8) (sym (ap (λ z. z.dest_currency) e)) f.dest;
  }

  timestamp-IsOpen :
      (now : ℕ) (u t : Transaction) → core t ≡ u → IsOpen u → IsOpen (update_timestamp now t)
  unfolding update_timestamp
  timestamp-IsOpen now u t e o = ap (λ z. z.first_changed && z.second_changed) e ∙ o

  pub hear_answer-Serves :
      {s n : State} {src : Bool} (p : Phase s n src) (say : Say) (u : Transaction) (node : Node)
      → Fits hub id say
      → IsSteady u
      → Serves id u node
      → Yields (λ x. Serves id (increase_state_counter s say.from u).0 x.0) (hear_answer p say node)
  unfolding hear_answer
  hear_answer-Serves joining say u node f k v =
      Serves-Counts State.tr_joined say.from u say.now node v _ _
        (increase-core State.tr_joined say.from (update_timestamp say.now v.trade))
        ((handlers_hear hub say.from say.sent say.now id XBridgeCommand.xbc_transaction_hold_apply
          v.trade node f.words v.stands (alike-FitsFields u v.trade v.alike k.fits) v.on).0)
  hear_answer-Serves holding say u node f k v =
      Serves-Counts State.tr_hold say.from u say.now node v _ _
        (increase-core State.tr_hold say.from (update_timestamp say.now v.trade))
        ((handlers_hear hub say.from say.sent say.now id XBridgeCommand.xbc_transaction_initialized
          v.trade node f.words v.stands (alike-FitsFields u v.trade v.alike k.fits) v.on).1)
  hear_answer-Serves initializing say u node f k v =
      Serves-Counts State.tr_initialized say.from u say.now node v _ _
        (update_when_created-Counts say.from (update_timestamp say.now v.trade)
          (timestamp-IsOpen say.now u v.trade v.alike k.open') say.pay say.rev)
        (created-Stored hub say.from say.sent say.now id v.trade node f.words v.stands v.on say.pay
          say.rev f.pay_text f.rev_text f.short)
  hear_answer-Serves creating say u node f k v =
      Serves-Counts State.tr_created say.from u say.now node v _ _
        (update_when_signed-Counts say.from (update_timestamp say.now v.trade)
          (timestamp-IsOpen say.now u v.trade v.alike k.open') say.rev)
        (signed-Stored hub say.from say.sent say.now id v.trade node f.words v.stands v.on say.rev
          f.rev_text (omega (arith, f.short)))
  hear_answer-Serves signing say u node f k v =
      Serves-Counts State.tr_signed say.from u say.now node v _ _
        (update_when_commited-Counts say.from (update_timestamp say.now v.trade)
          (timestamp-IsOpen say.now u v.trade v.alike k.open') say.tx_hash node.exchange)
        (commited-Stored hub say.from say.sent say.now id v.trade node f.words v.stands v.on
          say.tx_hash f.hash_fits)
  hear_answer-Serves commiting say u node f k v =
      Serves-Counts State.tr_commited say.from u say.now node v _ _
        (increase-core State.tr_commited say.from (update_timestamp say.now v.trade))
        ((handlers_hear hub say.from say.sent say.now id XBridgeCommand.xbc_transaction_confirmed
          v.trade node f.words v.stands (alike-FitsFields u v.trade v.alike k.fits) v.on).2)

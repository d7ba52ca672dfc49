-- ===== src/Session/Client/Round.antt =====
-- A whole round of answers at the hub: the clients' hold apply packets, in any order and number.
use xhubv.Prelude.{
  ℕ, ◌≡◌, ◌≢◌, refl, ap, subst, ◌∙◌, List, [], ◌∷◌, Bool, true, All, Option, some, Bytes, length,
  lookup, ℕ-key, ltb, ◌>>=◌,
}
use xhubv.Packet.{XBridgeCommand}
use xhubv.Transaction.{State, Transaction, increase_state_counter, update_timestamp}
use xhubv.Transaction.Phases.{joining, hear}
use xhubv.Transaction.Protocol.{IsFresh, HeardBoth, after_phase, hear_both}
use xhubv.Transaction.Currencies.{FitsFields, increase-FitsFields, increase-created}
use xhubv.Exchange.{is_enabled}
use xhubv.Session.{Node}
use xhubv.Session.Hub.{process_transaction_hold_apply}
use xhubv.Session.Updates.{Yields}
use xhubv.Session.Client.{answer}
use xhubv.Session.Client.Answers.{IsAnswer}
use xhubv.Session.Client.Heard.{Heard, handlers_hear}

-- The trade `t` but for the time of its last message.
abbrev at_time : Option ℕ → Transaction → Transaction
at_time c t = record t { created = c }

hear-at_time :
    (s : State) (froms : List Bytes) (t : Transaction) (c : Option ℕ)
    → hear s froms (at_time c t) ≡ at_time c (hear s froms t)
unfolding hear
hear-at_time s [] t c = refl
hear-at_time s (from ∷ froms) t c =
    ap (hear s froms) (increase-created s from t c)
    ∙ hear-at_time s froms (increase_state_counter s from t).0 c

-- A hub that holds the trade `t` under `id`.
pub record Holds (id : ℕ) (t : Transaction) (n : Node) : Type 0 where
  pub stands : lookup id n.exchange.transactions ≡ some t
  pub on : is_enabled n.exchange ≡ true

module _ (my_id : Bytes) (sent now id : ℕ) where
  -- The answers of the senders, one after the other.
  unfoldable pub take_answers : List Bytes → Node → Option Node
  take_answers [] n = some n
  take_answers (from ∷ froms) n = do
    (m, done) ←
        process_transaction_hold_apply my_id now
          (answer sent XBridgeCommand.xbc_transaction_hold_apply my_id from id) n
    take_answers froms m

  stamped :
      (from : Bytes) (t : Transaction)
      → (increase_state_counter State.tr_joined from (update_timestamp now t)).0
        ≡ at_time (some now) (increase_state_counter State.tr_joined from t).0
  unfolding update_timestamp
  stamped from t = increase-created State.tr_joined from t (some now)

  stamped_fits :
      (from : Bytes) (t : Transaction)
      → FitsFields t
      → FitsFields (increase_state_counter State.tr_joined from (update_timestamp now t)).0
  unfolding update_timestamp
  stamped_fits from t fits =
      increase-FitsFields State.tr_joined from (update_timestamp now t)
        (record { source = fits.source; dest = fits.dest })

  increase-Holds :
      (from : Bytes) (t : Transaction) (n : Node) (r : Node × Bool)
      → is_enabled n.exchange ≡ true
      → Heard State.tr_joined now from id t n r
      → Holds id (increase_state_counter State.tr_joined from (update_timestamp now t)).0 r.0
  unfolding is_enabled
  increase-Holds from t n r on heard = record {
    stands = heard.0;
    on = ap (λ ws. ltb 0 (length ws)) heard.1 ∙ on;
  }

  hold_apply-Heard :
      (from : Bytes) (t : Transaction) (n : Node)
      → IsAnswer my_id from id
      → Holds id t n
      → FitsFields t
      → Yields (Heard State.tr_joined now from id t n) (
          process_transaction_hold_apply my_id now
            (answer sent XBridgeCommand.xbc_transaction_hold_apply my_id from id)
            n)
  hold_apply-Heard from t n a h fits =
      (handlers_hear my_id from sent now id XBridgeCommand.xbc_transaction_hold_apply t n a h.stands
        fits h.on).0

  same_trade :
      (froms : List Bytes) (from : Bytes) (t : Transaction) (c : Option ℕ)
      → at_time c (
          hear State.tr_joined froms
            (increase_state_counter State.tr_joined from (update_timestamp now t)).0)
        ≡ at_time c (hear State.tr_joined froms (increase_state_counter State.tr_joined from t).0)
  same_trade froms from t c =
      ap (λ x. at_time c (hear State.tr_joined froms x)) (stamped from t)
      ∙ ap (at_time c) (
          hear-at_time State.tr_joined froms (increase_state_counter State.tr_joined from t).0
            (some now))

  take_answers-hear :
      (froms : List Bytes) (n : Node) (t : Transaction)
      → All (λ from. IsAnswer my_id from id) froms
      → Holds id t n
      → FitsFields t
      → (m : Node) × (take_answers froms n ≡ some m)
        × ((c : Option ℕ) × Holds id (at_time c (hear State.tr_joined froms t)) m)
  unfolding take_answers hear
  take_answers-hear [] n t a h fits = (n, refl, (t.created, h))
  take_answers-hear (from ∷ froms) n t a h fits =
      let step = hold_apply-Heard from t n a.0 h fits in
      let rest =
        take_answers-hear froms step.0.0
          (increase_state_counter State.tr_joined from (update_timestamp now t)).0 a.1
          (increase-Holds from t n step.0 h.on step.2) (stamped_fits from t fits) in
      (
        rest.0,
        ap (λ o. o >>= λ x. take_answers froms x.0) step.1 ∙ rest.1,
        (rest.2.0, subst (λ u. Holds id u rest.0) (same_trade froms from t rest.2.0) rest.2.1),
      )

  -- A hub that holds a joined trade of two clients with different source addresses, neither of
  -- which has been heard, and that receives their hold apply answers in any order and number,
  -- also from other senders, each with addresses of 20 bytes and as long as both clients are
  -- among the senders, stays inside every packet and ends with the trade in the state hold with
  -- its flags cleared; nothing else of the trade has changed but its time. The exchange is
  -- enabled, and is so afterwards; the currencies have at most eight bytes and the id fits 32.
  pub hold_round :
      (froms : List Bytes) (n : Node) (t : Transaction)
      → IsFresh State.tr_joined t
      → t.first.source ≢ t.second.source
      → HeardBoth true t froms
      → All (λ from. IsAnswer my_id from id) froms
      → Holds id t n
      → FitsFields t
      → (m : Node) × (take_answers froms n ≡ some m)
        × ((c : Option ℕ) × Holds id (record (after_phase State.tr_hold t) { created = c }) m)
  hold_round froms n t fresh d both a h fits =
      let r = take_answers-hear froms n t a h fits in
      (
        r.0,
        r.1,
        (
          r.2.0,
          subst (λ u. Holds id (at_time r.2.0 u) r.0) (hear_both joining froms t fresh d both)
              r.2.1,
        ),
      )

-- ===== src/Transaction/Protocol.antt =====
-- The whole exchange of increaseStateCounter, from a joined trade to a finished one, and the trade
-- of a client with itself, which cannot leave its phase.
use xhubv.Prelude.{◌≡◌, refl, sym, ap, ◌∙◌, ◌≢◌, arith, Bool, true, false, List, [], ◌∷◌, Bytes}
use xhubv.Transaction.{State, Transaction, count_party, increase_state_counter}
use xhubv.Transaction.Phases.{
  Phase, joining, holding, initializing, creating, signing, commiting, party, first_party,
  second_party, hear, heard, hear-settled, settled-true, increase-Phase,
}

-- Both parties of the phase are among the senders.
abbrev pub HeardBoth : Bool → Transaction → List Bytes → Type 0
HeardBoth src t froms =
    (heard (first_party src t) froms ≡ true) × (heard (second_party src t) froms ≡ true)

abbrev pub after_phase : State → Transaction → Transaction
after_phase n t = record t { state = n; first_changed = false; second_changed = false }

-- A waiting trade: nobody has confirmed yet.
abbrev pub IsFresh : State → Transaction → Type 0
IsFresh s t = (t.state ≡ s) × (t.first_changed ≡ false) × (t.second_changed ≡ false)

pub hear_both :
    {s n : State} {src : Bool} (p : Phase s n src) (froms : List Bytes) (t : Transaction)
    → IsFresh s t
    → first_party src t ≢ second_party src t
    → HeardBoth src t froms
    → hear s froms t ≡ after_phase n t
hear_both {n} {src} p froms t fresh d h =
    hear-settled p froms t fresh.0 (ground arith) d ∙ settled-true n _ _ t (ground arith)

-- The senders of the six phases, in the order of the protocol.
pub record Rounds : Type 0 where
  pub hold_applied : List Bytes
  pub initialized : List Bytes
  pub created : List Bytes
  pub signed : List Bytes
  pub commited : List Bytes
  pub confirmed : List Bytes

unfoldable pub run_rounds : Rounds → Transaction → Transaction
run_rounds r t = hear State.tr_commited r.confirmed (
    hear State.tr_signed r.commited (
      hear State.tr_created r.signed (
        hear State.tr_initialized r.created
          (hear State.tr_hold r.initialized (hear State.tr_joined r.hold_applied t)))))

-- Every round reaches both of its parties.
pub record IsComplete (t : Transaction) (r : Rounds) : Type 0 where
  pub hold_applied : HeardBoth true t r.hold_applied
  pub initialized : HeardBoth false t r.initialized
  pub created : HeardBoth true t r.created
  pub signed : HeardBoth false t r.signed
  pub commited : HeardBoth true t r.commited
  pub confirmed : HeardBoth false t r.confirmed

-- A joined trade of two clients whose source addresses differ and whose destination addresses
-- differ, with neither flag set, is finished after six rounds of messages (hold applied,
-- initialized, created, signed, commited, confirmed), whatever the order, the repetitions and
-- the strangers in each round, as long as both parties of the round are among its senders;
-- nothing but the state has changed then.
pub run_rounds_finishes :
    (r : Rounds) (t : Transaction)
    → IsFresh State.tr_joined t
    → t.first.source ≢ t.second.source
    → t.first.dest ≢ t.second.dest
    → IsComplete t r
    → run_rounds r t ≡ after_phase State.tr_finished t
unfolding run_rounds
run_rounds_finishes r t fresh ds dd c =
    ap
      (λ u. hear State.tr_commited r.confirmed (
        hear State.tr_signed r.commited (
          hear State.tr_created r.signed
            (hear State.tr_initialized r.created (hear State.tr_hold r.initialized u)))))
      (hear_both joining r.hold_applied t fresh ds c.hold_applied)
    ∙ ap
        (λ u. hear State.tr_commited r.confirmed (
          hear State.tr_signed r.commited
            (hear State.tr_created r.signed (hear State.tr_initialized r.created u))))
        (hear_both holding r.initialized (after_phase State.tr_hold t) (refl, refl, refl) dd
          c.initialized)
    ∙ ap
        (λ u.
          hear State.tr_commited r.confirmed
            (hear State.tr_signed r.commited (hear State.tr_created r.signed u)))
        (hear_both initializing r.created (after_phase State.tr_initialized t) (refl, refl, refl) ds
          c.created)
    ∙ ap (λ u. hear State.tr_commited r.confirmed (hear State.tr_signed r.commited u))
        (hear_both creating r.signed (after_phase State.tr_created t) (refl, refl, refl) dd
          c.signed)
    ∙ ap (hear State.tr_commited r.confirmed) (
        hear_both signing r.commited (after_phase State.tr_signed t) (refl, refl, refl) ds
          c.commited)
    ∙ hear_both commiting r.confirmed (after_phase State.tr_commited t) (refl, refl, refl) dd
        c.confirmed

-- One message in a phase whose two parties have one address.
count_self :
    (n : State) (from a : Bytes) (t : Transaction)
    → t.second_changed ≡ false
    → let u = count_party n from a a t in
      (u.state ≡ t.state) × (u.second_changed ≡ false) × (u.first ≡ t.first) × (u.second ≡ t.second)
unfolding count_party
count_self n from a t h = ground arith

-- In a phase whose two parties have the same address, no list of messages takes the trade out of
-- its state, from any trade whose second flag is not set.
pub hear-self_trade :
    {s n : State} {src : Bool} (p : Phase s n src) (froms : List Bytes) (t : Transaction)
    → t.state ≡ s
    → t.second_changed ≡ false
    → first_party src t ≡ second_party src t
    → (hear s froms t).state ≡ s
unfolding hear
hear-self_trade p [] t e h same = e
hear-self_trade {s} {n} {src} p (from ∷ froms) t e h same =
    hear-self_trade p froms (increase_state_counter s from t).0 (step.0 ∙ e) step.1
      (ap (party src) step.2 ∙ same ∙ sym (ap (party src) step.3))
  where
    Kept : Transaction → Type 0
    Kept u =
        (u.state ≡ t.state)
        × (u.second_changed ≡ false)
        × (u.first ≡ t.first)
        × (u.second ≡ t.second)

    step : Kept (increase_state_counter s from t).0
    step = rw (increase-Phase p from t e, ← same) (count_self n from (first_party src t) t h)

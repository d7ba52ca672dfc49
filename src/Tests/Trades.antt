-- ===== src/Tests/Trades.antt =====
-- The theorems on the phases of a trade, applied to the trade between Alice and Bob.
use xhubv.Prelude.{◌≡◌, refl, List, [], ◌∷◌, false, ◌||◌, Bytes, bytes_eq}
use xhubv.Transaction.{State, Transaction, new_transaction}
use xhubv.Transaction.Phases.{joining, hear, heard, settled, hear-settled}
use xhubv.Transaction.Protocol.{
  Rounds, run_rounds, IsComplete, after_phase, run_rounds_finishes, hear-self_trade,
}
use xhubv.Tests.{
  trade, alice_pays, alice_gets, bob_pays, bob_gets, my_id, sources_differ, dests_differ,
}

-- Bob, a stranger, Bob again and Alice.
abbrev senders : List Bytes
senders = bob_pays ∷ my_id ∷ bob_pays ∷ alice_pays ∷ []

hear-settled_example :
    hear State.tr_joined senders trade
    ≡ settled State.tr_hold
        (false || heard alice_pays senders)
        (false || heard bob_pays senders)
        trade
unfolding new_transaction
hear-settled_example = hear-settled joining senders trade refl refl sources_differ

-- Bob answers first in every other phase.
abbrev rounds : Rounds
rounds = record {
  hold_applied = senders;
  initialized = alice_gets ∷ bob_gets ∷ [];
  created = bob_pays ∷ alice_pays ∷ [];
  signed = alice_gets ∷ bob_gets ∷ bob_gets ∷ [];
  commited = bob_pays ∷ alice_pays ∷ [];
  confirmed = alice_gets ∷ my_id ∷ bob_gets ∷ [];
}

rounds-IsComplete : IsComplete trade rounds
unfolding heard bytes_eq new_transaction
rounds-IsComplete = record {
  hold_applied = (refl, refl);
  initialized = (refl, refl);
  created = (refl, refl);
  signed = (refl, refl);
  commited = (refl, refl);
  confirmed = (refl, refl);
}

run_rounds_finishes_example : run_rounds rounds trade ≡ after_phase State.tr_finished trade
unfolding new_transaction
run_rounds_finishes_example =
    run_rounds_finishes rounds trade (refl, refl, refl) sources_differ dests_differ
      rounds-IsComplete

-- Alice on both sides.
abbrev self_trade : Transaction
self_trade = record trade { second = record { id = 13; source = alice_pays; dest = alice_gets } }

hear-self_trade_example :
    (hear State.tr_joined (alice_pays ∷ alice_pays ∷ []) self_trade).state ≡ State.tr_joined
unfolding new_transaction
hear-self_trade_example =
    hear-self_trade joining (alice_pays ∷ alice_pays ∷ []) self_trade refl refl refl

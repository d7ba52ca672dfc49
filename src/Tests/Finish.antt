-- ===== src/Tests/Finish.antt =====
-- The six rounds of packets between Alice, Bob and the hub.
use xhubv.Prelude.{refl, arith, [], ◌∷◌, bytes_eq, Bytes}
use xhubv.Transaction.{State, new_transaction}
use xhubv.Transaction.Phases.{heard}
use xhubv.Transaction.Protocol.{IsComplete, after_phase}
use xhubv.Transaction.Core.{core}
use xhubv.Session.Updates.{Yields}
use xhubv.Session.Client.Answers.{IsAnswer}
use xhubv.Session.Client.Protocol.{Say, Fits, Serves}
use xhubv.Session.Client.Finish.{
  Talk, TalkFits, talk_speakers, speakers, hear_talk, hear_talk_finishes,
}
use xhubv.Tests.{
  trade, trade_id, one_trade, node, my_id, alice_pays, alice_gets, bob_pays, bob_gets,
  sources_differ, dests_differ,
}
use xhubv.Tests.Answers.{trade_stands, trade_on, trade-FitsFields, trade-IsFresh}

abbrev says : Bytes → Say
says from = record {
  from = from;
  sent = 110;
  now = 130;
  pay = 49 ∷ [];
  rev = 50 ∷ [];
  tx_hash = 21;
}

-- Bob speaks twice in the first round, and first in every other; the hub's own address is a stranger.
abbrev talk : Talk
talk = record {
  hold_applied = says bob_pays ∷ says my_id ∷ says bob_pays ∷ says alice_pays ∷ [];
  initialized = says bob_gets ∷ says alice_gets ∷ [];
  created = says bob_pays ∷ says alice_gets ∷ says alice_pays ∷ [];
  signed = says bob_gets ∷ says alice_gets ∷ [];
  commited = says bob_pays ∷ says alice_pays ∷ [];
  confirmed = says bob_gets ∷ says alice_gets ∷ [];
}

talk-IsComplete : IsComplete trade (talk_speakers talk)
unfolding heard bytes_eq new_transaction speakers
talk-IsComplete = record {
  hold_applied = (refl, refl);
  initialized = (refl, refl);
  created = (refl, refl);
  signed = (refl, refl);
  commited = (refl, refl);
  confirmed = (refl, refl);
}

says-Fits : (from : Bytes) → IsAnswer my_id from trade_id → Fits my_id trade_id (says from)
says-Fits from a = record {
  words = a;
  pay_text = (omega arith, tt);
  rev_text = (omega arith, tt);
  short = omega arith;
  hash_fits = omega arith;
}

alice_pays-Fits : Fits my_id trade_id (says alice_pays)
alice_pays-Fits =
    says-Fits alice_pays (record { hub_address = refl; my_address = refl; trade = omega arith })

alice_gets-Fits : Fits my_id trade_id (says alice_gets)
alice_gets-Fits =
    says-Fits alice_gets (record { hub_address = refl; my_address = refl; trade = omega arith })

bob_pays-Fits : Fits my_id trade_id (says bob_pays)
bob_pays-Fits =
    says-Fits bob_pays (record { hub_address = refl; my_address = refl; trade = omega arith })

bob_gets-Fits : Fits my_id trade_id (says bob_gets)
bob_gets-Fits =
    says-Fits bob_gets (record { hub_address = refl; my_address = refl; trade = omega arith })

hub-Fits : Fits my_id trade_id (says my_id)
hub-Fits = says-Fits my_id (record { hub_address = refl; my_address = refl; trade = omega arith })

talk-Fits : TalkFits my_id trade_id talk
talk-Fits = record {
  hold_applied = (bob_pays-Fits, (hub-Fits, (bob_pays-Fits, (alice_pays-Fits, tt))));
  initialized = (bob_gets-Fits, (alice_gets-Fits, tt));
  created = (bob_pays-Fits, (alice_gets-Fits, (alice_pays-Fits, tt)));
  signed = (bob_gets-Fits, (alice_gets-Fits, tt));
  commited = (bob_pays-Fits, (alice_pays-Fits, tt));
  confirmed = (bob_gets-Fits, (alice_gets-Fits, tt));
}

hear_talk_finishes_example :
    Yields
      (Serves trade_id (core (after_phase State.tr_finished trade)))
      (hear_talk my_id trade_id talk (node one_trade))
unfolding new_transaction
hear_talk_finishes_example =
    hear_talk_finishes my_id trade_id talk trade (node one_trade) trade-IsFresh sources_differ
      dests_differ talk-IsComplete talk-Fits trade-FitsFields
      (record { stands = trade_stands; on = trade_on })

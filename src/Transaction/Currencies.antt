-- ===== src/Transaction/Currencies.antt =====
-- The currencies of a trade, which increaseStateCounter leaves alone.
use xhubv.Prelude.{ℕ, ◌≤◌, ◌≡◌, refl, arith, Option, Bytes, length, Bool-cases, inl, inr}
use xhubv.Transaction.{State, Transaction, ◌=s◌, count_party, advance, increase_state_counter}

-- A trade whose currencies fit the eight bytes of their fields.
pub record FitsFields (t : Transaction) : Type 0 where
  pub source : length t.source_currency ≤ 8
  pub dest : length t.dest_currency ≤ 8

count_party-FitsFields :
    (n : State) (from x y : Bytes) (t : Transaction)
    → FitsFields t
    → FitsFields (count_party n from x y t)
unfolding count_party
count_party-FitsFields n from x y t f = ground arith

advance-FitsFields :
    (s : State) (from : Bytes) (t : Transaction) → FitsFields t → FitsFields (advance s from t).0
unfolding advance
advance-FitsFields State.tr_joined from t f = count_party-FitsFields State.tr_hold from _ _ t f
advance-FitsFields State.tr_hold from t f = count_party-FitsFields State.tr_initialized from _ _ t f
advance-FitsFields State.tr_initialized from t f =
    count_party-FitsFields State.tr_created from _ _ t f
advance-FitsFields State.tr_created from t f = count_party-FitsFields State.tr_signed from _ _ t f
advance-FitsFields State.tr_signed from t f = count_party-FitsFields State.tr_commited from _ _ t f
advance-FitsFields State.tr_commited from t f =
    count_party-FitsFields State.tr_finished from _ _ t f
advance-FitsFields _ from t f = f

pub increase-FitsFields :
    (s : State) (from : Bytes) (t : Transaction)
    → FitsFields t
    → FitsFields (increase_state_counter s from t).0
unfolding increase_state_counter
increase-FitsFields s from t f = elim (Bool-cases (s =s t.state)) [
  | inl same ↦ rw same (advance-FitsFields s from t f)
  | inr other ↦ rw other f
]

-- The time of the last message plays no part in the counter.
count_party-created :
    (n : State) (from x y : Bytes) (t : Transaction) (c : Option ℕ)
    → count_party n from x y (record t { created = c })
      ≡ record (count_party n from x y t) { created = c }
unfolding count_party
count_party-created n from x y t c = ground arith

advance-created :
    (s : State) (from : Bytes) (t : Transaction) (c : Option ℕ)
    → (advance s from (record t { created = c })).0 ≡ record (advance s from t).0 { created = c }
unfolding advance
advance-created State.tr_joined from t c = count_party-created State.tr_hold from _ _ t c
advance-created State.tr_hold from t c = count_party-created State.tr_initialized from _ _ t c
advance-created State.tr_initialized from t c = count_party-created State.tr_created from _ _ t c
advance-created State.tr_created from t c = count_party-created State.tr_signed from _ _ t c
advance-created State.tr_signed from t c = count_party-created State.tr_commited from _ _ t c
advance-created State.tr_commited from t c = count_party-created State.tr_finished from _ _ t c
advance-created _ from t c = refl

pub increase-created :
    (s : State) (from : Bytes) (t : Transaction) (c : Option ℕ)
    → (increase_state_counter s from (record t { created = c })).0
      ≡ record (increase_state_counter s from t).0 { created = c }
unfolding increase_state_counter
increase-created s from t c = elim (Bool-cases (s =s t.state)) [
  | inl same ↦ rw same (advance-created s from t c)
  | inr other ↦ rw other refl
]

-- ===== src/Transaction/Core.antt =====
-- A trade without its time, payments and hashes, which play no part in increaseStateCounter.
use xhubv.Prelude.{
  ℕ, ◌≡◌, refl, sym, ap, ◌∙◌, arith, true, false, ◌&&◌, none, [], Bytes, bytes_eq, bytes_eq_iff,
  Bool-cases, inl, inr, ==_iff, ◌==◌, if◌then◌else◌,
}
use xhubv.Transaction.{
  State, Transaction, state_code, ◌=s◌, count_party, advance, increase_state_counter,
}

abbrev pub core : Transaction → Transaction
core t = record t {
  created = none;
  raw_pay_tx1 = [];
  raw_rev_tx1 = [];
  raw_pay_tx2 = [];
  raw_rev_tx2 = [];
  tx_hash1 = 0;
  tx_hash2 = 0;
}

count_party-core :
    (n : State) (from x y : Bytes) (t : Transaction)
    → core (count_party n from x y t) ≡ count_party n from x y (core t)
unfolding count_party
count_party-core n from x y t = ground arith

advance-core :
    (s : State) (from : Bytes) (t : Transaction)
    → core (advance s from t).0 ≡ (advance s from (core t)).0
unfolding advance
advance-core State.tr_joined from t = count_party-core State.tr_hold from _ _ t
advance-core State.tr_hold from t = count_party-core State.tr_initialized from _ _ t
advance-core State.tr_initialized from t = count_party-core State.tr_created from _ _ t
advance-core State.tr_created from t = count_party-core State.tr_signed from _ _ t
advance-core State.tr_signed from t = count_party-core State.tr_commited from _ _ t
advance-core State.tr_commited from t = count_party-core State.tr_finished from _ _ t
advance-core _ from t = refl

pub increase-core :
    (s : State) (from : Bytes) (t : Transaction)
    → core (increase_state_counter s from t).0 ≡ (increase_state_counter s from (core t)).0
unfolding increase_state_counter
increase-core s from t = elim (Bool-cases (s =s t.state)) [
  | inl same ↦ rw same (advance-core s from t)
  | inr other ↦ rw other refl
]

-- At most one of the parties has confirmed.
abbrev pub IsOpen : Transaction → Type 0
IsOpen t = (t.first_changed && t.second_changed) ≡ false

count_party-IsOpen :
    (n : State) (from x y : Bytes) (t : Transaction) → IsOpen (count_party n from x y t)
unfolding count_party
count_party-IsOpen n from x y t = ground arith

advance-IsOpen :
    (s : State) (from : Bytes) (t : Transaction) → IsOpen t → IsOpen (advance s from t).0
unfolding advance
advance-IsOpen State.tr_joined from t h = count_party-IsOpen State.tr_hold from _ _ t
advance-IsOpen State.tr_hold from t h = count_party-IsOpen State.tr_initialized from _ _ t
advance-IsOpen State.tr_initialized from t h = count_party-IsOpen State.tr_created from _ _ t
advance-IsOpen State.tr_created from t h = count_party-IsOpen State.tr_signed from _ _ t
advance-IsOpen State.tr_signed from t h = count_party-IsOpen State.tr_commited from _ _ t
advance-IsOpen State.tr_commited from t h = count_party-IsOpen State.tr_finished from _ _ t
advance-IsOpen _ from t h = h

pub increase-IsOpen :
    (s : State) (from : Bytes) (t : Transaction)
    → IsOpen t
    → IsOpen (increase_state_counter s from t).0
unfolding increase_state_counter
increase-IsOpen s from t h = elim (Bool-cases (s =s t.state)) [
  | inl same ↦ rw same (advance-IsOpen s from t h)
  | inr other ↦ rw other h
]

-- The state of a number of the enumeration.
state_at : ℕ → State
state_at k =
    if k == 0
    then State.tr_invalid
    else if k == 1
    then State.tr_new
    else if k == 2
    then State.tr_joined
    else if k == 3
    then State.tr_hold
    else if k == 4
    then State.tr_initialized
    else if k == 5
    then State.tr_created
    else if k == 6
    then State.tr_signed
    else if k == 7
    then State.tr_commited
    else if k == 8
    then State.tr_confirmed
    else if k == 9
    then State.tr_finished
    else if k == 10
    then State.tr_cancelled
    else State.tr_dropped

state_at_code : (s : State) → state_at (state_code s) ≡ s
unfolding state_at
state_at_code State.tr_invalid = refl
state_at_code _ = refl

pub state_code_inj : (s u : State) → (s =s u) ≡ true → u ≡ s
state_code_inj s u same =
    sym (state_at_code u)
    ∙ ap state_at (sym ((==_iff (state_code s) (state_code u)).0 same))
    ∙ state_at_code s

-- Somebody who is neither of the phase's parties does not count.
module _ (from : Bytes) (t : Transaction) (open' : IsOpen t) where
  pub count_party_stranger :
      (n : State) (x y : Bytes)
      → bytes_eq x from ≡ false
      → bytes_eq y from ≡ false
      → count_party n from x y t ≡ t
  unfolding count_party
  count_party_stranger n x y hx hy =
      ground
        (arith, bytes_eq_iff x from, bytes_eq_iff from x, bytes_eq_iff y from, bytes_eq_iff from y)

-- ===== src/Transaction/Trades.antt =====
-- What every method keeps of a trade, an object that has been joined: its id, its parties, that it is
-- neither new nor invalid, and that its two flags are never both set.
use xhubv.Prelude.{ℕ, ◌≡◌, refl, arith, Bool, false, ◌&&◌, ◌||◌, Bytes, Bool-cases, inl, inr}
use xhubv.Transaction.{
  State, advance, Transaction, ◌=s◌, increase_state_counter, count_party, update_timestamp, drop,
  finish, confirm, set_raw_pay_tx, update_raw_rev_tx, set_tx_hash,
}

abbrev pub is_open : State → Bool
is_open s = s =s State.tr_new || s =s State.tr_invalid

pub record IsTrade (k : ℕ) (t : Transaction) : Type 0 where
  pub keyed : t.id ≡ k
  pub started : is_open t.state ≡ false
  pub apart : t.first_changed && t.second_changed ≡ false

module _ {k : ℕ} {t : Transaction} (trade : IsTrade k t) where
  count_party-IsTrade :
      (n : State) (from a b : Bytes) → is_open n ≡ false → IsTrade k (count_party n from a b t)
  unfolding count_party
  count_party-IsTrade n from a b h = ground arith

  advance-IsTrade : (s : State) (from : Bytes) → IsTrade k (advance s from t).0
  unfolding advance
  advance-IsTrade State.tr_joined from = count_party-IsTrade State.tr_hold from _ _ refl
  advance-IsTrade State.tr_hold from = count_party-IsTrade State.tr_initialized from _ _ refl
  advance-IsTrade State.tr_initialized from = count_party-IsTrade State.tr_created from _ _ refl
  advance-IsTrade State.tr_created from = count_party-IsTrade State.tr_signed from _ _ refl
  advance-IsTrade State.tr_signed from = count_party-IsTrade State.tr_commited from _ _ refl
  advance-IsTrade State.tr_commited from = count_party-IsTrade State.tr_finished from _ _ refl
  advance-IsTrade _ from = trade

  pub increase-IsTrade : (s : State) (from : Bytes) → IsTrade k (increase_state_counter s from t).0
  increase-IsTrade s from = elim (Bool-cases (s =s t.state)) [
    | inl e ↦ unfold increase_state_counter in rw e (advance-IsTrade s from)
    | inr e ↦ unfold increase_state_counter in rw e trade
  ]

  pub update_timestamp-IsTrade : (now : ℕ) → IsTrade k (update_timestamp now t)
  unfolding update_timestamp
  update_timestamp-IsTrade now = ground arith

  pub drop-IsTrade : IsTrade k (drop t)
  unfolding drop
  drop-IsTrade = ground arith

  pub finish-IsTrade : IsTrade k (finish t)
  unfolding finish
  finish-IsTrade = ground arith

  pub confirm-IsTrade : (h : ℕ) → IsTrade k (confirm h t).0
  unfolding confirm
  confirm-IsTrade h = ground arith

  pub set_raw_pay_tx-IsTrade : (addr pay rev : Bytes) → IsTrade k (set_raw_pay_tx addr pay rev t).0
  unfolding set_raw_pay_tx
  set_raw_pay_tx-IsTrade addr pay rev = ground arith

  pub update_raw_rev_tx-IsTrade : (addr rev : Bytes) → IsTrade k (update_raw_rev_tx addr rev t).0
  unfolding update_raw_rev_tx
  update_raw_rev_tx-IsTrade addr rev = ground arith

  pub set_tx_hash-IsTrade : (addr : Bytes) (h : ℕ) → IsTrade k (set_tx_hash addr h t).0
  unfolding set_tx_hash
  set_tx_hash-IsTrade addr h = ground arith

-- ===== src/Exchange/Counted.antt =====
-- The updates of the exchange against increaseStateCounter: but for time, payments and hashes, the trade
-- takes the step of the counter.
use xhubv.Prelude.{ℕ, ◌≡◌, refl, sym, ap, ◌∙◌, Bool, false, Bytes, bytes_eq, Bool-cases, inl, inr}
use xhubv.Transaction.{
  State, Transaction, ◌=s◌, increase_state_counter, set_raw_pay_tx, update_raw_rev_tx, set_tx_hash,
}
use xhubv.Transaction.Phases.{
  Phase, initializing, creating, signing, first_party, second_party, increase-Phase, increase_other,
}
use xhubv.Transaction.Core.{core, increase-core, IsOpen, state_code_inj, count_party_stranger}
use xhubv.Exchange.{
  Exchange, update_when_created_received, update_when_signed_received,
  update_when_commited_received,
}

-- The trade after a message of the phase `s` from `me`, but for what plays no part.
abbrev pub Counts : State → Bytes → Transaction → Transaction → Type 0
Counts s me t u = core u ≡ (increase_state_counter s me (core t)).0

increase-Counts :
    (s : State) (me : Bytes) (t t' : Transaction)
    → core t' ≡ core t
    → Counts s me t (increase_state_counter s me t').0
increase-Counts s me t t' e = increase-core s me t' ∙ ap (λ u. (increase_state_counter s me u).0) e

-- A message of a phase from somebody who is not one of its parties.
increase_stranger :
    {s n : State} {src : Bool} (p : Phase s n src) (me : Bytes) (t : Transaction)
    → IsOpen t
    → bytes_eq (first_party src t) me ≡ false
    → bytes_eq (second_party src t) me ≡ false
    → (increase_state_counter s me t).0 ≡ t
increase_stranger {s} {n} {src} p me t o hx hy = elim (Bool-cases (s =s t.state)) [
  | inl same ↦
      ap (λ r. r.0) (increase-Phase p me t (state_code_inj s t.state same))
      ∙ count_party_stranger me t o n _ _ hx hy
  | inr other ↦ increase_other s me t other
]

module _ (me : Bytes) (t : Transaction) (o : IsOpen t) where
  pub update_when_created-Counts :
      (pay rev : Bytes)
      → Counts State.tr_initialized me t (update_when_created_received me pay rev t).0
  unfolding update_when_created_received set_raw_pay_tx
  update_when_created-Counts pay rev = elim (Bool-cases (bytes_eq t.second.source me)) [
    | inl second ↦ rw second (increase-Counts State.tr_initialized me t _ refl)
    | inr other ↦ elim (Bool-cases (bytes_eq t.first.source me)) [
      | inl first ↦ rw (other, first) (increase-Counts State.tr_initialized me t _ refl)
      | inr neither ↦
          rw (other, neither) (sym (increase_stranger initializing me (core t) o neither other))
    ]
  ]

  pub update_when_signed-Counts :
      (rev : Bytes) → Counts State.tr_created me t (update_when_signed_received me rev t).0
  unfolding update_when_signed_received update_raw_rev_tx
  update_when_signed-Counts rev = elim (Bool-cases (bytes_eq t.second.dest me)) [
    | inl second ↦ rw second (increase-Counts State.tr_created me t _ refl)
    | inr other ↦ elim (Bool-cases (bytes_eq t.first.dest me)) [
      | inl first ↦ rw (other, first) (increase-Counts State.tr_created me t _ refl)
      | inr neither ↦
          rw (other, neither) (sym (increase_stranger creating me (core t) o neither other))
    ]
  ]

  pub update_when_commited-Counts :
      (h : ℕ) (e : Exchange)
      → Counts State.tr_signed me t (update_when_commited_received me h t e).1
  unfolding update_when_commited_received set_tx_hash
  update_when_commited-Counts h e = elim (Bool-cases (bytes_eq t.second.source me)) [
    | inl second ↦ rw second (increase-Counts State.tr_signed me t _ refl)
    | inr other ↦ elim (Bool-cases (bytes_eq t.first.source me)) [
      | inl first ↦ rw (other, first) (increase-Counts State.tr_signed me t _ refl)
      | inr neither ↦
          rw (other, neither) (sym (increase_stranger signing me (core t) o neither other))
    ]
  ]

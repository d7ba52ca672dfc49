-- ===== src/Ui/Rows.antt =====
-- What the orders that come in do to the rows of the window.
use xhubv.Prelude.{
  ℕ, ◌+◌, ◌≤◌, ◌≡◌, ◌≢◌, refl, ap, sym, subst, ◌∙◌, List, [], ◌∷◌, false, All, none, some, Option,
  ltb, ◌==◌, ==_iff, length, map, ◌>>=◌, arith, Bool-cases, inl, inr, when_none, when_false,
}
use xhubv.Session.Updates.{either}
use xhubv.Ui.{
  Row, row_id, row_state, descr_state_code, copied, meet_row, meet_first, on_transaction_received,
  on_timer,
}
use xhubv.Ui.Timer.{is_due, is_overdue, aged, not_after, on_timer_calm}

-- No two rows have the same id.
abbrev pub Distinct : List Row → Type 0
Distinct [] = Unit {0}
Distinct (r ∷ rs) = All (λ x. row_id x ≢ row_id r) rs × Distinct rs

-- Rows with the same ids in the same places.
abbrev pub SameIds : List Row → List Row → Type 0
SameIds [] [] = Unit {0}
SameIds (r ∷ rs) (q ∷ qs) = (row_id r ≡ row_id q) × SameIds rs qs
SameIds _ _ = ⊥

meet_first-none :
    (tx : Row) (rows : List Row) → All (λ x. row_id x ≢ row_id tx) rows → meet_first tx rows ≡ none
unfolding meet_first
meet_first-none tx [] new = refl
meet_first-none tx (r ∷ rows) new =
    when_false (row_id r == row_id tx) _ _ (ground (arith, ==_iff (row_id r) (row_id tx), new.0))
    ∙ ap (λ o. do rs' ← o; some (r ∷ rs')) (meet_first-none tx rows new.1)

refreshed :
    (later now : ℕ) (rows : List Row)
    → later ≤ now + 60
    → All (λ x. is_overdue later x ≡ false) (map (copied now) rows)
      × (map (aged later) (map (copied now) rows) ≡ map (copied now) rows)
unfolding copied
refreshed later now [] h = (tt, refl)
refreshed later now (r ∷ rows) h =
    let rest = refreshed later now rows h in
    (
      (not_after _ now 300 later (omega arith), rest.0),
      ap (λ x. x ∷ map (aged later) (map (copied now) rows))
            (when_false (is_due later (copied now r)) _ _ (not_after _ now 60 later h))
          ∙ ap (λ x. copied now r ∷ x) rest.1,
    )

pub same_ids : (rs : List Row) → SameIds rs rs
same_ids [] = tt
same_ids (r ∷ rs) = (refl, same_ids rs)

apart_as :
    (id : ℕ) (rs qs : List Row)
    → SameIds rs qs
    → All (λ x. row_id x ≢ id) rs
    → All (λ x. row_id x ≢ id) qs
apart_as id [] [] s h = tt
apart_as id [] (q ∷ qs) s h = absurd s
apart_as id (r ∷ rs) [] s h = absurd s
apart_as id (r ∷ rs) (q ∷ qs) s h = ((λ e. h.0 (s.0 ∙ e)), apart_as id rs qs s.1 h.1)

pub SameIds-Distinct : (rs qs : List Row) → SameIds rs qs → Distinct rs → Distinct qs
SameIds-Distinct [] [] s h = tt
SameIds-Distinct [] (q ∷ qs) s h = absurd s
SameIds-Distinct (r ∷ rs) [] s h = absurd s
SameIds-Distinct (r ∷ rs) (q ∷ qs) s h = (
  subst (λ id. All (λ x. row_id x ≢ id) qs) s.0 (apart_as (row_id r) rs qs s.1 h.0),
  SameIds-Distinct rs qs s.1 h.1,
)

row_id-meet_row : (tx r : Row) → row_id r ≡ row_id tx → row_id (meet_row tx r) ≡ row_id r
unfolding meet_row
row_id-meet_row tx r e =
    either (λ (x : Row). row_id x ≡ row_id r) (length r.descr.from == 0) _ _ (sym e)
      (either (λ (x : Row). row_id x ≡ row_id r)
        (ltb (descr_state_code (row_state r)) (descr_state_code (row_state tx))) _ _ refl refl)

-- What meet_first finds keeps the ids; if it finds nothing, no row has the id.
abbrev Met : Row → List Row → Option (List Row) → Type 0
Met tx rows none = All (λ x. row_id x ≢ row_id tx) rows
Met tx rows (some qs) = SameIds rows qs

later_row :
    (tx r : Row) (rows : List Row) (o : Option (List Row))
    → row_id r ≢ row_id tx
    → Met tx rows o
    → Met tx (r ∷ rows) (do rs' ← o; some (r ∷ rs'))
later_row tx r rows none new met = (new, met)
later_row tx r rows (some qs) new met = (refl, met)

meet_first-Met : (tx : Row) (rows : List Row) → Met tx rows (meet_first tx rows)
unfolding meet_first
meet_first-Met tx [] = tt
meet_first-Met tx (r ∷ rows) = elim (Bool-cases (row_id r == row_id tx)) [
  | inl same ↦ rw same (sym (row_id-meet_row tx r ((==_iff _ _).0 same)), same_ids rows)
  | inr other ↦ rw other (
      later_row tx r rows (meet_first tx rows) (ground (arith, ==_iff (row_id r) (row_id tx)))
        (meet_first-Met tx rows))
]

copied_ids : (now : ℕ) (rows : List Row) → SameIds rows (map (copied now) rows)
unfolding copied
copied_ids now [] = tt
copied_ids now (r ∷ rows) = (refl, copied_ids now rows)

after_meet :
    (now : ℕ) (tx : Row) (rows : List Row) (o : Option (List Row))
    → Met tx rows o
    → Distinct rows
    → Distinct (elim o [ some rows' ↦ rows' | none ↦ map (copied now) (tx ∷ rows) ])
after_meet now tx rows none met d =
    SameIds-Distinct (tx ∷ rows) (map (copied now) (tx ∷ rows)) (copied_ids now (tx ∷ rows))
      (met, d)
after_meet now tx rows (some qs) met d = SameIds-Distinct rows qs met d

pub on_transaction_received-Distinct :
    (now : ℕ) (tx : Row) (rows : List Row)
    → Distinct rows
    → Distinct (on_transaction_received now tx rows)
unfolding on_transaction_received
on_transaction_received-Distinct now tx rows d =
    after_meet now tx rows (meet_first tx rows) (meet_first-Met tx rows) d

module _ (tx : Row) (rows : List Row) (now later : ℕ) where
  -- When an order comes in whose id no row has, every row of the window counts as heard of at
  -- that time, so that the timer changes no row for 60 seconds, however long the rows' own
  -- orders have not been heard of.
  pub received_refreshes :
      All (λ x. row_id x ≢ row_id tx) rows
      → later ≤ now + 60
      → on_timer later false (on_transaction_received now tx rows) ≡ map (copied now) (tx ∷ rows)
  unfolding on_transaction_received
  received_refreshes new soon =
      let r = refreshed later now (tx ∷ rows) soon in
      ap (on_timer later false) (when_none (meet_first tx rows) _ _ (meet_first-none tx rows new))
      ∙ on_timer_calm later (map (copied now) (tx ∷ rows)) r.0
      ∙ r.1

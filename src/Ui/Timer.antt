-- ===== src/Ui/Timer.antt =====
-- What a turn of the window's timer does to the rows.
use xhubv.Prelude.{
  ℕ, ◌+◌, ◌≤◌, ◌≡◌, refl, ap, ◌∙◌, List, [], ◌∷◌, ◌++◌, Bool, true, false, ◌&&◌, All, ltb, ◌==◌,
  if◌then◌else◌, map, arith, Bool-cases, inl, inr, when_true, when_false,
}
use xhubv.Session.{DescrState}
use xhubv.Ui.{Row, row_state, with_state, descr_state_code, copied, on_timer}

-- A pending row that has not been heard of for more than 60 seconds.
abbrev pub is_due : ℕ → Row → Bool
is_due now r = (descr_state_code (row_state r) == 1) && ltb (r.txtime + 60) now

-- An expired row that has not been heard of for more than 300 seconds.
abbrev pub is_overdue : ℕ → Row → Bool
is_overdue now r = (descr_state_code (row_state r) == 12) && ltb (r.txtime + 300) now

-- A due row becomes expired.
abbrev pub aged : ℕ → Row → Row
aged now r = if is_due now r then with_state DescrState.tr_expired r else r

pub not_after : (b : Bool) (t d now : ℕ) → now ≤ t + d → (b && ltb (t + d) now) ≡ false
not_after true t d now h = ground arith
not_after false t d now h = refl

not_both : (c : ℕ) (x y : Bool) → ((c == 12) && x) ≡ true → ((c == 1) && y) ≡ false
not_both c true y h = ground arith
not_both c false y h = ground arith

module _ (now : ℕ) where
  one_row :
      (r : Row) (rs : List Row)
      → is_overdue now r ≡ false
      → on_timer now false (r ∷ rs) ≡ aged now r ∷ on_timer now false rs
  unfolding on_timer
  one_row r rs calm = elim (Bool-cases (is_due now r)) [
    | inl due ↦ rw (due) refl
    | inr fine ↦ rw (fine, calm) refl
  ]

  overdue_row :
      (r : Row) (rs : List Row)
      → is_overdue now r ≡ true
      → on_timer now false (r ∷ rs) ≡ on_timer now true rs
  unfolding on_timer
  overdue_row r rs old =
      when_false (is_due now r) _ _ (not_both (descr_state_code (row_state r)) _ _ old)
      ∙ when_true (is_overdue now r) _ _ old

  no_rows : on_timer now false [] ≡ []
  unfolding on_timer
  no_rows = refl

  -- Rows that have been copied now are neither due nor overdue.
  moved_rows : (rs : List Row) → on_timer now true rs ≡ map (copied now) rs
  unfolding on_timer copied
  moved_rows [] = refl
  moved_rows (r ∷ rs) =
      when_false (is_due now (copied now r)) _ _ (not_after _ now 60 now (omega arith))
      ∙ when_false (is_overdue now (copied now r)) _ _ (not_after _ now 300 now (omega arith))
      ∙ ap (λ x. copied now r ∷ x) (moved_rows rs)

  -- In a turn of the window's timer, of the rows that are overdue only the first goes: the rows
  -- before it stay or become expired as their own time says, and every row behind it stays with
  -- its state and counts as heard of now, also if it is overdue itself.
  pub on_timer_first :
      (before : List Row) (r : Row) (after : List Row)
      → All (λ x. is_overdue now x ≡ false) before
      → is_overdue now r ≡ true
      → on_timer now false (before ++ r ∷ after) ≡ map (aged now) before ++ map (copied now) after
  on_timer_first [] r after calm old = overdue_row r after old ∙ moved_rows after
  on_timer_first (x ∷ before) r after calm old =
      one_row x (before ++ r ∷ after) calm.0
      ∙ ap (λ rs. aged now x ∷ rs) (on_timer_first before r after calm.1 old)

  pub on_timer_calm :
      (rows : List Row)
      → All (λ x. is_overdue now x ≡ false) rows
      → on_timer now false rows ≡ map (aged now) rows
  on_timer_calm [] calm = no_rows
  on_timer_calm (x ∷ rows) calm =
      one_row x rows calm.0 ∙ ap (λ rs. aged now x ∷ rs) (on_timer_calm rows calm.1)

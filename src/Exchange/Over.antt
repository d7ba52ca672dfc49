-- ===== src/Exchange/Over.antt =====
-- transactions(true): the trades that are over, picked from the map.
use xhubv.Prelude.{
  ℕ, ◌≡◌, refl, ◌∙◌, subst, arith, List, [], ◌∷◌, none, some, lookup, ℕ-key, IsMap, Each, ◌==◌,
  ==_iff, if◌then◌else◌, Bool-cases, inl, inr,
}
use xhubv.Transaction.{Transaction}
use xhubv.Exchange.{is_over, select_over}

pub lookup-select_over :
    (now q : ℕ) (m : List (ℕ × Transaction))
    → IsMap m
    → lookup q (select_over now m)
      ≡ elim (lookup q m) [ none ↦ none | some t ↦ if is_over now t then some t else none ]
unfolding select_over lookup
lookup-select_over now q [] h = refl
lookup-select_over now q ((k, t) ∷ m) h = elim (Bool-cases (k == q)) [
  | inl same ↦
      let absent : lookup q m ≡ none = subst (λ i. lookup i m ≡ none) ((==_iff k q).0 same) h.0 in
      rw same (ground (arith, lookup-select_over now q m h.1))
  | inr other ↦ rw other (ground (arith, lookup-select_over now q m h.1))
]

pub select_over-Each :
    (P : ℕ → Transaction → Type 0) (now : ℕ) (m : List (ℕ × Transaction))
    → Each P m
    → Each P (select_over now m)
unfolding select_over
select_over-Each P now [] h = tt
select_over-Each P now ((k, t) ∷ m) h = elim (Bool-cases (is_over now t)) [
  | inl over ↦ rw over (h.0, select_over-Each P now m h.1)
  | inr going ↦ rw going (select_over-Each P now m h.1)
]

pub select_over-IsMap : (now : ℕ) (m : List (ℕ × Transaction)) → IsMap m → IsMap (select_over now m)
unfolding select_over
select_over-IsMap now [] h = tt
select_over-IsMap now ((k, t) ∷ m) h = elim (Bool-cases (is_over now t)) [
  | inl over ↦ rw over (lookup-select_over now k m h.1 ∙ rw h.0, select_over-IsMap now m h.1)
  | inr going ↦ rw going (select_over-IsMap now m h.1)
]

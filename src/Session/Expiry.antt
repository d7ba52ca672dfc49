-- ===== src/Session/Expiry.antt =====
-- eraseExpiredPendingTransactions as a map over the orders: what the loop over a snapshot of pointers,
-- each of which is erased under the hash of its order, does to the entry under each key.
use xhubv.Prelude.{
  ℕ, ◌≡◌, refl, ap, subst, ◌∙◌, arith, Bool, true, false, List, [], ◌∷◌, Option, none, some, Bytes,
  lookup, ℕ-key, IsMap, Each, lookup-erase, ◌==◌, ==_iff, if◌then◌else◌, Bool-cases, inl, inr,
}
use xhubv.Transaction.{Transaction, is_expired, hash1}
use xhubv.Exchange.{Exchange, is_enabled, delete_pending_transactions}
use xhubv.Exchange.Invariant.{IsSound, IsOrder}
use xhubv.Session.{Node}
use xhubv.Session.Upkeep.{erase_expired, erase_expired_pending_transactions}

-- What eraseExpiredPendingTransactions leaves under a key.
abbrev unless_expired : ℕ → Option Transaction → Option Transaction → Option Transaction
unless_expired now none old = old
unless_expired now (some t) old = if is_expired now t then none else old

unless_expired_step :
    (now : ℕ) (same : Bool) (o old : Option Transaction) (t : Transaction)
    → (same ≡ true → o ≡ none)
    → unless_expired now o (if is_expired now t then (if same then none else old) else old)
      ≡ unless_expired now (if same then some t else o) old
unless_expired_step now true o old t h = rw (h refl) refl
unless_expired_step now false o old t h = ground arith

module _ (sha256 : Bytes → Bytes) (now q : ℕ) where
  lookup-erase_step :
      (k : ℕ) (t : Transaction) (e : Exchange)
      → IsOrder sha256 k t
      → lookup q
          (if is_expired now t then delete_pending_transactions (hash1 sha256 t) e else e).pending
        ≡ (if is_expired now t
            then (if k == q then none else lookup q e.pending)
            else lookup q e.pending)
  unfolding delete_pending_transactions
  lookup-erase_step k t e o = elim (Bool-cases (is_expired now t)) [
    | inl late ↦ rw (late, o.hashed) (lookup-erase k q e.pending)
    | inr fresh ↦ rw fresh refl
  ]

  lookup-erase_expired :
      (l : List (ℕ × Transaction)) (e : Exchange)
      → IsMap l
      → Each (IsOrder sha256) l
      → lookup q (erase_expired sha256 now l e).pending
        ≡ unless_expired now (lookup q l) (lookup q e.pending)
  unfolding erase_expired lookup
  lookup-erase_expired [] e m orders = refl
  lookup-erase_expired ((k, t) ∷ l) e m orders =
      lookup-erase_expired l _ m.1 orders.1
      ∙ ap (unless_expired now (lookup q l)) (lookup-erase_step k t e orders.0)
      ∙ unless_expired_step now (k == q) (lookup q l) (lookup q e.pending) t
          (λ same. subst (λ i. lookup i l ≡ none) ((==_iff k q).0 same) m.0)

  -- On an enabled exchange that is sound, eraseExpiredPendingTransactions deletes exactly the
  -- orders that are expired: under every key an expired order is gone afterwards and any other
  -- order still stands.
  pub lookup-erase_expired_pending :
      (n : Node)
      → is_enabled n.exchange ≡ true
      → IsSound sha256 n.exchange
      → lookup q (erase_expired_pending_transactions sha256 now n).exchange.pending
        ≡ elim (lookup q n.exchange.pending) [
          | none ↦ none
          | some t ↦ if is_expired now t then none else some t
        ]
  unfolding erase_expired_pending_transactions
  lookup-erase_expired_pending n on s =
      rw on
        (lookup-erase_expired n.exchange.pending n.exchange s.orders_map s.orders ∙ ground arith)

-- ===== src/Exchange/Matching.antt =====
-- createTransaction as an order book: an order meets the order that stands under its hash2, if that one is
-- in time and asks for what the other offers; any other order waits under its own hash1.
use xhubv.Prelude.{
  ℕ, ◌≡◌, refl, sym, subst, ◌∙◌, true, false, some, Bytes, lookup, insert, erase, ℕ-key,
  lookup-insert_self, lookup-Each, Bool-cases, Option-cases, inl, inr,
}
use xhubv.Transaction.{Transaction, hash1, hash2, try_join, is_expired}
use xhubv.Transaction.Join.{Matches, joined, try_join_iff, try_join_done, hash1-try_join}
use xhubv.Exchange.{
  Exchange, Order, order_transaction, create_transaction, meet_pending, add_pending,
}
use xhubv.Exchange.Invariant.{IsSound, IsOrder, create_alone, create_meet}

-- The partner of an order: an order of the book, in time, that matches it.
pub record IsPartner (now : ℕ) (o : Order) (h : ℕ) (old : Transaction) (e : Exchange) : Type 0 where
  pub stands : lookup h e.pending ≡ some old
  pub in_time : is_expired now old ≡ false
  pub fits : Matches old (order_transaction now o)

module _ (sha256 : Bytes → Bytes) (now : ℕ) (o : Order) where
  abbrev tr : Transaction
  tr = order_transaction now o

  partner_key :
      (h : ℕ) (old : Transaction) (e : Exchange)
      → IsSound sha256 e
      → IsPartner now o h old e
      → h ≡ hash2 sha256 tr
  partner_key h old e s p =
      sym (lookup-Each (IsOrder sha256) h e.pending old s.orders p.stands).hashed
      ∙ (hash1-try_join sha256 old tr ((try_join_iff sha256 old tr).0.1 p.fits)).0

  -- The meeting with an order that is in time and is joined.
  meet_pending-joins :
      (old : Transaction) (e : Exchange)
      → is_expired now old ≡ false
      → (try_join sha256 old tr).1 ≡ true
      → meet_pending sha256 now tr old e ≡ (
        record e {
          transactions = insert (joined sha256 old tr).id (joined sha256 old tr) e.transactions;
          pending = erase (hash2 sha256 tr) e.pending;
        },
        (joined sha256 old tr).id,
      )
  unfolding meet_pending
  meet_pending-joins old e fresh done = rw (fresh, done, try_join_done sha256 old tr done) refl

  -- The outcome of an order that is not joined.
  abbrev IsAdded : Exchange → Exchange × ℕ → Type 0
  IsAdded e r =
      (r.1 ≡ 0)
      × (r.0.transactions ≡ e.transactions)
      × (lookup (hash1 sha256 tr) r.0.pending ≡ some tr)

  add_pending-IsAdded : (e : Exchange) → IsAdded e (add_pending sha256 tr e, 0)
  unfolding add_pending
  add_pending-IsAdded e = (refl, refl, lookup-insert_self (hash1 sha256 tr) tr e.pending)

  meet_pending-IsAdded :
      (old : Transaction) (e : Exchange)
      → (is_expired now old ≡ false → (try_join sha256 old tr).1 ≡ true → ⊥)
      → IsAdded e (meet_pending sha256 now tr old e)
  unfolding meet_pending
  meet_pending-IsAdded old e refuse = elim (Bool-cases (is_expired now old)) [
    | inl late ↦
        rw late (add_pending-IsAdded (record e { pending = erase (hash2 sha256 tr) e.pending }))
    | inr fresh ↦ elim (Bool-cases (try_join sha256 old tr).1) [
      | inl done ↦ absurd (refuse fresh done)
      | inr refused ↦ rw (fresh, refused) (add_pending-IsAdded e)
    ]
  ]

  -- If some order of a sound exchange is in time, is new and asks for what the new order offers
  -- and the reverse, createTransaction finds it through the hash and joins the two: the trade
  -- stands under its new id, the old order is no longer pending, the new order is not added, and
  -- the id of the trade is returned with success.
  pub create_transaction-joins :
      (h : ℕ) (old : Transaction) (e : Exchange)
      → IsSound sha256 e
      → IsPartner now o h old e
      → let t = joined sha256 old (order_transaction now o) in
        create_transaction sha256 now o e ≡ (
          record e { transactions = insert t.id t e.transactions; pending = erase h e.pending },
          t.id,
          true,
        )
  create_transaction-joins h old e s p =
      let key = partner_key h old e s p in
      create_meet sha256 now o old e (subst (λ k. lookup k e.pending ≡ some old) key p.stands)
      ∙ rw (meet_pending-joins old e p.in_time ((try_join_iff sha256 old tr).0.1 p.fits))
          (rw key refl)

  -- If no order of the exchange is in time and matches the new order, createTransaction returns
  -- success without a trade's id, leaves the trades as they are, and the new order waits under
  -- its hash1.
  pub create_transaction-waits :
      (e : Exchange)
      → ((h : ℕ) (old : Transaction) → ¬ IsPartner now o h old e)
      → let r = create_transaction sha256 now o e in
        (r.1 ≡ 0)
        × (r.2 ≡ true)
        × (r.0.transactions ≡ e.transactions)
        × (lookup (hash1 sha256 (order_transaction now o)) r.0.pending
            ≡ some (order_transaction now o))
  create_transaction-waits e alone = elim (Option-cases (lookup (hash2 sha256 tr) e.pending)) [
    | inl nobody ↦
        let w = add_pending-IsAdded e in
        rw (create_alone sha256 now o e nobody) (w.0, refl, w.1, w.2)
    | inr (old, found) ↦
        let w = meet_pending-IsAdded old e (λ fresh done. alone (hash2 sha256 tr) old (record {
          stands = found;
          in_time = fresh;
          fits = (try_join_iff sha256 old tr).0.0 done;
        })) in
        rw (create_meet sha256 now o old e found) (w.0, refl, w.1, w.2)
  ]

-- ===== src/Exchange/Confirm.antt =====
-- updateTransaction: what a wallet's report of a transaction does to the trade that waits for it.
use xhubv.Prelude.{
  ℕ, ◌≡◌, refl, sym, ap, ap₂, ◌∙◌, arith, true, false, List, [], ◌∷◌, none, some, lookup, erase,
  assign, ℕ-key, lookup-assign, lookup-erase, erase-IsMap, ◌≢◌, ◌⊎◌, ◌||◌, IsMap, Each, lookup-Each,
  ◌==◌, ==_iff, Bool-cases, inl, inr,
}
use xhubv.Transaction.{State, Transaction, confirm}
use xhubv.Exchange.{Exchange, transaction, store, member, confirm_seen, update_transaction}

-- No hash that still waits has been reported.
abbrev pub IsUnseen : List ℕ → ℕ → ℕ → Type 0
IsUnseen w k id = member k w ≡ false

other_way : (a b : ℕ) → (a == b) ≡ false → (b == a) ≡ false
other_way a b h = ground (arith, ==_iff a b, ==_iff b a)

-- What the report of `h` does for the trade `id`.
abbrev reported : ℕ → ℕ → Exchange → Exchange
reported h id e = record (store id (confirm h (transaction id e)).0 e) {
  unconfirmed = erase h e.unconfirmed;
}

some_injective : {a b : ℕ} → some a ≡ some b → a ≡ b
some_injective e = ground arith

module _ (h : ℕ) (w : List ℕ) where
  member_other : (k : ℕ) → (k == h) ≡ false → member k w ≡ false → member k (h ∷ w) ≡ false
  unfolding member
  member_other k ne out = rw (other_way k h ne) out

  member_same : member h (h ∷ w) ≡ true
  unfolding member
  member_same = ground (arith, ==_iff h h)

  wallet_other :
      (k : ℕ) (e : Exchange)
      → e.wallet_transactions ≡ h ∷ w
      → (k == h) ≡ false
      → member k w ≡ false
      → member k e.wallet_transactions ≡ false
  wallet_other k e eq ne out = ap (member k) eq ∙ member_other k ne out

  wallet_same :
      (k : ℕ) (e : Exchange)
      → e.wallet_transactions ≡ h ∷ w
      → k ≡ h
      → member k e.wallet_transactions ≡ true
  wallet_same k e eq same = ap₂ member same eq ∙ member_same

  -- The rest of the loop, once the hash is behind it.
  confirm_seen-unseen :
      (l : List (ℕ × ℕ)) (e : Exchange)
      → e.wallet_transactions ≡ h ∷ w
      → Each (IsUnseen w) l
      → lookup h l ≡ none
      → confirm_seen l e ≡ e
  unfolding confirm_seen lookup
  confirm_seen-unseen [] e eq unseen absent = refl
  confirm_seen-unseen ((k, id) ∷ l) e eq unseen absent = elim (Bool-cases (k == h)) [
    | inl same ↦ ground arith
    | inr ne ↦
        rw (wallet_other k e eq ne unseen.0) (confirm_seen-unseen l e eq unseen.1 (rw ne at absent))
  ]

  confirm_seen-reported :
      (l : List (ℕ × ℕ)) (e : Exchange) (id : ℕ)
      → e.wallet_transactions ≡ h ∷ w
      → Each (IsUnseen w) l
      → IsMap l
      → lookup h l ≡ some id
      → confirm_seen l e ≡ reported h id e
  unfolding confirm_seen lookup store
  confirm_seen-reported [] e id eq unseen m found = ground arith
  confirm_seen-reported ((k, j) ∷ l) e id eq unseen m found = elim (Bool-cases (k == h)) [
    | inl same ↦
        let here : k ≡ h = (==_iff k h).0 same in
        rw (wallet_same k e eq here) (
          ap₂ (λ a b. confirm_seen l (reported a b e)) here (some_injective (rw same at found))
          ∙ confirm_seen-unseen l (reported h id e) eq unseen.1
              (ap (λ a. lookup a l) (sym here) ∙ m.0))
    | inr ne ↦
        rw (wallet_other k e eq ne unseen.0)
          (confirm_seen-reported l e id eq unseen.1 m.1 (rw ne at found))
  ]

-- If no waiting hash has been reported before and none stands twice, updateTransaction for a
-- hash that waits records the hash as reported, takes it from the waiting ones, confirms the
-- trade that it belongs to, if that still stands, and leaves the rest of the exchange as it is.
pub update_transaction-reported :
    (h id : ℕ) (e : Exchange)
    → Each (IsUnseen e.wallet_transactions) e.unconfirmed
    → IsMap e.unconfirmed
    → lookup h e.unconfirmed ≡ some id
    → update_transaction h e ≡ record e {
      transactions = assign id (confirm h (transaction id e)).0 e.transactions;
      unconfirmed = erase h e.unconfirmed;
      wallet_transactions = h ∷ e.wallet_transactions;
    }
unfolding update_transaction store transaction
update_transaction-reported h id e unseen m found =
    rw (lookup-Each (IsUnseen e.wallet_transactions) h e.unconfirmed id unseen found) (
      confirm_seen-reported h e.wallet_transactions e.unconfirmed
        (record e { wallet_transactions = h ∷ e.wallet_transactions }) id refl unseen m found)

-- After the report, no hash that still waits has been reported.
erase-IsUnseen :
    (h : ℕ) (w : List ℕ) (m : List (ℕ × ℕ))
    → Each (IsUnseen w) m
    → Each (IsUnseen (h ∷ w)) (erase h m)
unfolding erase
erase-IsUnseen h w [] unseen = tt
erase-IsUnseen h w ((k, id) ∷ m) unseen = elim (Bool-cases (k == h)) [
  | inl same ↦ rw same (erase-IsUnseen h w m unseen.1)
  | inr ne ↦ rw ne (member_other h w k ne unseen.0, erase-IsUnseen h w m unseen.1)
]

hit : (a b h : ℕ) → (a ≡ h) ⊎ (b ≡ h) → (a == h || b == h) ≡ true
hit a b h (inl e) = ground (arith, ==_iff a h)
hit a b h (inr e) = ground (arith, ==_iff a h, ==_iff b h)

confirm_once :
    (h : ℕ) (t : Transaction)
    → t.tx_hash1 ≡ h
    → t.confirmations ≡ 0
    → (confirm h t).0 ≡ record t { confirmations = 1 }
unfolding confirm
confirm_once h t e c = rw (hit t.tx_hash1 t.tx_hash2 h (inl e), c) refl

confirm_again :
    (h : ℕ) (t : Transaction)
    → t.tx_hash2 ≡ h
    → t.confirmations ≡ 1
    → (confirm h t).0 ≡ record t { confirmations = 2; state = State.tr_confirmed }
unfolding confirm
confirm_again h t e c = rw (hit t.tx_hash1 t.tx_hash2 h (inr e), c) refl

transaction-assign :
    (id : ℕ) (t u : Transaction) (m : List (ℕ × Transaction))
    → lookup id m ≡ some t
    → lookup id (assign id u m) ≡ some u
transaction-assign id t u m found = ground (arith, lookup-assign id id u m)

transaction_found :
    (id : ℕ) (t : Transaction) (e : Exchange)
    → lookup id e.transactions ≡ some t
    → transaction id e ≡ t
unfolding transaction
transaction_found id t e found = rw (found, transaction)

-- If the two different hashes of a trade wait among the unconfirmed ones, none of which a wallet
-- has reported yet and none of which stands twice, and the trade has no confirmation, then after
-- the wallets' reports of the first and of the second hash the trade is confirmed with two
-- confirmations, and nothing else of it has changed.
pub both_reports_confirm :
    (h1 h2 id : ℕ) (e : Exchange) (t : Transaction)
    → h1 ≢ h2
    → Each (IsUnseen e.wallet_transactions) e.unconfirmed
    → IsMap e.unconfirmed
    → lookup h1 e.unconfirmed ≡ some id
    → lookup h2 e.unconfirmed ≡ some id
    → lookup id e.transactions ≡ some t
    → t.tx_hash1 ≡ h1
    → t.tx_hash2 ≡ h2
    → t.confirmations ≡ 0
    → lookup id (update_transaction h2 (update_transaction h1 e)).transactions
      ≡ some (record t { confirmations = 2; state = State.tr_confirmed })
both_reports_confirm h1 h2 id e t d unseen m w1 w2 found e1 e2 c =
    ap (λ x. lookup id (update_transaction h2 x).transactions) first
    ∙ ap (λ x. lookup id x.transactions)
        (update_transaction-reported h2 id e' (erase-IsUnseen h1 e.wallet_transactions _ unseen)
          (erase-IsMap h1 e.unconfirmed m) still)
    ∙ transaction-assign id once _ e'.transactions stands
    ∙ ap some (
        ap (λ u. (confirm h2 u).0) (transaction_found id once e' stands)
        ∙ confirm_again h2 once e2 refl)
  where
    once : Transaction
    once = record t { confirmations = 1 }

    e' : Exchange
    e' = record e {
      transactions = assign id once e.transactions;
      unconfirmed = erase h1 e.unconfirmed;
      wallet_transactions = h1 ∷ e.wallet_transactions;
    }

    first : update_transaction h1 e ≡ e'
    first =
        update_transaction-reported h1 id e unseen m w1
        ∙ ap
            (λ u. record e {
              transactions = assign id u e.transactions;
              unconfirmed = erase h1 e.unconfirmed;
              wallet_transactions = h1 ∷ e.wallet_transactions;
            })
            (ap (λ u. (confirm h1 u).0) (transaction_found id t e found) ∙ confirm_once h1 t e1 c)

    stands : lookup id e'.transactions ≡ some once
    stands = transaction-assign id t once e.transactions found

    still : lookup h2 e'.unconfirmed ≡ some id
    still = ground (arith, lookup-erase h1 h2 e.unconfirmed, ==_iff h1 h2)

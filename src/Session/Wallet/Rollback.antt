-- ===== src/Session/Wallet/Rollback.antt =====
-- Which refund a rollback hands to the wallet: the trade is found by the hub's id, its refund by a search
-- for the client's id.
use xhubv.Prelude.{
  ℕ, ◌≡◌, refl, ap, ◌∙◌, List, [], ◌∷◌, ◌++◌, arith, true, none, some, Bytes, lookup, assign, ℕ-key,
  lookup-assign, Each, ==_iff, ◌==◌, Option-cases, Bool-cases, inl, inr,
}
use xhubv.Packet.{Packet, size}
use xhubv.Session.{Node, Descr, DescrState, uint256_at}
use xhubv.Session.Client.Hold.{set_descr_state_found}
use xhubv.Session.Wallet.{
  Rpc, hand_over, find_mine, revert_xbridge_transaction, process_transaction_rollback,
  rollback_mine, revert_found,
}

-- No other descriptor has the client's id of `d`.
abbrev pub IsOnly : Descr → List (ℕ × Descr) → ℕ → ℕ → Type 0
IsOnly d heap k ptr = (e : Descr) → lookup ptr heap ≡ some e → e.id ≡ d.id → e ≡ d

pub some_injective : {A : Type 0} {a b : A} → some a ≡ some b → a ≡ b
some_injective {a = a} e = ap (λ o. elim o [ none ↦ a | some x ↦ x ]) e

same_id : (i : ℕ) → (i == i) ≡ true
same_id i = (==_iff i i).1 refl

find_mine_head :
    (k ptr id : ℕ) (m : List (ℕ × ℕ)) (heap : List (ℕ × Descr)) (e : Descr)
    → lookup ptr heap ≡ some e
    → e.id ≡ id
    → find_mine id ((k, ptr) ∷ m) heap ≡ some e
unfolding find_mine
find_mine_head k ptr id m heap e found same = rw (find_mine, found) (rw (same, same_id id) refl)

find_mine_only :
    (m : List (ℕ × ℕ)) (heap : List (ℕ × Descr)) (id ptr : ℕ) (d : Descr)
    → lookup id m ≡ some ptr
    → lookup ptr heap ≡ some d
    → Each (IsOnly d heap) m
    → find_mine d.id m heap ≡ some d
unfolding lookup find_mine
find_mine_only [] heap id ptr d mine found only = ground arith
find_mine_only ((k, q) ∷ m) heap id ptr d mine found only = elim (Bool-cases (k == id)) [
  | inl here ↦
      find_mine_head k q d.id m heap d
        (ap (λ i. lookup i heap) (some_injective (rw here at mine)) ∙ found) refl
  | inr there ↦ elim (Option-cases (lookup q heap)) [
    | inl absent ↦
        rw (find_mine, absent) (find_mine_only m heap id ptr d (rw there at mine) found only.1)
    | inr (e, stands) ↦ elim (Bool-cases (e.id == d.id)) [
      | inl same ↦
          let eq : e.id ≡ d.id = (==_iff e.id d.id).0 same in
          find_mine_head k q d.id m heap e stands eq ∙ ap some (only.0 e stands eq)
      | inr other ↦
          rw (find_mine, stands)
            (rw other (find_mine_only m heap id ptr d (rw there at mine) found only.1))
    ]
  ]
]

-- A rollback packet for a trade of the client's.
pub record IsRollback (p : Packet) (id ptr : ℕ) (d : Descr) (n : Node) : Type 0 where
  pub sized : size p ≡ 52
  pub read : uint256_at 20 p ≡ some id
  pub mine : lookup id n.my_transactions ≡ some ptr
  pub stands : lookup ptr n.heap ≡ some d

-- The refund `raw` goes to the wallet and the trade behind `ptr` is marked.
pub record RollsBack (ptr : ℕ) (d : Descr) (n : Node) (raw : Bytes) (m : Node) : Type 0 where
  pub handed : m.raw_sent ≡ n.raw_sent ++ (raw ∷ [])
  pub marked : lookup ptr m.heap ≡ some (record d { state = DescrState.tr_rollback })

module _ (rpc : Rpc) (p : Packet) (id ptr : ℕ) (d : Descr) (n : Node) where
  rollback_found :
      (e : Descr)
      → IsRollback p id ptr d n
      → find_mine d.id n.my_transactions n.heap ≡ some e
      → (m : Node) × (process_transaction_rollback rpc p n ≡ some (m, true))
        × RollsBack ptr d n e.rev_tx m
  unfolding process_transaction_rollback rollback_mine revert_xbridge_transaction revert_found
      hand_over
  rollback_found e r first =
      rw (r.sized, r.read)
        (rw r.mine (
          rw r.stands (
            rw first (
              rw
                (set_descr_state_found ptr DescrState.tr_rollback d (hand_over e.rev_tx n) r.stands)
                (_, refl, record { handed = refl; marked = marked })))))
    where
      marked :
          lookup ptr (assign ptr (record d { state = DescrState.tr_rollback }) n.heap)
          ≡ some (record d { state = DescrState.tr_rollback })
      marked = ground (
        arith,
        lookup-assign ptr ptr (record d { state = DescrState.tr_rollback }) n.heap,
        r.stands,
      )

  -- On a rollback packet for a trade of the client's, if no other descriptor among its trades
  -- has the same client id, the trade's own refund is handed to the wallet, behind what was
  -- handed over before, and the trade is marked as rolled back, whatever the wallet answers.
  pub rollback_own :
      IsRollback p id ptr d n
      → Each (IsOnly d n.heap) n.my_transactions
      → (m : Node) × (process_transaction_rollback rpc p n ≡ some (m, true))
        × RollsBack ptr d n d.rev_tx m
  rollback_own r only =
      rollback_found d r (find_mine_only n.my_transactions n.heap id ptr d r.mine r.stands only)

  -- On a rollback packet for a trade of the client's, if the first of its trades in the order of
  -- the hub's ids has a descriptor with the same client id, the refund of that first trade is
  -- handed to the wallet, while the trade of the packet is marked as rolled back.
  pub rollback_first :
      (k q : ℕ) (rest : List (ℕ × ℕ)) (e : Descr)
      → IsRollback p id ptr d n
      → n.my_transactions ≡ (k, q) ∷ rest
      → lookup q n.heap ≡ some e
      → e.id ≡ d.id
      → (m : Node) × (process_transaction_rollback rpc p n ≡ some (m, true))
        × RollsBack ptr d n e.rev_tx m
  rollback_first k q rest e r split stands same =
      rollback_found e r (
        ap (λ l. find_mine d.id l n.heap) split ∙ find_mine_head k q d.id rest n.heap e stands same)

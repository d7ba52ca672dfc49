-- ===== src/Session/Sweep.antt =====
-- checkFinishedTransactions and eraseExpiredPendingTransactions as maps over the exchange: what the
-- loop over a snapshot of pointers does to the entry under each key.
use xhubv.Prelude.{
  ℕ, length, ltb, ◌≡◌, refl, ap, subst, ◌∙◌, arith, Bool, true, false, List, [], ◌∷◌, Option, none,
  some, Bytes, lookup, ℕ-key, IsMap, Each, lookup-assign, Each-mono, Each-lookup, lookup-erase,
  ◌==◌, ==_iff, if◌then◌else◌, Bool-cases, inl, inr,
}
use xhubv.Transaction.{State, Transaction, drop, finish, is_valid, is_finished}
use xhubv.Transaction.Trades.{IsTrade}
use xhubv.Exchange.{
  Exchange, is_enabled, is_over, select_over, list_transactions, store, delete_transaction,
  finished_transactions,
}
use xhubv.Exchange.Over.{lookup-select_over, select_over-Each, select_over-IsMap}
use xhubv.Exchange.Invariant.{IsSound}
use xhubv.Session.{Node, write_back, send_packet, send_packet_broadcast}
use xhubv.Session.Upkeep.Sound.{check_finished_transactions-Sound}
use xhubv.Session.Upkeep.{check_finished, check_each, check_finished_transactions}

-- What becomes of a trade that is over: the next state, or its end.
abbrev pub next_of : State → Transaction → Option Transaction
next_of State.tr_cancelled t = some (drop t)
next_of State.tr_finished t = none
next_of State.tr_dropped t = none
next_of State.tr_invalid t = none
next_of _ t = some (finish t)

-- One sweep at the time `now`, seen at one trade.
unfoldable pub swept : ℕ → Transaction → Option Transaction
swept now t = if is_over now t then next_of t.state t else some t

abbrev pub then_swept : ℕ → Option Transaction → Option Transaction
then_swept now none = none
then_swept now (some t) = swept now t

-- One turn of the loop writes at one key.
lookup-check_finished :
    (now k q : ℕ) (t : Transaction) (n : Node)
    → IsTrade k t
    → lookup k n.exchange.transactions ≡ some t
    → lookup q (check_finished now k t n).exchange.transactions
      ≡ (if k == q then next_of t.state t else lookup q n.exchange.transactions)
unfolding check_finished is_valid write_back store delete_transaction send_packet_broadcast
    send_packet
lookup-check_finished now k q t n trade found = ground (
  arith,
  lookup-assign k q (drop t) n.exchange.transactions,
  lookup-assign k q (finish t) n.exchange.transactions,
  lookup-erase k q n.exchange.transactions,
)

abbrev FoundIn : Exchange → ℕ → Transaction → Type 0
FoundIn e k t = lookup k e.transactions ≡ some t

-- What the sweep leaves under a key: the effect on the entry of the list, or what was there.
abbrev overlay : Option Transaction → Option Transaction → Option Transaction
overlay none old = old
overlay (some t) old = next_of t.state t

overlay_step :
    (same : Bool) (o old : Option Transaction) (t : Transaction)
    → (same ≡ true → o ≡ none)
    → overlay o (if same then next_of t.state t else old) ≡ overlay (if same then some t else o) old
overlay_step true o old t h = rw (h refl) refl
overlay_step false o old t h = refl

-- The loop over a list of entries, each of which stands in the exchange.
lookup-check_each :
    (now q : ℕ) (l : List (ℕ × Transaction)) (n : Node)
    → IsMap l
    → Each IsTrade l
    → Each (FoundIn n.exchange) l
    → lookup q (check_each now l n).exchange.transactions
      ≡ overlay (lookup q l) (lookup q n.exchange.transactions)
unfolding check_each lookup
lookup-check_each now q [] n m trades found = refl
lookup-check_each now q ((k, t) ∷ l) n m trades found =
    lookup-check_each now q l (check_finished now k t n) m.1 trades.1 (
      Each-mono (FoundIn n.exchange) (FoundIn (check_finished now k t n).exchange) k l m.0
        (λ j u ne e. lookup-check_finished now k j t n trades.0 found.0 ∙ rw ne e) found.1)
    ∙ ap (overlay (lookup q l)) (lookup-check_finished now k q t n trades.0 found.0)
    ∙ overlay_step (k == q) (lookup q l) (lookup q n.exchange.transactions) t
        (λ same. subst (λ i. lookup i l ≡ none) ((==_iff k q).0 same) m.0)

-- On an enabled exchange that is sound, checkFinishedTransactions acts on each key by itself: a
-- trade that is not over stays; a confirmed one, and one that has timed out in any open state,
-- becomes finished; a cancelled one becomes dropped; a finished, dropped or invalid one is
-- deleted; an absent key stays absent.
pub lookup-check_finished_transactions :
    (sha256 : Bytes → Bytes) (now q : ℕ) (n : Node)
    → is_enabled n.exchange ≡ true
    → IsSound sha256 n.exchange
    → lookup q (check_finished_transactions now n).exchange.transactions
      ≡ then_swept now (lookup q n.exchange.transactions)
unfolding check_finished_transactions list_transactions swept
lookup-check_finished_transactions sha256 now q n on s = rw on (
    lookup-check_each now q (select_over now m) n (select_over-IsMap now m s.trades_map)
      (select_over-Each IsTrade now m s.trades)
      (select_over-Each (FoundIn n.exchange) now m (Each-lookup m s.trades_map))
    ∙ snapshot)
  where
    m : List (ℕ × Transaction)
    m = n.exchange.transactions

    snapshot : overlay (lookup q (select_over now m)) (lookup q m) ≡ then_swept now (lookup q m)
    snapshot = ground (arith, lookup-select_over now q m s.trades_map)

swept-finish : (later : ℕ) (t : Transaction) → swept later (finish t) ≡ none
unfolding swept is_over is_finished is_valid finish
swept-finish later t = ground arith

swept-drop : (later : ℕ) (t : Transaction) → swept later (drop t) ≡ none
unfolding swept is_over is_finished is_valid drop
swept-drop later t = ground arith

swept-next_of : (later : ℕ) (s : State) (t : Transaction) → then_swept later (next_of s t) ≡ none
swept-next_of later State.tr_cancelled t = swept-drop later t
swept-next_of later State.tr_finished t = refl
swept-next_of later State.tr_dropped t = refl
swept-next_of later State.tr_invalid t = refl
swept-next_of later _ t = swept-finish later t

-- The second sweep ends whatever the first found to be over.
pub swept_twice :
    (now later : ℕ) (t : Transaction) → is_over now t ≡ true → then_swept later (swept now t) ≡ none
unfolding swept
swept_twice now later t h = rw h (swept-next_of later t.state t)

-- The wallets are no part of the sweep.
wallets-check_finished :
    (now k : ℕ) (t : Transaction) (n : Node)
    → (check_finished now k t n).exchange.wallets ≡ n.exchange.wallets
unfolding check_finished write_back store delete_transaction send_packet_broadcast send_packet
wallets-check_finished now k t n = ground arith

wallets-check_each :
    (now : ℕ) (l : List (ℕ × Transaction)) (n : Node)
    → (check_each now l n).exchange.wallets ≡ n.exchange.wallets
unfolding check_each
wallets-check_each now [] n = refl
wallets-check_each now ((k, t) ∷ l) n =
    wallets-check_each now l (check_finished now k t n) ∙ wallets-check_finished now k t n

is_enabled-check_finished :
    (now : ℕ) (n : Node)
    → is_enabled (check_finished_transactions now n).exchange ≡ is_enabled n.exchange
unfolding check_finished_transactions is_enabled
is_enabled-check_finished now n = elim (Bool-cases (is_enabled n.exchange)) [
  | inl on ↦ rw on (
      ap (λ ws. ltb 0 (length ws)) (wallets-check_each now (finished_transactions now n.exchange) n)
      ∙ on)
  | inr off ↦ rw off off
]

-- On an enabled exchange that is sound, a trade that is over when checkFinishedTransactions runs
-- is gone after the next run, whatever the two times are.
pub check_finished_twice :
    (sha256 : Bytes → Bytes) (now later q : ℕ) (n : Node) (t : Transaction)
    → is_enabled n.exchange ≡ true
    → IsSound sha256 n.exchange
    → lookup q n.exchange.transactions ≡ some t
    → is_over now t ≡ true
    → lookup q
        (check_finished_transactions later
          (check_finished_transactions now n)).exchange.transactions
      ≡ none
check_finished_twice sha256 now later q n t on s found over =
    lookup-check_finished_transactions sha256 later q (check_finished_transactions now n)
      (is_enabled-check_finished now n ∙ on) (check_finished_transactions-Sound sha256 now n s)
    ∙ ap (then_swept later)
        (lookup-check_finished_transactions sha256 now q n on s ∙ ap (then_swept now) found)
    ∙ swept_twice now later t over

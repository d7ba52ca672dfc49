-- ===== src/Exchange.antt =====
-- XBridgeExchange (src/xbridgeexchange.cpp and .h): the hub's orders and trades. A shared pointer
-- that stands in one of the maps is the map's entry; the methods that are given a pointer return
-- the new object, which the caller writes back with `store`. Locks and logs are left out: every
-- method runs alone.
pub mod Invariant
pub mod Over
pub mod Matching
pub mod Confirm
pub mod Counted
use xhubv.Prelude.{
  ℕ, List, [], ◌∷◌, map, Bool, true, false, not, ◌||◌, Option, none, some, Bytes, lookup, erase,
  insert, assign, contains, ℕ-key, Bytes-key, length, ltb, ◌==◌, if◌then◌else◌,
}
use xhubv.Transaction.{
  State, Transaction, ◌=s◌, invalid_transaction, new_transaction, increase_state_counter,
  is_expired, is_finished, is_valid, confirm, hash1, hash2, try_join, set_raw_pay_tx,
  update_raw_rev_tx, set_tx_hash,
}

pub record WalletParam : Type 0 where
  pub title : Bytes
  pub address : Bytes
  pub ip : Bytes
  pub port : ℕ
  pub user : Bytes
  pub passwd : Bytes

abbrev pub no_wallet : WalletParam
no_wallet = record { title = []; address = []; ip = []; port = 0; user = []; passwd = [] }

pub record Exchange : Type 0 where
  pub wallets : List (Bytes × WalletParam)
  pub pending : List (ℕ × Transaction)
  pub transactions : List (ℕ × Transaction)
  pub unconfirmed : List (ℕ × ℕ)
  pub wallet_transactions : List ℕ

unfoldable pub new_exchange : Exchange
new_exchange = record {
  wallets = [];
  pending = [];
  transactions = [];
  unconfirmed = [];
  wallet_transactions = [];
}

abbrev pub is_empty : Bytes → Bool
is_empty [] = true
is_empty (_ ∷ _) = false

abbrev or_else : Option WalletParam → WalletParam → WalletParam
or_else none w = w
or_else (some v) w = v

-- The loop of init over the configured wallets: a name, and what the settings hold under it.
unfoldable pub read_wallets :
    List (Bytes × WalletParam) → List (Bytes × WalletParam) → List (Bytes × WalletParam)
read_wallets [] ws = ws
read_wallets ((name, s) ∷ rest) ws = read_wallets rest (
    if is_empty s.ip || (s.port == 0 || (is_empty s.user || is_empty s.passwd))
    then ws
    else insert name (record s { address = (or_else (lookup name ws) no_wallet).address }) ws)

-- init: the settings' switch and wallets.
unfoldable pub init : Bool → List (Bytes × WalletParam) → Exchange → Exchange
unfolding read_wallets
init enabled settings e =
    if enabled then record e { wallets = read_wallets settings e.wallets } else e

unfoldable pub is_enabled : Exchange → Bool
is_enabled e = ltb 0 (length e.wallets)

unfoldable pub have_connected_wallet : Bytes → Exchange → Bool
have_connected_wallet name e = contains name e.wallets

unfoldable pub wallet_address : Bytes → Exchange → Bytes
wallet_address name e = (or_else (lookup name e.wallets) no_wallet).address

-- What a client asks for in xbcTransaction.
pub record Order : Type 0 where
  pub id : ℕ
  pub source_addr : Bytes
  pub source_currency : Bytes
  pub source_amount : ℕ
  pub dest_addr : Bytes
  pub dest_currency : Bytes
  pub dest_amount : ℕ

abbrev pub order_transaction : ℕ → Order → Transaction
order_transaction now o =
    new_transaction now o.id o.source_addr o.source_currency o.source_amount o.dest_addr
      o.dest_currency o.dest_amount

module _ (sha256 : Bytes → Bytes) where
  -- A new order under its own hash.
  unfoldable pub add_pending : Transaction → Exchange → Exchange
  add_pending tr e = record e { pending = insert (hash1 sha256 tr) tr e.pending }

  -- The branch of createTransaction in which an order stands under hash2. A join that fails leaves
  -- that order as it was.
  unfoldable pub meet_pending : ℕ → Transaction → Transaction → Exchange → Exchange × ℕ
  unfolding add_pending
  meet_pending now tr old e =
      let h = hash2 sha256 tr in
      let (new, done) = try_join sha256 old tr in
      if is_expired now old
      then (add_pending tr (record e { pending = erase h e.pending }), 0)
      else if done
      then (
        record e { transactions = insert new.id new e.transactions; pending = erase h e.pending },
        new.id,
      )
      else (add_pending tr e, 0)

  -- createTransaction: the exchange, transactionId (0 if it is not set), and the result.
  unfoldable pub create_transaction : ℕ → Order → Exchange → Exchange × ℕ × Bool
  unfolding meet_pending add_pending
  create_transaction now o e =
      let tr = order_transaction now o in
      if not (is_valid tr) then (e, 0, false) else elim (lookup (hash2 sha256 tr) e.pending) [
        | none ↦ (add_pending tr e, 0, true)
        | some old ↦ let (e', id) = meet_pending now tr old e in (e', id, true)
      ]

unfoldable pub delete_pending_transactions : ℕ → Exchange → Exchange
delete_pending_transactions id e = record e { pending = erase id e.pending }

unfoldable pub delete_transaction : ℕ → Exchange → Exchange
delete_transaction id e = record e { transactions = erase id e.transactions }

-- transaction(hash): the trade, or a new invalid object that stands in no map.
unfoldable pub transaction : ℕ → Exchange → Transaction
transaction h e = elim (lookup h e.transactions) [ none ↦ invalid_transaction | some t ↦ t ]

-- A write through the pointer that transaction(hash) returned.
unfoldable pub store : ℕ → Transaction → Exchange → Exchange
store h t e = record e { transactions = assign h t e.transactions }

-- The object after increaseStateCounter, and whether the state that it returned is `goal`.
abbrev reaches : State → State → Bytes → Transaction → Transaction × Bool
reaches goal s from t = let (t', r) = increase_state_counter s from t in (t', r =s goal)

unfoldable pub update_when_hold_apply_received : Bytes → Transaction → Transaction × Bool
update_when_hold_apply_received from t = reaches State.tr_hold State.tr_joined from t

unfoldable pub update_when_initialized_received : Bytes → Transaction → Transaction × Bool
update_when_initialized_received from t = reaches State.tr_initialized State.tr_hold from t

unfoldable pub update_when_created_received :
    Bytes → Bytes → Bytes → Transaction → Transaction × Bool
update_when_created_received from pay rev t =
    let (t', known) = set_raw_pay_tx from pay rev t in
    if known then reaches State.tr_created State.tr_initialized from t' else (t', false)

unfoldable pub update_when_signed_received : Bytes → Bytes → Transaction → Transaction × Bool
update_when_signed_received from rev t =
    let (t', known) = update_raw_rev_tx from rev t in
    if known then reaches State.tr_signed State.tr_created from t' else (t', false)

-- The only update that writes to the exchange as well: m_unconfirmed[txhash] = tx->id().
unfoldable pub update_when_commited_received :
    Bytes → ℕ → Transaction → Exchange → Exchange × Transaction × Bool
update_when_commited_received from h t e =
    let (t', known) = set_tx_hash from h t in
    let (u, done) = reaches State.tr_commited State.tr_signed from t' in
    if known
    then (record e { unconfirmed = insert h t'.id e.unconfirmed }, u, done)
    else (e, t', false)

unfoldable pub update_when_confirmed_received : Bytes → Transaction → Transaction × Bool
update_when_confirmed_received from t = reaches State.tr_finished State.tr_commited from t

unfoldable pub member : ℕ → List ℕ → Bool
member h [] = false
member h (k ∷ ks) = if k == h then true else member h ks

-- std::set::insert
abbrev add_member : ℕ → List ℕ → List ℕ
add_member h ks = if member h ks then ks else h ∷ ks

-- The loop of updateTransaction over m_unconfirmed.
unfoldable pub confirm_seen : List (ℕ × ℕ) → Exchange → Exchange
confirm_seen [] e = e
confirm_seen ((h, id) ∷ rest) e =
    let confirmed = store id (confirm h (transaction id e)).0 e in
    confirm_seen rest (
      if member h e.wallet_transactions
      then record confirmed { unconfirmed = erase h e.unconfirmed }
      else e)

unfoldable pub update_transaction : ℕ → Exchange → Exchange
unfolding confirm_seen
update_transaction h e =
    confirm_seen e.unconfirmed
      (record e { wallet_transactions = add_member h e.wallet_transactions })

-- pendingTransactions(); a pointer of the list comes with the key that it stands under.
abbrev pub pending_transactions : Exchange → List (ℕ × Transaction)
pending_transactions e = e.pending

-- The test of transactions(true).
unfoldable pub is_over : ℕ → Transaction → Bool
is_over now t =
    is_expired now t || (not (is_valid t) || (is_finished t || t.state =s State.tr_confirmed))

unfoldable pub select_over : ℕ → List (ℕ × Transaction) → List (ℕ × Transaction)
select_over now [] = []
select_over now ((k, t) ∷ m) =
    if is_over now t then (k, t) ∷ select_over now m else select_over now m

-- transactions(onlyFinished)
unfoldable pub list_transactions : ℕ → Bool → Exchange → List (ℕ × Transaction)
unfolding select_over
list_transactions now only_finished e =
    if only_finished then select_over now e.transactions else e.transactions

abbrev pub finished_transactions : ℕ → Exchange → List (ℕ × Transaction)
finished_transactions now e = list_transactions now true e

-- listOfWallets: the configured names and titles.
unfoldable pub list_of_wallets : List (Bytes × WalletParam) → List (Bytes × Bytes)
list_of_wallets settings = map (λ s. (s.0, s.1.title)) settings

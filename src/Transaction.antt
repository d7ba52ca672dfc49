-- ===== src/Transaction.antt =====
-- XBridgeTransaction and XBridgeTransactionMember (src/xbridgetransaction.cpp and .h,
-- src/xbridgetransactionmember.h): a trade between two clients as the hub sees it. A method that
-- changes the object returns the new record; the time of day is an argument, in seconds. Logs are
-- left out.
pub mod Phases
pub mod Protocol
pub mod Join
pub mod Trades
pub mod Currencies
pub mod Core
use xhubv.Prelude.{
  ℕ, ◌+◌, ◌%◌, ◌^◌, [], ◌++◌, Bool, true, false, not, ◌&&◌, ◌||◌, Option, none, some, Bytes,
  bytes_eq, le_bytes, ltb, leb, ◌==◌, if◌then◌else◌,
}
use xhubv.Hash.{hash}

pub data State : Type 0 where
  tr_invalid tr_new tr_joined tr_hold tr_initialized tr_created tr_signed tr_commited tr_confirmed
        tr_finished tr_cancelled tr_dropped :
      State

-- The enumeration's numbers.
abbrev pub state_code : State → ℕ
state_code State.tr_invalid = 0
state_code State.tr_new = 1
state_code State.tr_joined = 2
state_code State.tr_hold = 3
state_code State.tr_initialized = 4
state_code State.tr_created = 5
state_code State.tr_signed = 6
state_code State.tr_commited = 7
state_code State.tr_confirmed = 8
state_code State.tr_finished = 9
state_code State.tr_cancelled = 10
state_code State.tr_dropped = 11

infix 50 ◌=s◌
abbrev pub ◌=s◌ : State → State → Bool
a =s b = state_code a == state_code b

-- TTL, in seconds
abbrev pub ttl : ℕ
ttl = 150

pub record Member : Type 0 where
  pub id : ℕ
  pub source : Bytes
  pub dest : Bytes

pub record Transaction : Type 0 where
  pub id : ℕ
  pub created : Option ℕ  -- none: not_a_date_time
  pub state : State
  pub first_changed : Bool
  pub second_changed : Bool
  pub confirmations : ℕ  -- unsigned int
  pub source_currency : Bytes
  pub dest_currency : Bytes
  pub source_amount : ℕ
  pub dest_amount : ℕ
  pub raw_pay_tx1 : Bytes
  pub raw_rev_tx1 : Bytes
  pub raw_pay_tx2 : Bytes
  pub raw_rev_tx2 : Bytes
  pub tx_hash1 : ℕ
  pub tx_hash2 : ℕ
  pub first : Member
  pub second : Member

abbrev pub no_member : Member
no_member = record { id = 0; source = []; dest = [] }

-- XBridgeTransaction(); the amounts, which it leaves unset, are 0.
unfoldable pub invalid_transaction : Transaction
invalid_transaction = record {
  id = 0;
  created = none;
  state = State.tr_invalid;
  first_changed = false;
  second_changed = false;
  confirmations = 0;
  source_currency = [];
  dest_currency = [];
  source_amount = 0;
  dest_amount = 0;
  raw_pay_tx1 = [];
  raw_rev_tx1 = [];
  raw_pay_tx2 = [];
  raw_rev_tx2 = [];
  tx_hash1 = 0;
  tx_hash2 = 0;
  first = no_member;
  second = no_member;
}

-- The constructor from a client's order.
unfoldable pub new_transaction : ℕ → ℕ → Bytes → Bytes → ℕ → Bytes → Bytes → ℕ → Transaction
unfolding invalid_transaction
new_transaction now id source_addr source_currency source_amount dest_addr dest_currency
      dest_amount =
    record invalid_transaction {
      id = id;
      created = some now;
      state = State.tr_new;
      source_currency = source_currency;
      dest_currency = dest_currency;
      source_amount = source_amount;
      dest_amount = dest_amount;
      first = record { id = id; source = source_addr; dest = dest_addr };
    }

-- One branch of increaseStateCounter: note which of the two sent, and go on to `next` once both
-- have.
unfoldable pub count_party : State → Bytes → Bytes → Bytes → Transaction → Transaction
count_party next from addr1 addr2 t =
    let is_first = bytes_eq from addr1 in
    let f = t.first_changed || is_first in
    let s = t.second_changed || (not is_first && bytes_eq from addr2) in
    if f && s
    then record t { state = next; first_changed = false; second_changed = false }
    else record t { first_changed = f; second_changed = s }

by_sources : State → Bytes → Transaction → Transaction × State
by_sources next from t =
    let t' = count_party next from t.first.source t.second.source t in (t', t'.state)

by_dests : State → Bytes → Transaction → Transaction × State
by_dests next from t = let t' = count_party next from t.first.dest t.second.dest t in (t', t'.state)

-- The branches of increaseStateCounter, for a transaction in the state `s`.
advance : State → Bytes → Transaction → Transaction × State
unfolding by_sources by_dests
advance State.tr_joined from t = by_sources State.tr_hold from t
advance State.tr_hold from t = by_dests State.tr_initialized from t
advance State.tr_initialized from t = by_sources State.tr_created from t
advance State.tr_created from t = by_dests State.tr_signed from t
advance State.tr_signed from t = by_sources State.tr_commited from t
advance State.tr_commited from t = by_dests State.tr_finished from t
advance _ from t = (t, State.tr_invalid)

-- increaseStateCounter: the new object and the state that is returned.
unfoldable pub increase_state_counter : State → Bytes → Transaction → Transaction × State
unfolding advance
increase_state_counter s from t = if s =s t.state then advance s from t else (t, State.tr_invalid)

unfoldable pub update_timestamp : ℕ → Transaction → Transaction
update_timestamp now t = record t { created = some now }

unfoldable pub is_finished : Transaction → Bool
is_finished t =
    t.state =s State.tr_cancelled || (t.state =s State.tr_finished || t.state =s State.tr_dropped)

unfoldable pub is_valid : Transaction → Bool
is_valid t = not (t.state =s State.tr_invalid)

-- total_seconds() > TTL. What is left of not_a_date_time is a very large number of seconds.
unfoldable pub is_expired : ℕ → Transaction → Bool
is_expired now t = elim t.created [ none ↦ true | some c ↦ ltb (c + ttl) now ]

unfoldable pub cancel : Transaction → Transaction
cancel t = record t { state = State.tr_cancelled }

unfoldable pub drop : Transaction → Transaction
drop t = record t { state = State.tr_dropped }

unfoldable pub finish : Transaction → Transaction
finish t = record t { state = State.tr_finished }

unfoldable pub confirm : ℕ → Transaction → Transaction × Bool
confirm h t =
    if t.tx_hash1 == h || t.tx_hash2 == h
    then (let n = (t.confirmations + 1) % 2 ^ 32 in
        let t' = record t { confirmations = n } in
        if leb 2 n then (record t' { state = State.tr_confirmed }, true) else (t', false))
    else (t, false)

module _ (sha256 : Bytes → Bytes) where
  unfoldable pub hash1 : Transaction → ℕ
  hash1 t = hash sha256 (
      t.source_currency
      ++ (le_bytes 8 t.source_amount ++ (t.dest_currency ++ le_bytes 8 t.dest_amount)))

  unfoldable pub hash2 : Transaction → ℕ
  hash2 t = hash sha256 (
      t.dest_currency
      ++ (le_bytes 8 t.dest_amount ++ (t.source_currency ++ le_bytes 8 t.source_amount)))

  -- tryJoin, of `t` with `other`.
  unfoldable pub try_join : Transaction → Transaction → Transaction × Bool
  try_join t other =
      if not (t.state =s State.tr_new) || not (other.state =s State.tr_new)
      then (t, false)
      else if not (bytes_eq t.source_currency other.dest_currency)
          || not (bytes_eq t.dest_currency other.source_currency)
      then (t, false)
      else if not (t.source_amount == other.dest_amount)
          || not (t.dest_amount == other.source_amount)
      then (t, false)
      else (
        record t {
          second = other.first;
          id = hash sha256 (le_bytes 32 t.id ++ le_bytes 32 other.id);
          state = State.tr_joined;
        },
        true,
      )

unfoldable pub set_raw_pay_tx : Bytes → Bytes → Bytes → Transaction → Transaction × Bool
set_raw_pay_tx addr pay rev t =
    if bytes_eq t.second.source addr
    then (record t { raw_pay_tx2 = pay; raw_rev_tx2 = rev }, true)
    else if bytes_eq t.first.source addr
    then (record t { raw_pay_tx1 = pay; raw_rev_tx1 = rev }, true)
    else (t, false)

unfoldable pub update_raw_rev_tx : Bytes → Bytes → Transaction → Transaction × Bool
update_raw_rev_tx addr rev t =
    if bytes_eq t.second.dest addr
    then (record t { raw_rev_tx1 = rev }, true)
    else if bytes_eq t.first.dest addr
    then (record t { raw_rev_tx2 = rev }, true)
    else (t, false)

unfoldable pub set_tx_hash : Bytes → ℕ → Transaction → Transaction × Bool
set_tx_hash addr h t =
    if bytes_eq t.second.source addr
    then (record t { tx_hash1 = h }, true)
    else if bytes_eq t.first.source addr
    then (record t { tx_hash2 = h }, true)
    else (t, false)

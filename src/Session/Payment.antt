-- ===== src/Session/Payment.antt =====
-- processTransactionCreate and processTransactionCreateBTC (src/xbridgesession.cpp): a client builds the
-- payment of its half of a trade and the refund that gives the payment back. What the Bitcoin client's
-- code does with a transaction, and the arithmetic of `double`, are parameters.
pub mod Coins
pub mod Amounts
pub mod Sound
pub mod Asked
pub mod RoundTrip
use xhubv.Prelude.{
  ℕ, ◌+◌, ◌-◌, ◌*◌, ◌/◌, ◌%◌, ◌^◌, List, [], ◌∷◌, Bool, true, false, not, Option, none, some, Bytes,
  lookup, assign, ℕ-key, ltb, leb, ◌==◌, if◌then◌else◌, ◌>>=◌, map, map_option, ℤ, to_int64,
}
use xhubv.Packet.{Packet, XBridgeCommand, size, data_at, append_string}
use xhubv.Session.{Node, Descr, DescrState, send_packet_broadcast, uint256_at, uint32_at}
use xhubv.Session.Upkeep.{send_cancel_transaction}
use xhubv.Session.Client.{answer}
use xhubv.Session.Wallet.{Rpc}

-- `double`, with the conversions from and to a 64-bit word.
pub record Doubles : Type 1 where
  pub Double : Type 0
  pub of_uint64 : ℕ → Double
  pub to_uint64 : Double → ℕ
  pub plus : Double → Double → Double
  pub times : Double → Double → Double
  pub over : Double → Double → Double

-- rpc::Unspent
pub record Unspent (D : Type 0) : Type 0 where
  pub tx_id : Bytes
  pub vout : ℕ
  pub amount : D

-- COutPoint of an input, CTxOut, and CTransaction or CBTCTransaction; the version is the constructor's.
pub record TxIn : Type 0 where
  pub prev_hash : ℕ
  pub prev_n : ℕ

pub record TxOut (S : Type 0) : Type 0 where
  pub value : ℤ  -- int64 nValue
  pub script : S

pub record Tx (S : Type 0) : Type 0 where
  pub time : ℕ
  pub vin : List TxIn
  pub vout : List (TxOut S)
  pub lock_time : ℕ

-- txToString and the hash of what txFromString reads at a time, for one of the two formats.
pub record Codec (S : Type 0) : Type 0 where
  pub to_text : Tx S → Bytes
  pub hash_of : ℕ → Bytes → ℕ

pub record Bitcoin : Type 1 where
  pub Script : Type 0
  pub of_key : Bytes → ℕ → Script  -- destination(address, prefix)
  pub of_address : Bytes → Script  -- destination(address)
  pub hex_value : Bytes → ℕ  -- uint256(const std::string &)
  pub plain : Codec Script  -- CTransaction
  pub btc : Codec Script  -- CBTCTransaction

-- The session's settings, and its wallet's answers: listUnspent, and getNewAddress for the rest of the
-- payment and for the refund.
pub record Wallet (D : Type 0) : Type 0 where
  pub coin : ℕ
  pub prefix : ℕ
  pub unspent : Option (List (Unspent D))
  pub change_address : Option Bytes
  pub refund_address : Option Bytes

-- What a packet asks of a client.
pub record Request : Type 0 where
  pub me : Bytes
  pub hub : Bytes
  pub id : ℕ
  pub dest : Bytes
  pub lock_time1 : ℕ
  pub lock_time2 : ℕ

-- XBridgeTransactionDescr::MIN_TX_FEE and COIN
abbrev pub min_tx_fee : ℕ
min_tx_fee = 100

abbrev pub descr_coin : ℕ
descr_coin = 1000000

-- a - b of two 64-bit words
abbrev pub sub64 : ℕ → ℕ → ℕ
sub64 a b = (a + 2 ^ 64 - b % 2 ^ 64) % 2 ^ 64

unfoldable pub fee : ℕ → ℕ
fee coin = coin * min_tx_fee % 2 ^ 64 / descr_coin

module _ (f : Doubles) where
  open f use {Double, of_uint64, to_uint64, plus, times, over}

  unfoldable pub out_amount : ℕ → ℕ → ℕ
  unfolding fee
  out_amount coin from_amount = to_uint64 (
      plus (times (of_uint64 coin) (over (of_uint64 from_amount) (of_uint64 descr_coin)))
        (of_uint64 (fee coin)))

  -- inAmount += entry.amount*m_COIN
  unfoldable pub add_coin : ℕ → ℕ → Unspent Double → ℕ
  add_coin coin acc e = to_uint64 (plus (of_uint64 acc) (times e.amount (of_uint64 coin)))

  -- The loop over the wallet's coins: those used, and what they amount to.
  unfoldable pub choose : ℕ → ℕ → ℕ → List (Unspent Double) → List (Unspent Double) × ℕ
  unfolding add_coin
  choose coin out acc [] = ([], acc)
  choose coin out acc (e ∷ es) =
      let acc' = add_coin coin acc e in
      let (used, sum) = choose coin out acc' es in
      if leb out acc' then (e ∷ [], acc') else (e ∷ used, sum)

  module _ (b : Bitcoin) where
    open b use {Script, of_key, of_address, hex_value}

    -- `nLockTime` is 32 bits wide.
    unfoldable pub payment :
        ℕ → Wallet Double → Request → List (Unspent Double) → ℕ → List (TxOut Script) → Tx Script
    payment now w r used out rest = record {
      time = now;
      vin = map (λ e. record { prev_hash = hex_value e.tx_id; prev_n = e.vout }) used;
      vout =
          record { value = to_int64 (sub64 out (fee w.coin)); script = of_key r.dest w.prefix }
          ∷ rest;
      lock_time = (now + r.lock_time1) % 2 ^ 32;
    }

    unfoldable pub refund : ℕ → Wallet Double → Request → ℕ → ℕ → Bytes → Tx Script
    refund now w r pay_id out addr = record {
      time = now;
      vin = record { prev_hash = pay_id; prev_n = 0 } ∷ [];
      vout =
          record { value = to_int64 (sub64 out (2 * fee w.coin)); script = of_address addr } ∷ [];
      lock_time = (now + r.lock_time2) % 2 ^ 32;
    }

    -- The rest of the coins goes to an address of the wallet's own; `none` if it gives none.
    unfoldable pub change : Wallet Double → ℕ → ℕ → Option (List (TxOut Script))
    change w sum out =
        if ltb out sum
        then map_option
            (λ addr. record { value = to_int64 (sum - out); script = of_address addr } ∷ [])
            w.change_address
        else some []

    module _ (c : Codec Script) (w : Wallet Double) (rpc : Rpc) (now : ℕ) (r : Request) (ptr : ℕ)
        (d : Descr) (n : Node) where
      cancelled : Node → Node × Bool
      cancelled m = (send_cancel_transaction now r.id m, false)

      -- The payment is signed: it is kept, and the refund is built.
      refund_signed : ℕ → Bytes → Bytes → Node × Bool
      unfolding cancelled refund
      refund_signed out unsigned1 signed1 =
          let d' = record d { pay_tx_id = c.hash_of now signed1; pay_tx = signed1 } in
          elim w.refund_address [
            | none ↦ cancelled (record n { heap = assign ptr d' n.heap })
            | some addr ↦
                let unsigned2 = c.to_text (refund now w r d'.pay_tx_id out addr) in
                let d'' = record d' { rev_tx = unsigned2; state = DescrState.tr_created } in
                (
                  send_packet_broadcast
                      (append_string unsigned2 (
                        append_string unsigned1
                          (answer now XBridgeCommand.xbc_transaction_created r.hub r.me r.id)))
                      (record n { heap = assign ptr d'' n.heap }),
                  true,
                )
          ]

      sign_payment : List (Unspent Double) → ℕ → List (TxOut Script) → Node × Bool
      unfolding refund_signed payment
      sign_payment used out rest =
          let unsigned1 = c.to_text (payment now w r used out rest) in
          elim (rpc.sign_raw unsigned1) [
            | none ↦ cancelled n
            | some signed1 ↦ refund_signed out unsigned1 signed1
          ]

      unfoldable pub pay_from : List (Unspent Double) → Node × Bool
      unfolding out_amount choose change sign_payment
      pay_from entries =
          let out = out_amount w.coin d.from_amount in
          let (used, sum) = choose w.coin out 0 entries in
          if ltb sum out then cancelled n else elim (change w sum out) [
            | none ↦ cancelled n
            | some rest ↦ sign_payment used out rest
          ]

      unfoldable pub create_mine : Node × Bool
      unfolding pay_from
      create_mine = elim w.unspent [ none ↦ (n, false) | some entries ↦ pay_from entries ]

    module _ (c : Codec Script) (w : Wallet Double) (rpc : Rpc) (now : ℕ) where
      unfoldable pub create_found : Request → Option ℕ → Node → Option (Node × Bool)
      unfolding create_mine
      create_found r none n = some (n, false)
      create_found r (some ptr) n = do
        d ← lookup ptr n.heap
        some (create_mine c w rpc now r ptr d n)

      unfoldable pub create_with : Packet → Node → Option (Node × Bool)
      unfolding create_found
      create_with p n = if not (size p == 100) then some (n, false) else do
        me ← data_at 0 20 p
        hub ← data_at 20 20 p
        id ← uint256_at 40 p
        dest ← data_at 72 20 p
        lock1 ← uint32_at 92 p
        lock2 ← uint32_at 96 p
        let r : Request = record {
          me = me;
          hub = hub;
          id = id;
          dest = dest;
          lock_time1 = lock1;
          lock_time2 = lock2;
        }
        create_found r (lookup id n.my_transactions) n

    module _ (w : Wallet Double) (rpc : Rpc) (now : ℕ) where
      unfoldable pub process_transaction_create : Packet → Node → Option (Node × Bool)
      unfolding create_with
      process_transaction_create p n = create_with b.plain w rpc now p n

      unfoldable pub process_transaction_create_btc : Packet → Node → Option (Node × Bool)
      unfolding create_with
      process_transaction_create_btc p n = create_with b.btc w rpc now p n

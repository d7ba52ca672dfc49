-- ===== src/Session/Payment/Amounts.antt =====
-- What the payment and the refund of processTransactionCreate pay.
use xhubv.Prelude.{
  ℕ, suc, ◌+◌, ◌-◌, ◌*◌, ◌^◌, ◌≤◌, ◌<◌, ◌≡◌, refl, ap, ◌∙◌, List, [], ◌∷◌, arith, Option, none,
  some, Bytes, ltb, Bool-cases, inl, inr, map_option, ℤ, ◌+ℤ◌, to_int64, to_int64-pos,
  to_int64-negsuc,
}
use xhubv.Session.Payment.{
  Doubles, Bitcoin, Unspent, Wallet, Request, TxOut, fee, sub64, payment, refund, change, choose,
  out_amount,
}
use xhubv.Session.Payment.Coins.{worth, choose-IsShortest}

-- The sum of a transaction's outputs.
abbrev pub paid : {S : Type 0} → List (TxOut S) → ℤ
paid [] = ℤ.pos 0
paid (o ∷ os) = o.value +ℤ paid os

sub64-le : (a c : ℕ) → c ≤ a → a < 2 ^ 64 → sub64 a c ≡ a - c
sub64-le a c h w = omega arith

sub64-lt : (a c : ℕ) → a < c → c < 2 ^ 64 → sub64 a c ≡ a + 2 ^ 64 - c
sub64-lt a c h w = omega arith

fee_small : (coin : ℕ) → 2 * fee coin < 2 ^ 46
unfolding fee
fee_small coin = omega arith

module _ (f : Doubles) (b : Bitcoin) (w : Wallet f.Double) (sum out : ℕ) (word : sum < 2 ^ 63) where
  paid-one :
      (o : Option Bytes) (rest : List (TxOut b.Script))
      → map_option
          (λ addr. record { value = to_int64 (sum - out); script = b.of_address addr } ∷ [])
          o
        ≡ some rest
      → paid rest ≡ ℤ.pos (sum - out)
  unfolding ◌+ℤ◌
  paid-one none rest e = cc
  paid-one (some addr) rest e =
      let same : record { value = to_int64 (sum - out); script = b.of_address addr } ∷ [] ≡ rest =
        cc in
      rw (← same, to_int64-pos (sum - out) (omega arith)) (ap ℤ.pos (omega arith))

  paid-change :
      (rest : List (TxOut b.Script))
      → change f b w sum out ≡ some rest
      → paid rest ≡ ℤ.pos (sum - out)
  unfolding change
  paid-change rest e = elim (Bool-cases (ltb out sum)) [
    | inl more ↦ paid-one w.change_address rest (rw more at e)
    | inr exact ↦
        let e' : some [] ≡ some rest = rw exact at e in
        let same : [] ≡ rest = cc in rw (← same) (ap ℤ.pos (ground arith))
  ]

module _ (f : Doubles) (b : Bitcoin) (now : ℕ) (w : Wallet f.Double) (r : Request) where
  value_less : (out c : ℕ) → c ≤ out → out < 2 ^ 63 → to_int64 (sub64 out c) ≡ ℤ.pos (out - c)
  value_less out c h small =
      ap to_int64 (sub64-le out c h (omega arith)) ∙ to_int64-pos (out - c) (omega arith)

  -- What processTransactionCreate pays for an order of `amount`, with the fee, and the coins that it takes for it.
  abbrev pub cost : ℕ → ℕ
  cost amount = out_amount f w.coin amount

  abbrev pub taken : ℕ → List (Unspent f.Double) → List (Unspent f.Double) × ℕ
  taken amount entries = choose f w.coin (cost amount) 0 entries

  -- Let a trade cost its amount with the fee, and let the client take coins for the cost. If the
  -- sum of the coins taken is at least the cost and less than 2 ^ 63, the cost is at least two
  -- fees, and the rest has got an address where one is left, then the outputs of the payment and
  -- one fee make up what the coins taken are worth, and the outputs of the refund and two fees
  -- make up the cost. Outputs are 64-bit numbers with a sign.
  pub payment_balances :
      (amount : ℕ) (entries : List (Unspent f.Double)) (rest : List (TxOut b.Script)) (pay_id : ℕ)
      (addr : Bytes)
      → cost amount ≤ (taken amount entries).1
      → (taken amount entries).1 < 2 ^ 63
      → change f b w (taken amount entries).1 (cost amount) ≡ some rest
      → 2 * fee w.coin ≤ cost amount
      → (paid (payment f b now w r (taken amount entries).0 (cost amount) rest).vout
            +ℤ ℤ.pos (fee w.coin)
          ≡ ℤ.pos (worth f w.coin (cost amount) 0 (taken amount entries).0))
        × (paid (refund f b now w r pay_id (cost amount) addr).vout +ℤ ℤ.pos (2 * fee w.coin)
            ≡ ℤ.pos (cost amount))
  unfolding payment refund ◌+ℤ◌
  payment_balances amount entries rest pay_id addr enough word e fees =
      let sum = (taken amount entries).1 in
      let shortest = choose-IsShortest f w.coin (cost amount) 0 entries in
      (
        rw
            (
              value_less (cost amount) (fee w.coin) (omega arith) (omega arith),
              paid-change f b w sum (cost amount) word rest e,
            )
            (ap ℤ.pos (omega (arith, shortest.worth_used))),
        rw (value_less (cost amount) (2 * fee w.coin) fees (omega arith)) (ap ℤ.pos (omega arith)),
      )

  -- If the amount with its fee is at least one fee but less than two, the payment begins with an
  -- output of the amount with its fee less one fee, which is not negative, and the only output
  -- of the refund has a negative value, two fees less than the amount with its fee.
  pub refund_negative :
      (used : List (Unspent f.Double)) (rest : List (TxOut b.Script)) (out pay_id : ℕ)
      (addr : Bytes)
      → fee w.coin ≤ out
      → out < 2 * fee w.coin
      → ((payment f b now w r used out rest).vout
          ≡ record { value = ℤ.pos (out - fee w.coin); script = b.of_key r.dest w.prefix } ∷ rest)
        × ((refund f b now w r pay_id out addr).vout
            ≡ record { value = ℤ.negsuc (2 * fee w.coin - suc out); script = b.of_address addr }
              ∷ [])
  unfolding payment refund
  refund_negative used rest out pay_id addr h low =
      let word = sub64-lt out (2 * fee w.coin) low (omega (arith, fee_small w.coin)) in
      (
        rw (value_less out (fee w.coin) h (omega (arith, fee_small w.coin))) refl,
        rw
            (to_int64-negsuc (sub64 out (2 * fee w.coin)) (2 * fee w.coin - suc out)
              (omega (arith, word, fee_small w.coin)) (omega (arith, word, fee_small w.coin)))
            refl,
      )

-- ===== src/Session/Payment/Coins.antt =====
-- The loop of processTransactionCreate over the wallet's coins takes the shortest sufficient prefix.
use xhubv.Prelude.{
  ℕ, ◌≤◌, ◌<◌, ◌≡◌, ◌≢◌, refl, ap, List, [], ◌∷◌, ◌++◌, arith, ◌⊎◌, inl, inr, leb, Bool-cases,
  leb→le,
}
use xhubv.Session.Payment.{Doubles, Unspent, add_coin, choose}

module _ (f : Doubles) (coin out : ℕ) where
  abbrev Coin : Type 0
  Coin = Unspent f.Double

  -- What some coins amount to, added one after the other.
  abbrev pub worth : ℕ → List Coin → ℕ
  worth acc [] = acc
  worth acc (e ∷ es) = worth (add_coin f coin acc e) es

  -- Every nonempty proper prefix of the coins falls short of `out`.
  abbrev pub FallShort : ℕ → List Coin → Type 0
  FallShort acc used =
      (us vs : List Coin) (v : Coin) → used ≡ us ++ v ∷ vs → us ≢ [] → worth acc us < out

  -- `used` is the shortest nonempty prefix of `es` that is worth `out`, or all of `es` if none is.
  pub record IsShortest (acc : ℕ) (es used : List Coin) (sum : ℕ) : Type 0 where
    pub left : List Coin
    pub prefix : es ≡ used ++ left
    pub worth_used : sum ≡ worth acc used
    pub enough : (out ≤ sum) ⊎ (left ≡ [])
    pub shortest : FallShort acc used

  no_coin : (acc : ℕ) → FallShort acc []
  no_coin acc [] vs v q h = cc
  no_coin acc (u ∷ us) vs v q h = cc

  one_coin : (acc : ℕ) (e : Coin) → FallShort acc (e ∷ [])
  one_coin acc e [] vs v q h = absurd (h refl)
  one_coin acc e (u ∷ []) vs v q h = cc
  one_coin acc e (u ∷ u' ∷ us) vs v q h = cc

  more_coins :
      (acc : ℕ) (e : Coin) (used : List Coin)
      → add_coin f coin acc e < out
      → FallShort (add_coin f coin acc e) used
      → FallShort acc (e ∷ used)
  more_coins acc e used low s [] vs v q h = absurd (h refl)
  more_coins acc e used low s (u ∷ []) vs v q h = let same : e ≡ u = cc in rw (← same) low
  more_coins acc e used low s (u ∷ u' ∷ us) vs v q h =
      let same : e ≡ u = cc in
      let rest : used ≡ (u' ∷ us) ++ v ∷ vs = cc in rw (← same) (s (u' ∷ us) vs v rest (cc))

  -- The loop over the wallet's coins takes a prefix of them, and the sum that it returns is what
  -- adding the taken coins one after the other gives. The sum reaches the amount wanted or all
  -- coins are taken, and every nonempty proper prefix of the taken coins falls short of the
  -- amount.
  pub choose-IsShortest :
      (acc : ℕ) (es : List Coin)
      → IsShortest acc es (choose f coin out acc es).0 (choose f coin out acc es).1
  unfolding choose
  choose-IsShortest acc [] = record {
    left = [];
    prefix = refl;
    worth_used = refl;
    enough = inr refl;
    shortest = no_coin acc;
  }
  choose-IsShortest acc (e ∷ es) =
      let ih = choose-IsShortest (add_coin f coin acc e) es in
      elim (Bool-cases (leb out (add_coin f coin acc e))) [
        | inl reached ↦ rw reached (record {
          left = es;
          prefix = refl;
          worth_used = refl;
          enough = inl (leb→le _ _ reached);
          shortest = one_coin acc e;
        })
        | inr short ↦ rw short (record {
          left = ih.left;
          prefix = ap (λ x. e ∷ x) ih.prefix;
          worth_used = ih.worth_used;
          enough = ih.enough;
          shortest = more_coins acc e _ (ground arith) ih.shortest;
        })
      ]

-- ===== src/Session/Updates.antt =====
-- What the handlers' proofs of soundness share: a postcondition of an optional result with its rules,
-- and that each update of the exchange leaves a trade a trade.
use xhubv.Prelude.{
  ℕ, refl, ◌≡◌, refl, Bool, true, false, not, ◌||◌, Option, none, some, Bytes, bytes_eq, ltb,
  if◌then◌else◌, Bool-cases, inl, inr, ◌>>=◌,
}
use xhubv.Packet.{Packet, data_at, size}
use xhubv.Transaction.{State, Transaction, set_raw_pay_tx, update_raw_rev_tx, set_tx_hash}
use xhubv.Transaction.Trades.{
  IsTrade, increase-IsTrade, set_raw_pay_tx-IsTrade, update_raw_rev_tx-IsTrade, set_tx_hash-IsTrade,
}
use xhubv.Exchange.{
  Exchange, transaction, is_enabled, update_when_hold_apply_received,
  update_when_initialized_received, update_when_created_received, update_when_signed_received,
  update_when_commited_received, update_when_confirmed_received,
}
use xhubv.Exchange.Invariant.{IsSound, store-IsSound, with_unconfirmed}
use xhubv.Session.{Node, relay_packet, for_exchange, write_back, send_packet}

-- A run that stays inside its buffers ends in a value that satisfies `P`.
abbrev pub Ensures {ℓ κ} : {A : Type ℓ} → (A → Type κ) → Option A → Type κ
Ensures P none = Unit
Ensures P (some a) = P a

-- A run that stays inside its buffers, and ends in a value that satisfies `P`.
abbrev pub Yields {ℓ κ} : {A : Type ℓ} → (A → Type κ) → Option A → Type (ℓ ⊔ κ)
Yields {A = A} P m = (a : A) × (m ≡ some a) × P a

pub Ensures-bind {ℓ κ ι} :
    {A : Type ℓ} {B : Type ι} (P : B → Type κ) (m : Option A) (f : A → Option B)
    → ((a : A) → Ensures P (f a))
    → Ensures P (m >>= f)
Ensures-bind P none f h = tt
Ensures-bind P (some a) f h = h a

pub Ensures-bind_of {ℓ κ ι μ} :
    {A : Type ℓ} {B : Type ι} (Q : A → Type μ) (P : B → Type κ) (m : Option A) (f : A → Option B)
    → Ensures Q m
    → ((a : A) → Q a → Ensures P (f a))
    → Ensures P (m >>= f)
Ensures-bind_of Q P none f q h = tt
Ensures-bind_of Q P (some a) f q h = h a q

pub either {ℓ κ} :
    {A : Type ℓ} (P : A → Type κ) (b : Bool) (x y : A) → P x → P y → P (if b then x else y)
either P true x y h k = h
either P false x y h k = k

module _ (sha256 : Bytes → Bytes) where
  abbrev pub SoundNode : Node → Type 0
  SoundNode n = IsSound sha256 n.exchange

  abbrev pub SoundResult : Node × Bool → Type 0
  SoundResult r = SoundNode r.0

  pub relay_packet-Sound :
      (my_id : Bytes) (p : Packet) (n : Node)
      → SoundNode n
      → Ensures SoundResult (relay_packet my_id p n)
  unfolding relay_packet send_packet
  relay_packet-Sound my_id p n s = either (Ensures SoundResult) (ltb (size p) 20) _ _ s (
      Ensures-bind SoundResult (data_at 0 20 p) _
        λ addr. either SoundResult (bytes_eq addr my_id) _ _ s s)

  pub for_exchange-Sound :
      (my_id : Bytes) (p : Packet) (k : Node → Option (Node × Bool)) (n : Node)
      → ((m : Node) → SoundNode m → Ensures SoundResult (k m))
      → SoundNode n
      → Ensures SoundResult (for_exchange my_id p n k)
  unfolding for_exchange
  for_exchange-Sound my_id p k n h s =
      Ensures-bind_of SoundResult SoundResult (relay_packet my_id p n) _
        (relay_packet-Sound my_id p n s)
        λ r q. either (Ensures SoundResult) (r.1 || not (is_enabled r.0.exchange)) _ _ q (h r.0 q)

  pub write_back-Sound :
      (id : ℕ) (u : Transaction) (n : Node)
      → SoundNode n
      → (IsTrade id (transaction id n.exchange) → IsTrade id u)
      → SoundNode (write_back id u n)
  unfolding write_back
  write_back-Sound id u n s h = store-IsSound sha256 id u s h

-- The updates of a trade.
module _ {k : ℕ} {t : Transaction} (trade : IsTrade k t) where
  pub hold_apply-IsTrade : (from : Bytes) → IsTrade k (update_when_hold_apply_received from t).0
  unfolding update_when_hold_apply_received
  hold_apply-IsTrade from = increase-IsTrade trade State.tr_joined from

  pub initialized-IsTrade : (from : Bytes) → IsTrade k (update_when_initialized_received from t).0
  unfolding update_when_initialized_received
  initialized-IsTrade from = increase-IsTrade trade State.tr_hold from

  pub confirmed-IsTrade : (from : Bytes) → IsTrade k (update_when_confirmed_received from t).0
  unfolding update_when_confirmed_received
  confirmed-IsTrade from = increase-IsTrade trade State.tr_commited from

  pub created-IsTrade :
      (from pay rev : Bytes) → IsTrade k (update_when_created_received from pay rev t).0
  unfolding update_when_created_received
  created-IsTrade from pay rev =
      let u = set_raw_pay_tx-IsTrade trade from pay rev in
      elim (Bool-cases (set_raw_pay_tx from pay rev t).1) [
        | inl known ↦ rw known (increase-IsTrade u State.tr_initialized from)
        | inr unknown ↦ rw unknown u
      ]

  pub signed-IsTrade : (from rev : Bytes) → IsTrade k (update_when_signed_received from rev t).0
  unfolding update_when_signed_received
  signed-IsTrade from rev =
      let u = update_raw_rev_tx-IsTrade trade from rev in
      elim (Bool-cases (update_raw_rev_tx from rev t).1) [
        | inl known ↦ rw known (increase-IsTrade u State.tr_created from)
        | inr unknown ↦ rw unknown u
      ]

  pub commited-IsTrade :
      (from : Bytes) (h : ℕ) (e : Exchange) → IsTrade k (update_when_commited_received from h t e).1
  unfolding update_when_commited_received
  commited-IsTrade from h e =
      let u = set_tx_hash-IsTrade trade from h in
      elim (Bool-cases (set_tx_hash from h t).1) [
        | inl known ↦ rw known (increase-IsTrade u State.tr_signed from)
        | inr unknown ↦ rw unknown u
      ]

-- The exchange that the update of a commited trade returns differs in its unconfirmed hashes only.
module _ (from : Bytes) (h : ℕ) (t : Transaction) (e : Exchange) where
  pub update_when_commited-Sound :
      (sha256 : Bytes → Bytes)
      → IsSound sha256 e
      → IsSound sha256 (update_when_commited_received from h t e).0
  unfolding update_when_commited_received
  update_when_commited-Sound sha256 s = elim (Bool-cases (set_tx_hash from h t).1) [
    | inl known ↦ rw known (with_unconfirmed sha256 s)
    | inr unknown ↦ rw unknown s
  ]

  pub transaction-update_when_commited :
      (id : ℕ) → transaction id (update_when_commited_received from h t e).0 ≡ transaction id e
  unfolding update_when_commited_received transaction
  transaction-update_when_commited id = elim (Bool-cases (set_tx_hash from h t).1) [
    | inl known ↦ rw known refl
    | inr unknown ↦ rw unknown refl
  ]

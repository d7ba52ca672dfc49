-- ===== src/Session/Total.antt =====
-- The handlers of packets of a fixed size stay inside the packet.
use xhubv.Prelude.{
  ℕ, ◌+◌, ◌≤◌, ◌≡◌, refl, ap, ◌∙◌, arith, Bool, true, false, not, ◌||◌, Option, some, Bytes,
  le_value, ltb, slice_inside, ◌==◌, ==_iff, if◌then◌else◌, ◌>>=◌,
}
use xhubv.Packet.{Packet, size, payload, data_at}
use xhubv.Packet.Append.{IsFramed}
use xhubv.Exchange.{is_enabled}
use xhubv.Session.{Node, relay_packet, for_exchange, uint256_at}
use xhubv.Session.Hub.{process_transaction_initialized, initialized}
use xhubv.Session.Settle.{
  process_transaction_commited, commited, process_transaction_confirmed, confirmed,
  process_bitcoin_transaction_hash,
}
use xhubv.Session.Upkeep.{process_transaction_cancel}

-- The run stays inside its buffers.
abbrev pub Returns {ℓ} : {A : Type ℓ} → Option A → Type ℓ
Returns {A = A} m = (a : A) × (m ≡ some a)

returned {ℓ} : {A : Type ℓ} (a : A) → Returns (some a)
returned a = (a, refl)

Returns-bind {ℓ κ} :
    {A : Type ℓ} {B : Type κ} (m : Option A) (f : A → Option B)
    → Returns m
    → ((a : A) → Returns (f a))
    → Returns (m >>= f)
Returns-bind m f r h = ((h r.0).0, ap (λ o. o >>= f) r.1 ∙ (h r.0).1)

Returns-if {ℓ} :
    {A : Type ℓ} (b : Bool) (x y : Option A)
    → (b ≡ true → Returns x)
    → (b ≡ false → Returns y)
    → Returns (if b then x else y)
Returns-if true x y h k = h refl
Returns-if false x y h k = k refl

same : (a b : ℕ) → not (a == b) ≡ false → a ≡ b
same a b h = ground (arith, ==_iff a b)

module _ (p : Packet) (framed : IsFramed p) where
  pub data_inside : (off n : ℕ) → off + n ≤ size p → Returns (data_at off n p)
  data_inside off n h = slice_inside off n (payload p) (omega (arith, framed.sized))

  pub uint256_inside : (off : ℕ) → off + 32 ≤ size p → Returns (uint256_at off p)
  unfolding uint256_at
  uint256_inside off h =
      Returns-bind (data_at off 32 p) (λ b. some (le_value b)) (data_inside off 32 h)
        λ b. returned (le_value b)

  module _ (my_id : Bytes) where
    relay_packet-Returns : (n : Node) → Returns (relay_packet my_id p n)
    unfolding relay_packet
    relay_packet-Returns n =
        Returns-if (ltb (size p) 20) _ _ (λ small. returned (n, false))
          (λ large.
            Returns-bind (data_at 0 20 p) _ (data_inside 0 20 (ground arith)) λ addr. returned _)

    for_exchange-Returns :
        (n : Node) (k : Node → Option (Node × Bool))
        → ((m : Node) → Returns (k m))
        → Returns (for_exchange my_id p n k)
    unfolding for_exchange
    for_exchange-Returns n k h =
        Returns-bind (relay_packet my_id p n) _ (relay_packet-Returns n) λ r.
          Returns-if (r.1 || not (is_enabled r.0.exchange)) _ _ (λ stop. returned (r.0, true))
            (λ go. h r.0)

  -- The two fields of a client's answer, and what is done with them.
  answer_inside :
      (f : Bytes → ℕ → Option (Node × Bool))
      → 72 ≤ size p
      → ((from : Bytes) (id : ℕ) → Returns (f from id))
      → Returns (do from ← data_at 20 20 p; id ← uint256_at 40 p; f from id)
  answer_inside f h k =
      Returns-bind (data_at 20 20 p) _ (data_inside 20 20 (omega arith))
        λ from. Returns-bind (uint256_at 40 p) _ (uint256_inside 40 (omega arith)) λ id. k from id

  -- On a packet whose size field counts its data, the handlers of the packets of a fixed size
  -- without currencies (initialized, commited, confirmed, received transaction, cancel) never
  -- read outside the packet: each of them returns a node and a result, for every such packet and
  -- every node.
  pub fixed_size-Returns :
      (my_id : Bytes) (now : ℕ) (n : Node)
      → Returns (process_transaction_initialized my_id now p n)
        × Returns (process_transaction_commited my_id now p n)
        × Returns (process_transaction_confirmed my_id now p n)
        × Returns (process_bitcoin_transaction_hash p n)
        × Returns (process_transaction_cancel p n)
  unfolding process_transaction_initialized initialized process_transaction_commited commited
      process_transaction_confirmed confirmed process_bitcoin_transaction_hash
      process_transaction_cancel
  fixed_size-Returns my_id now n = (
    Returns-if (not (size p == 72)) _ _ (λ odd. returned (n, false))
        (λ fits.
          for_exchange-Returns my_id n _
            λ m. answer_inside _ (omega (arith, same (size p) 72 fits)) λ from id. returned _),
    Returns-if (not (size p == 104)) _ _ (λ odd. returned (n, false))
        (λ fits. for_exchange-Returns my_id n _ λ m.
          answer_inside _ (omega (arith, same (size p) 104 fits)) λ from id.
            Returns-bind (uint256_at 72 p) _
              (uint256_inside 72 (omega (arith, same (size p) 104 fits))) λ h. returned _),
    Returns-if (not (size p == 72)) _ _ (λ odd. returned (n, false))
        (λ fits. Returns-bind (relay_packet my_id p n) _ (relay_packet-Returns my_id n) λ r.
          Returns-if r.1 _ _ (λ relayed. returned (r.0, true))
            λ mine. answer_inside _ (omega (arith, same (size p) 72 fits)) λ from id. returned _),
    Returns-if (not (size p == 32)) _ _ (λ odd. returned (n, false))
        (λ fits.
          Returns-if (not (is_enabled n.exchange)) _ _ (λ off. returned (n, true))
            λ on.
              Returns-bind (uint256_at 0 p) _
                (uint256_inside 0 (omega (arith, same (size p) 32 fits))) λ h. returned _),
    Returns-if (not (size p == 32)) _ _ (λ odd. returned (n, false))
        (λ fits.
          Returns-bind (uint256_at 0 p) _ (uint256_inside 0 (omega (arith, same (size p) 32 fits)))
            λ id. returned _),
  )

-- ===== src/Transaction/Join.antt =====
-- tryJoin: which orders are joined, what comes of it, and why the exchange finds a partner by hash2.
use xhubv.Prelude.{
  ◌≡◌, refl, sym, ◌∙◌, ◌↔◌, arith, true, ◌++◌, Bytes, bytes_eq_iff, le_bytes, if◌then◌else◌,
}
use xhubv.Hash.{hash}
use xhubv.Transaction.{State, Transaction, ◌=s◌, try_join, hash1, hash2}

-- Two open orders that ask for what the other offers.
pub record Matches (t other : Transaction) : Type 0 where
  pub open_first : t.state ≡ State.tr_new
  pub open_second : other.state ≡ State.tr_new
  pub offered : t.source_currency ≡ other.dest_currency
  pub wanted : t.dest_currency ≡ other.source_currency
  pub offered_amount : t.source_amount ≡ other.dest_amount
  pub wanted_amount : t.dest_amount ≡ other.source_amount

-- What the join makes of the first order.
abbrev pub joined : (Bytes → Bytes) → Transaction → Transaction → Transaction
joined sha256 t other = record t {
  second = other.first;
  id = hash sha256 (le_bytes 32 t.id ++ le_bytes 32 other.id);
  state = State.tr_joined;
}

is_new_iff : (s : State) → ((s =s State.tr_new) ≡ true) ↔ (s ≡ State.tr_new)
is_new_iff s = ground arith

-- tryJoin succeeds exactly if both orders are new and each asks for the currency and the amount
-- that the other offers; on success the first order takes the other's client as its second
-- member, the hash of the two ids as its id, and the state joined, and on failure it stays as it
-- was.
pub try_join_iff :
    (sha256 : Bytes → Bytes) (t other : Transaction)
    → (((try_join sha256 t other).1 ≡ true) ↔ Matches t other)
      × ((try_join sha256 t other).0
          ≡ (if (try_join sha256 t other).1 then joined sha256 t other else t))
unfolding try_join
try_join_iff sha256 t other = (
  (
    λ h. ground (
      arith,
      bytes_eq_iff t.source_currency other.dest_currency,
      bytes_eq_iff t.dest_currency other.source_currency,
    ),
    λ m. ground (
      arith,
      bytes_eq_iff t.source_currency other.dest_currency,
      bytes_eq_iff t.dest_currency other.source_currency,
    ),
  ),
  ground arith,
)

pub try_join_done :
    (sha256 : Bytes → Bytes) (t other : Transaction)
    → (try_join sha256 t other).1 ≡ true
    → (try_join sha256 t other).0 ≡ joined sha256 t other
try_join_done sha256 t other h = (try_join_iff sha256 t other).1 ∙ rw h refl

Matches-symm : {t other : Transaction} → Matches t other → Matches other t
Matches-symm m = record {
  open_first = m.open_second;
  open_second = m.open_first;
  offered = sym m.wanted;
  wanted = sym m.offered;
  offered_amount = sym m.wanted_amount;
  wanted_amount = sym m.offered_amount;
}

-- If tryJoin joins two orders, then hash1 of each is hash2 of the other, so that looking up
-- hash2 finds the partner.
pub hash1-try_join :
    (sha256 : Bytes → Bytes) (t other : Transaction)
    → (try_join sha256 t other).1 ≡ true
    → (hash1 sha256 t ≡ hash2 sha256 other) × (hash2 sha256 t ≡ hash1 sha256 other)
unfolding hash1 hash2
hash1-try_join sha256 t other h =
    let m : Matches t other = (try_join_iff sha256 t other).0.0 h in
    (
      rw (m.offered, m.wanted, m.offered_amount, m.wanted_amount) refl,
      rw (m.offered, m.wanted, m.offered_amount, m.wanted_amount) refl,
    )

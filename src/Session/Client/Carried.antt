-- ===== src/Session/Client/Carried.antt =====
-- The answers that carry payments, and what the hub reads of them.
use xhubv.Prelude.{
  ℕ, ◌+◌, ◌^◌, ◌<◌, ◌≡◌, refl, ap, ◌∙◌, List, [], ◌∷◌, ◌++◌, arith, Bool, true, false, Option, some,
  Bytes, le_bytes, length-le_bytes, le_value-le_bytes, slice, concat, total, slice-concat, ℕ-key,
  bytes_eq_refl, ltb,
}
use xhubv.Packet.{
  Packet, XBridgeCommand, size, payload, data_at, new_packet, append_uint256, append_string,
}
use xhubv.Packet.Parts.{append_all, payload-built, size-built}
use xhubv.Exchange.{is_enabled}
use xhubv.Session.{Node, uint256_at, relay_packet, for_exchange}
use xhubv.Session.Client.{answer}
use xhubv.Session.Client.Answers.{IsAnswer}

-- The answers with what they carry.
abbrev pub created_answer : ℕ → Bytes → Bytes → ℕ → Bytes → Bytes → Packet
created_answer now hub me id pay rev =
    append_string rev
      (append_string pay (answer now XBridgeCommand.xbc_transaction_created hub me id))

abbrev pub signed_answer : ℕ → Bytes → Bytes → ℕ → Bytes → Packet
signed_answer now hub me id rev =
    append_string rev (answer now XBridgeCommand.xbc_transaction_signed hub me id)

abbrev pub commited_answer : ℕ → Bytes → Bytes → ℕ → ℕ → Packet
commited_answer now hub me id h =
    append_uint256 h (answer now XBridgeCommand.xbc_transaction_commited hub me id)

-- A packet whose data is an answer and then `rest`.
pub record Carries (p : Packet) (hub me : Bytes) (id : ℕ) (rest : List Bytes) : Type 0 where
  pub carried : payload p ≡ concat (hub ∷ me ∷ le_bytes 32 id ∷ rest)
  pub sized : size p ≡ 72 + total rest

module _ (p : Packet) (hub me : Bytes) (id : ℕ) (rest : List Bytes) (a : IsAnswer hub me id)
    (c : Carries p hub me id rest) where
  hub_of : data_at 0 20 p ≡ some hub
  hub_of =
      ap (slice 0 20) c.carried
      ∙ slice-concat [] hub (me ∷ le_bytes 32 id ∷ rest) 0 20 refl a.hub_address

  pub client_of : data_at 20 20 p ≡ some me
  client_of =
      ap (slice 20 20) c.carried
      ∙ slice-concat (hub ∷ []) me (le_bytes 32 id ∷ rest) 20 20 (omega (arith, a.hub_address))
          a.my_address

  pub trade_of : uint256_at 40 p ≡ some id
  unfolding uint256_at
  trade_of =
      rw
        (ap (slice 40 32) c.carried
          ∙ slice-concat (hub ∷ me ∷ []) (le_bytes 32 id) rest 40 32
              (omega (arith, a.hub_address, a.my_address)) (length-le_bytes 32 id))
        (ap some (le_value-le_bytes 32 id a.trade))

  for_this : (n : Node) → relay_packet hub p n ≡ some (n, false)
  unfolding relay_packet
  for_this n =
      let large : ltb (size p) 20 ≡ false = ground (arith, c.sized) in
      rw (large, hub_of, bytes_eq_refl hub) refl

  pub for_this_exchange :
      (n : Node) (k : Node → Option (Node × Bool))
      → is_enabled n.exchange ≡ true
      → for_exchange hub p n k ≡ k n
  unfolding for_exchange
  for_this_exchange n k on = rw (for_this n, on) refl

-- An answer followed by appends.
pub Carries-answer :
    (sent : ℕ) (cmd : XBridgeCommand) (hub me : Bytes) (id : ℕ) (rest : List Bytes) (p : Packet)
    → IsAnswer hub me id
    → p ≡ append_all (hub ∷ me ∷ le_bytes 32 id ∷ rest) (new_packet cmd sent)
    → total rest < 2 ^ 31 + 2
    → Carries p hub me id rest
Carries-answer sent cmd hub me id rest p a e short = record {
  carried = ap payload e ∙ payload-built cmd sent (hub ∷ me ∷ le_bytes 32 id ∷ rest);
  sized =
      ap size e
      ∙ size-built cmd sent hub (me ∷ le_bytes 32 id ∷ rest)
          (omega (arith, a.hub_address, a.my_address, length-le_bytes 32 id))
      ∙ omega (arith, a.hub_address, a.my_address, length-le_bytes 32 id);
}

pub signed-parts :
    (sent : ℕ) (hub me : Bytes) (id : ℕ) (rev : Bytes)
    → signed_answer sent hub me id rev
      ≡ append_all
          (hub ∷ me ∷ le_bytes 32 id ∷ (rev ++ 0 ∷ []) ∷ [])
          (new_packet XBridgeCommand.xbc_transaction_signed sent)
unfolding answer append_uint256 append_string
signed-parts sent hub me id rev = refl

pub created-parts :
    (sent : ℕ) (hub me : Bytes) (id : ℕ) (pay rev : Bytes)
    → created_answer sent hub me id pay rev
      ≡ append_all
          (hub ∷ me ∷ le_bytes 32 id ∷ (pay ++ 0 ∷ []) ∷ (rev ++ 0 ∷ []) ∷ [])
          (new_packet XBridgeCommand.xbc_transaction_created sent)
unfolding answer append_uint256 append_string
created-parts sent hub me id pay rev = refl

pub commited-parts :
    (sent : ℕ) (hub me : Bytes) (id h : ℕ)
    → commited_answer sent hub me id h
      ≡ append_all
          (hub ∷ me ∷ le_bytes 32 id ∷ le_bytes 32 h ∷ [])
          (new_packet XBridgeCommand.xbc_transaction_commited sent)
unfolding answer append_uint256
commited-parts sent hub me id h = refl

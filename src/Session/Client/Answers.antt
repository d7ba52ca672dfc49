-- ===== src/Session/Client/Answers.antt =====
-- What the hub reads of a client's answer, and what it does with it.
use xhubv.Prelude.{
  ℕ, ◌^◌, ◌<◌, ◌≡◌, refl, ap, ◌∙◌, List, [], ◌∷◌, arith, some, Bytes, le_bytes, length,
  length-le_bytes, le_value-le_bytes, slice, concat, total, slice-concat, length-concat, ℕ-key,
  bytes_eq_refl, Bool, true, false, Option,
}
use xhubv.Packet.{XBridgeCommand, size, payload, data_at, new_packet, append_uint256}
use xhubv.Packet.Parts.{append_all, payload-built, size-built}
use xhubv.Exchange.{is_enabled}
use xhubv.Session.{Node, uint256_at, relay_packet, for_exchange}
use xhubv.Session.Client.{answer}

-- The words of an answer have the size of their fields.
pub record IsAnswer (hub me : Bytes) (id : ℕ) : Type 0 where
  pub hub_address : length hub ≡ 20
  pub my_address : length me ≡ 20
  pub trade : id < 256 ^ 32

module _ (now : ℕ) (c : XBridgeCommand) (hub me : Bytes) (id : ℕ) (a : IsAnswer hub me id) where
  abbrev parts : List Bytes
  parts = hub ∷ me ∷ le_bytes 32 id ∷ []

  answer-parts : answer now c hub me id ≡ append_all parts (new_packet c now)
  unfolding answer append_uint256
  answer-parts = refl

  payload-answer : payload (answer now c hub me id) ≡ concat parts
  payload-answer = ap payload answer-parts ∙ payload-built c now parts

  total-parts : total parts ≡ 72
  total-parts = omega (arith, a.hub_address, a.my_address, length-le_bytes 32 id)

  pub size-answer : size (answer now c hub me id) ≡ 72
  size-answer =
      ap size answer-parts
      ∙ size-built c now hub (me ∷ le_bytes 32 id ∷ []) (omega (arith, total-parts))
      ∙ total-parts

  pub hub_of-answer : data_at 0 20 (answer now c hub me id) ≡ some hub
  hub_of-answer =
      ap (slice 0 20) payload-answer
      ∙ slice-concat [] hub (me ∷ le_bytes 32 id ∷ []) 0 20 refl a.hub_address

  pub client_of-answer : data_at 20 20 (answer now c hub me id) ≡ some me
  client_of-answer =
      ap (slice 20 20) payload-answer
      ∙ slice-concat (hub ∷ []) me (le_bytes 32 id ∷ []) 20 20 (omega (arith, a.hub_address))
          a.my_address

  pub trade_of-answer : uint256_at 40 (answer now c hub me id) ≡ some id
  unfolding uint256_at
  trade_of-answer =
      rw
        (ap (slice 40 32) payload-answer
          ∙ slice-concat (hub ∷ me ∷ []) (le_bytes 32 id) [] 40 32
              (omega (arith, a.hub_address, a.my_address)) (length-le_bytes 32 id))
        (ap some (le_value-le_bytes 32 id a.trade))

  pub length-payload-answer : length (payload (answer now c hub me id)) ≡ 72
  length-payload-answer = ap length payload-answer ∙ length-concat parts ∙ total-parts

  pub relay_packet-answer :
      (n : Node) → relay_packet hub (answer now c hub me id) n ≡ some (n, false)
  unfolding relay_packet
  relay_packet-answer n = rw (size-answer, hub_of-answer, bytes_eq_refl hub) refl

  pub for_exchange-answer :
      (n : Node) (k : Node → Option (Node × Bool))
      → is_enabled n.exchange ≡ true
      → for_exchange hub (answer now c hub me id) n k ≡ k n
  unfolding for_exchange
  for_exchange-answer n k on = rw (relay_packet-answer n, on) refl

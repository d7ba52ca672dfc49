-- ===== src/Session/Payment/Asked.antt =====
-- What processTransactionCreate reads of the hub's create packet.
use xhubv.Prelude.{
  ℕ, ◌^◌, ◌<◌, ◌≡◌, refl, ap, ◌∙◌, List, [], ◌∷◌, ◌++◌, arith, some, Bytes, le_bytes, length,
  length-le_bytes, le_value-le_bytes, slice, concat, total, slice-concat, lookup, ℕ-key,
}
use xhubv.Packet.{
  Packet, XBridgeCommand, size, payload, data_at, new_packet, append_uint256, append_uint32,
}
use xhubv.Packet.Parts.{append_all, payload-built, size-built}
use xhubv.Session.{Node, uint256_at, uint32_at, to_client}
use xhubv.Session.Hub.{create_packet}
use xhubv.Session.Wallet.{Rpc}
use xhubv.Session.Client.Answers.{IsAnswer}
use xhubv.Session.Payment.{Doubles, Bitcoin, Codec, Wallet, Request, create_found, create_with}

-- The hub's packet is read as it was built.
module _ (r : Request) (sent : ℕ) (a : IsAnswer r.hub r.me r.id) (dest : length r.dest ≡ 20)
    (lock1 : r.lock_time1 < 2 ^ 32) (lock2 : r.lock_time2 < 2 ^ 32) where
  abbrev pub asked : Packet
  asked = create_packet r.hub sent r.me r.id r.dest r.lock_time1 r.lock_time2

  abbrev last : List Bytes
  last = le_bytes 4 r.lock_time1 ∷ le_bytes 4 r.lock_time2 ∷ []

  abbrev parts : List Bytes
  parts = r.me ∷ r.hub ∷ le_bytes 32 r.id ∷ r.dest ∷ last

  asked-parts : asked ≡ append_all parts (new_packet XBridgeCommand.xbc_transaction_create sent)
  unfolding create_packet to_client append_uint256 append_uint32
  asked-parts = refl

  payload-asked : payload asked ≡ concat parts
  payload-asked =
      ap payload asked-parts ∙ payload-built XBridgeCommand.xbc_transaction_create sent parts

  total-parts : total parts ≡ 100
  total-parts = omega (
    arith,
    a.hub_address,
    a.my_address,
    dest,
    length-le_bytes 32 r.id,
    length-le_bytes 4 r.lock_time1,
    length-le_bytes 4 r.lock_time2,
  )

  size-asked : size asked ≡ 100
  size-asked =
      ap size asked-parts
      ∙ size-built XBridgeCommand.xbc_transaction_create sent r.me
          (r.hub ∷ le_bytes 32 r.id ∷ r.dest ∷ last) (omega (arith, total-parts))
      ∙ total-parts

  part :
      (pre : List Bytes) (x : Bytes) (post : List Bytes) (off n : ℕ)
      → parts ≡ pre ++ x ∷ post
      → total pre ≡ off
      → length x ≡ n
      → data_at off n asked ≡ some x
  part pre x post off n e t l =
      ap (slice off n) (payload-asked ∙ ap concat e) ∙ slice-concat pre x post off n t l

  word_at :
      (pre : List Bytes) (w : ℕ) (post : List Bytes) (off : ℕ)
      → parts ≡ pre ++ le_bytes 4 w ∷ post
      → total pre ≡ off
      → w < 2 ^ 32
      → uint32_at off asked ≡ some w
  unfolding uint32_at
  word_at pre w post off e t small =
      rw (part pre (le_bytes 4 w) post off 4 e t (length-le_bytes 4 w))
        (ap some (le_value-le_bytes 4 w small))

  id_at : uint256_at 40 asked ≡ some r.id
  unfolding uint256_at
  id_at =
      rw
        (part (r.me ∷ r.hub ∷ []) (le_bytes 32 r.id) (r.dest ∷ last) 40 32 refl
          (omega (arith, a.hub_address, a.my_address)) (length-le_bytes 32 r.id))
        (ap some (le_value-le_bytes 32 r.id a.trade))

  abbrev before : List Bytes
  before = r.me ∷ r.hub ∷ le_bytes 32 r.id ∷ []

  total-before : total before ≡ 72
  total-before = omega (arith, a.hub_address, a.my_address, length-le_bytes 32 r.id)

  module _ (f : Doubles) (b : Bitcoin) (c : Codec b.Script) (w : Wallet f.Double) (rpc : Rpc)
      (now : ℕ) where
    pub create_with-asked :
        (n : Node)
        → create_with f b c w rpc now asked n
          ≡ create_found f b c w rpc now r (lookup r.id n.my_transactions) n
    unfolding create_with
    create_with-asked n =
        rw
          (
            size-asked,
            part [] r.me (r.hub ∷ le_bytes 32 r.id ∷ r.dest ∷ last) 0 20 refl refl a.my_address,
            part (r.me ∷ []) r.hub (le_bytes 32 r.id ∷ r.dest ∷ last) 20 20 refl
                (omega (arith, a.my_address)) a.hub_address,
            id_at,
            part before r.dest last 72 20 refl total-before dest,
            word_at (before ++ r.dest ∷ []) r.lock_time1 (le_bytes 4 r.lock_time2 ∷ []) 92 refl
                (omega (arith, total-before, dest)) lock1,
            word_at (before ++ r.dest ∷ le_bytes 4 r.lock_time1 ∷ []) r.lock_time2 [] 96 refl
                (omega (arith, total-before, dest, length-le_bytes 4 r.lock_time1)) lock2,
          )
          refl

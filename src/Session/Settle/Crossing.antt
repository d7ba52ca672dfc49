-- ===== src/Session/Settle/Crossing.antt =====
-- What each client is sent of the other: the payment to sign, and the hash of the payment to wait for.
use xhubv.Prelude.{
  ℕ, ◌≡◌, ◌≢◌, sym, [], ◌∷◌, ◌++◌, arith, false, Bytes, bytes_eq, bytes_eq_iff, bytes_eq_refl,
  append_assoc,
}
use xhubv.Transaction.{Transaction, set_raw_pay_tx, set_tx_hash}
use xhubv.Session.{Node, send_packet}
use xhubv.Session.Settle.{send_signs, sign_packet, send_confirms, confirm_packet}

apart : (a b : Bytes) → a ≢ b → bytes_eq b a ≡ false
apart a b h = ground (arith, bytes_eq_iff b a, (λ (e : b ≡ a). h (sym e)))

module _ (my_id : Bytes) (now : ℕ) (t : Transaction) (id : ℕ) (n : Node) where
  -- When two clients with different source addresses have each stored a payment and a refund,
  -- the sign packets exchange them: the first client's destination is sent the second's payment
  -- and refund, and the second client's destination is sent the first's, in this order behind
  -- the messages that were queued.
  pub send_signs_exchanges :
      (pay1 rev1 pay2 rev2 : Bytes)
      → t.first.source ≢ t.second.source
      → let u = (set_raw_pay_tx t.first.source pay1 rev1 t).0 in
        let v = (set_raw_pay_tx t.second.source pay2 rev2 u).0 in
        (send_signs my_id now v id n).messages
        ≡ n.messages
          ++ (record {
            to = t.first.dest;
            body = (sign_packet my_id now t.first.dest id pay2 rev2).body;
            searched = false;
          }
              ∷ record {
                to = t.second.dest;
                body = (sign_packet my_id now t.second.dest id pay1 rev1).body;
                searched = false;
              }
              ∷ [])
  unfolding send_signs send_packet set_raw_pay_tx
  send_signs_exchanges pay1 rev1 pay2 rev2 d =
      rw
        (
          apart t.first.source t.second.source d,
          bytes_eq_refl t.first.source,
          bytes_eq_refl t.second.source,
        )
        (append_assoc n.messages _ _)

  -- When two clients with different source addresses have each reported the hash of a payment,
  -- the confirm packets do not exchange the hashes: the first client's destination is sent the
  -- hash that the first client reported, and the second client's destination the hash that the
  -- second reported.
  pub send_confirms_own_hash :
      (hash_of_first hash_of_second : ℕ)
      → t.first.source ≢ t.second.source
      → let u = (set_tx_hash t.first.source hash_of_first t).0 in
        let v = (set_tx_hash t.second.source hash_of_second u).0 in
        (send_confirms my_id now v id n).messages
        ≡ n.messages
          ++ (record {
            to = t.first.dest;
            body = (confirm_packet my_id now t.first.dest id hash_of_first).body;
            searched = false;
          }
              ∷ record {
                to = t.second.dest;
                body = (confirm_packet my_id now t.second.dest id hash_of_second).body;
                searched = false;
              }
              ∷ [])
  unfolding send_confirms send_packet set_tx_hash
  send_confirms_own_hash h1 h2 d =
      rw
        (
          apart t.first.source t.second.source d,
          bytes_eq_refl t.first.source,
          bytes_eq_refl t.second.source,
        )
        (append_assoc n.messages _ _)

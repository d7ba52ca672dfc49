-- ===== src/Session/Client/Payments.antt =====
-- The hub's handlers of the answers that carry payments: created, signed and commited.
use xhubv.Prelude.{
  ℕ, ◌+◌, ◌^◌, ◌<◌, ◌≡◌, refl, ap, ◌∙◌, List, [], ◌∷◌, ◌++◌, arith, Bool, true, false, ◌&&◌, some,
  Bytes, le_bytes, length, length-append, length-le_bytes, le_value-le_bytes, slice, c_string,
  IsText, slice-concat, c_string-concat, lookup, ℕ-key, ltb, if◌then◌else◌, Bool-cases, inl, inr,
}
use xhubv.Packet.{Packet, XBridgeCommand, size, text_at}
use xhubv.Transaction.{State, Transaction, ◌=s◌, update_timestamp, set_tx_hash}
use xhubv.Exchange.{
  Exchange, is_enabled, update_when_created_received, update_when_signed_received,
  update_when_commited_received,
}
use xhubv.Session.{Node, uint256_at, write_back, send_packet}
use xhubv.Session.Settle.{
  process_transaction_created, created, send_signs, process_transaction_signed, signed,
  send_commits, process_transaction_commited, commited, send_confirms,
}
use xhubv.Session.Updates.{Yields}
use xhubv.Session.Client.Answers.{IsAnswer}
use xhubv.Session.Client.Heard.{lookup-write_back, wallets-write_back, found_transaction}
use xhubv.Session.Client.Carried.{
  client_of, trade_of, for_this_exchange, Carries-answer, signed-parts, created-parts,
  commited-parts, created_answer, signed_answer, commited_answer,
}

-- The trade under `id` is `u`, and the wallets are those of `n`.
abbrev pub Stored : ℕ → Transaction → Node → Node × Bool → Type 0
Stored id u n r =
    (lookup id r.0.exchange.transactions ≡ some u) × (r.0.exchange.wallets ≡ n.exchange.wallets)

lookup-update_when_commited :
    (me : Bytes) (h : ℕ) (t : Transaction) (e : Exchange) (id : ℕ)
    → lookup id (update_when_commited_received me h t e).0.transactions ≡ lookup id e.transactions
unfolding update_when_commited_received
lookup-update_when_commited me h t e id = elim (Bool-cases (set_tx_hash me h t).1) [
  | inl known ↦ rw known refl
  | inr unknown ↦ rw unknown refl
]

wallets-update_when_commited :
    (me : Bytes) (h : ℕ) (t : Transaction) (e : Exchange)
    → (update_when_commited_received me h t e).0.wallets ≡ e.wallets
unfolding update_when_commited_received
wallets-update_when_commited me h t e = elim (Bool-cases (set_tx_hash me h t).1) [
  | inl known ↦ rw known refl
  | inr unknown ↦ rw unknown refl
]

-- A handler that stores `u` and may send stores `u`.
either-Stored :
    (id : ℕ) (t u : Transaction) (n m : Node) (b : Bool)
    → lookup id n.exchange.transactions ≡ some t
    → m.exchange ≡ (write_back id u n).exchange
    → Stored id u n ((if b then m else write_back id u n), true)
either-Stored id t u n m true found e = (
  ap (λ x. lookup id x.transactions) e ∙ lookup-write_back id t u n found,
  ap (λ x. x.wallets) e ∙ wallets-write_back id u n,
)
either-Stored id t u n m false found e =
    (lookup-write_back id t u n found, wallets-write_back id u n)

module _ (hub me : Bytes) (sent now id : ℕ) (t : Transaction) (n : Node) (a : IsAnswer hub me id)
    (found : lookup id n.exchange.transactions ≡ some t) (on : is_enabled n.exchange ≡ true) where
  pub signed-Stored :
      (rev : Bytes)
      → IsText rev
      → length rev < 2 ^ 31
      → Yields
          (Stored id (update_when_signed_received me rev (update_timestamp now t)).0 n)
          (process_transaction_signed hub now (signed_answer sent hub me id rev) n)
  unfolding process_transaction_signed signed send_commits send_packet
  signed-Stored rev text short =
      let p : Packet = signed_answer sent hub me id rev in
      let c =
        Carries-answer sent XBridgeCommand.xbc_transaction_signed hub me id ((rev ++ 0 ∷ []) ∷ []) p
          a (signed-parts sent hub me id rev) (omega (arith, length-append rev (0 ∷ []))) in
      let large : ltb (size p) 72 ≡ false = ground (arith, c.sized) in
      let read : text_at 72 p ≡ some rev =
        ap (c_string 72) c.carried
        ∙ c_string-concat (hub ∷ me ∷ le_bytes 32 id ∷ []) rev [] [] 72
            (omega (arith, a.hub_address, a.my_address, length-le_bytes 32 id)) text in
      rw large (
        rw (for_this_exchange p hub me id ((rev ++ 0 ∷ []) ∷ []) a c n (signed hub now p) on) (
          rw
            (
              client_of p hub me id ((rev ++ 0 ∷ []) ∷ []) a c,
              trade_of p hub me id ((rev ++ 0 ∷ []) ∷ []) a c,
              read,
              found_transaction id t n.exchange found,
            )
            (_, refl, either-Stored id t _ n _ _ found refl)))

  pub created-Stored :
      (pay rev : Bytes)
      → IsText pay
      → IsText rev
      → length pay + length rev < 2 ^ 31
      → Yields
          (Stored id (update_when_created_received me pay rev (update_timestamp now t)).0 n)
          (process_transaction_created hub now (created_answer sent hub me id pay rev) n)
  unfolding process_transaction_created created send_signs send_packet
  created-Stored pay rev text_pay text_rev short =
      let p : Packet = created_answer sent hub me id pay rev in
      let rest : List Bytes = (pay ++ 0 ∷ []) ∷ (rev ++ 0 ∷ []) ∷ [] in
      let c =
        Carries-answer sent XBridgeCommand.xbc_transaction_created hub me id rest p a
          (created-parts sent hub me id pay rev)
          (omega (arith, length-append pay (0 ∷ []), length-append rev (0 ∷ []))) in
      let large : ltb (size p) 72 ≡ false = ground (arith, c.sized) in
      let read_pay : text_at 72 p ≡ some pay =
        ap (c_string 72) c.carried
        ∙ c_string-concat (hub ∷ me ∷ le_bytes 32 id ∷ []) pay [] ((rev ++ 0 ∷ []) ∷ []) 72
            (omega (arith, a.hub_address, a.my_address, length-le_bytes 32 id)) text_pay in
      let read_rev : text_at (72 + length pay + 1) p ≡ some rev =
        ap (c_string (72 + length pay + 1)) c.carried
        ∙ c_string-concat (hub ∷ me ∷ le_bytes 32 id ∷ (pay ++ 0 ∷ []) ∷ []) rev [] []
            (72 + length pay + 1)
            (omega (
              arith,
              a.hub_address,
              a.my_address,
              length-le_bytes 32 id,
              length-append pay (0 ∷ []),
            ))
            text_rev in
      rw large (
        rw (for_this_exchange p hub me id rest a c n (created hub now p) on) (
          rw
            (
              client_of p hub me id rest a c,
              trade_of p hub me id rest a c,
              read_pay,
              read_rev,
              found_transaction id t n.exchange found,
            )
            (_, refl, either-Stored id t _ n _ _ found refl)))

  pub commited-Stored :
      (h : ℕ)
      → h < 256 ^ 32
      → Yields
          (Stored id (update_when_commited_received me h (update_timestamp now t) n.exchange).1 n)
          (process_transaction_commited hub now (commited_answer sent hub me id h) n)
  unfolding process_transaction_commited commited send_confirms send_packet uint256_at
  commited-Stored h small =
      let p : Packet = commited_answer sent hub me id h in
      let rest : List Bytes = le_bytes 32 h ∷ [] in
      let c =
        Carries-answer sent XBridgeCommand.xbc_transaction_commited hub me id rest p a
          (commited-parts sent hub me id h) (omega (arith, length-le_bytes 32 h)) in
      let full : size p ≡ 104 = omega (arith, c.sized, length-le_bytes 32 h) in
      let read : uint256_at 72 p ≡ some h =
        rw
          (ap (slice 72 32) c.carried
            ∙ slice-concat (hub ∷ me ∷ le_bytes 32 id ∷ []) (le_bytes 32 h) [] 72 32
                (omega (arith, a.hub_address, a.my_address, length-le_bytes 32 id))
                (length-le_bytes 32 h))
          (ap some (le_value-le_bytes 32 h small)) in
      let (e, u, done) = update_when_commited_received me h (update_timestamp now t) n.exchange in
      let m : Node = record n { exchange = e } in
      let kept =
        either-Stored id t u m (send_confirms hub now u id (write_back id u m))
          (done && (u.state =s State.tr_commited))
          (lookup-update_when_commited me h (update_timestamp now t) n.exchange id ∙ found) refl in
      rw full (
        rw (for_this_exchange p hub me id rest a c n (commited hub now p) on) (
          rw
            (
              client_of p hub me id rest a c,
              trade_of p hub me id rest a c,
              read,
              found_transaction id t n.exchange found,
            )
            (
              _,
              refl,
              (
                kept.0,
                kept.1 ∙ wallets-update_when_commited me h (update_timestamp now t) n.exchange,
              ),
            )))

  -- On a client's answer that is addressed to this hub, for a trade of an enabled exchange, the
  -- handlers of created, signed and commited return, and the trade that stands under the id
  -- afterwards is the one that the exchange's update makes of the old trade, with its time
  -- renewed, for the sender, the texts of the payment and of the refund, and the hash that the
  -- answer carries; the wallets stay. The texts have no NUL and together less than 2 ^ 31 bytes;
  -- the hash fits 32.
  pub payments_heard :
      (pay rev : Bytes) (h : ℕ)
      → IsText pay
      → IsText rev
      → length pay + length rev < 2 ^ 31
      → h < 256 ^ 32
      → Yields
          (Stored id (update_when_created_received me pay rev (update_timestamp now t)).0 n)
          (process_transaction_created hub now (created_answer sent hub me id pay rev) n)
        × Yields
            (Stored id (update_when_signed_received me rev (update_timestamp now t)).0 n)
            (process_transaction_signed hub now (signed_answer sent hub me id rev) n)
        × Yields
            (Stored id (update_when_commited_received me h (update_timestamp now t) n.exchange).1 n)
            (process_transaction_commited hub now (commited_answer sent hub me id h) n)
  payments_heard pay rev h text_pay text_rev short small = (
    created-Stored pay rev text_pay text_rev short,
    signed-Stored rev text_rev (omega arith),
    commited-Stored h small,
  )

-- ===== src/Session/Client/Sound.antt =====
-- The client's handlers leave the exchange alone.
use xhubv.Prelude.{
  ℕ, ◌≡◌, refl, Bool, true, false, not, Option, none, some, Bytes, lookup, ℕ-key, ltb, ◌==◌,
}
use xhubv.Packet.{Packet, size, data_at, text_at}
use xhubv.Session.{Node, DescrState, uint256_at, uint64_at, send_packet, send_packet_broadcast}
use xhubv.Session.Upkeep.{set_descr_state}
use xhubv.Session.Upkeep.Cancel.{exchange-set_descr_state}
use xhubv.Session.Updates.{Ensures, Ensures-bind, either}
use xhubv.Session.Client.{
  hold_mine, process_transaction_hold, process_transaction_init, mark_mine, confirm_mine,
  process_transaction_confirm, process_pending_transaction,
}

-- The run, if it stays inside its buffers, leaves the exchange of `n`.
abbrev pub Spares : Node → Node × Bool → Type 0
Spares n r = r.0.exchange ≡ n.exchange

pub by_lookup :
    {A B : Type 0} (P : A → Type 0) (o : Option B) (x : A) (f : B → A)
    → P x
    → ((b : B) → P (f b))
    → P (elim o [ none ↦ x | some b ↦ f b ])
by_lookup P none x f h k = h
by_lookup P (some b) x f h k = k b

module _ (n : Node) where
  hold_mine-Spares :
      (now : ℕ) (hub me : Bytes) (id newid ptr : ℕ)
      → (hold_mine now hub me id newid ptr n).exchange ≡ n.exchange
  unfolding hold_mine send_packet_broadcast send_packet
  hold_mine-Spares now hub me id newid ptr = exchange-set_descr_state ptr DescrState.tr_hold _

  pub process_transaction_hold-Spares :
      (now : ℕ) (p : Packet) → Ensures (Spares n) (process_transaction_hold now p n)
  unfolding process_transaction_hold
  process_transaction_hold-Spares now p =
      either (Ensures (Spares n)) (not (size p == 104)) _ _ refl (
        Ensures-bind (Spares n) (data_at 0 20 p) _ λ me.
          Ensures-bind (Spares n) (data_at 20 20 p) _ λ hub.
            Ensures-bind (Spares n) (uint256_at 40 p) _ λ id.
              Ensures-bind (Spares n) (uint256_at 72 p) _ λ newid.
                by_lookup (Spares n) (lookup id n.my_pending) (n, false)
                  (λ ptr. (hold_mine now hub me id newid ptr n, true)) refl
                  λ ptr. hold_mine-Spares now hub me id newid ptr)

  pub process_transaction_init-Spares :
      (now : ℕ) (p : Packet) → Ensures (Spares n) (process_transaction_init now p n)
  unfolding process_transaction_init send_packet_broadcast send_packet
  process_transaction_init-Spares now p =
      either (Ensures (Spares n)) (not (size p == 144)) _ _ refl (
        Ensures-bind (Spares n) (data_at 0 20 p) _ λ me.
          Ensures-bind (Spares n) (data_at 20 20 p) _ λ hub.
            Ensures-bind (Spares n) (uint256_at 40 p) _ λ id.
              Ensures-bind (Spares n) (data_at 72 20 p) _ λ from.
                Ensures-bind (Spares n) (text_at 92 p) _ λ from_currency.
                  Ensures-bind (Spares n) (uint64_at 100 p) _ λ from_amount.
                    Ensures-bind (Spares n) (data_at 108 20 p) _ λ to.
                      Ensures-bind (Spares n) (text_at 128 p) _ λ to_currency.
                        Ensures-bind (Spares n) (uint64_at 136 p) _ λ to_amount. refl)

  pub mark_mine-Spares : (s : DescrState) (p : Packet) → Ensures (Spares n) (mark_mine s p n)
  unfolding mark_mine
  mark_mine-Spares s p = either (Ensures (Spares n)) (not (size p == 32)) _ _ refl (
      Ensures-bind (Spares n) (uint256_at 0 p) _ λ id.
        by_lookup (Spares n) (lookup id n.my_transactions) (n, false)
          (λ ptr. (set_descr_state ptr s n, true)) refl λ ptr. exchange-set_descr_state ptr s n)

  confirm_mine-Spares :
      (id : ℕ) (hub me : Bytes) (h ptr : ℕ) → Ensures (Spares n) (confirm_mine id hub me h ptr n)
  unfolding confirm_mine
  confirm_mine-Spares id hub me h ptr = Ensures-bind (Spares n) (lookup ptr n.heap) _ λ d. refl

  pub process_transaction_confirm-Spares :
      (p : Packet) → Ensures (Spares n) (process_transaction_confirm p n)
  unfolding process_transaction_confirm
  process_transaction_confirm-Spares p = either (Ensures (Spares n)) (ltb (size p) 72) _ _ refl (
      Ensures-bind (Spares n) (data_at 0 20 p) _ λ me.
        Ensures-bind (Spares n) (data_at 20 20 p) _ λ hub.
          Ensures-bind (Spares n) (uint256_at 40 p) _ λ id.
            Ensures-bind (Spares n) (uint256_at 72 p) _ λ h.
              by_lookup (Ensures (Spares n)) (lookup id n.my_transactions) (some (n, false))
                (λ ptr. confirm_mine id hub me h ptr n) refl (confirm_mine-Spares id hub me h))

  pub process_pending_transaction-Spares :
      (p : Packet) → Ensures (Spares n) (process_pending_transaction p n)
  unfolding process_pending_transaction
  process_pending_transaction-Spares p = either (Ensures (Spares n)) (not (size p == 64)) _ _ refl (
      Ensures-bind (Spares n) (uint256_at 0 p) _ λ id.
        Ensures-bind (Spares n) (text_at 32 p) _ λ from_currency.
          Ensures-bind (Spares n) (uint64_at 40 p) _ λ from_amount.
            Ensures-bind (Spares n) (text_at 48 p) _
              λ to_currency. Ensures-bind (Spares n) (uint64_at 56 p) _ λ to_amount. refl)

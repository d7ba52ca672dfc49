-- ===== src/App/Sound.antt =====
-- What a client sends of its own leaves the exchange alone.
use xhubv.Prelude.{ℕ, subst, sym, List, [], ◌∷◌, Bytes, lookup, ℕ-key, Option-cases, inl, inr}
use xhubv.Exchange.Invariant.{IsSound}
use xhubv.Session.{Node, DescrState, send_packet}
use xhubv.Session.Upkeep.Cancel.{exchange-set_descr_state}
use xhubv.Session.Upkeep.Sound.{send_exchange_orders-Sound}
use xhubv.Session.Updates.{Ensures, Ensures-bind, Ensures-bind_of, SoundNode}
use xhubv.App.{order_packet, send_pending_transaction, send_mine, send_list_of_transactions}

module _ (sha256 : Bytes → Bytes) (now : ℕ) where
  pub send_pending_transaction-Sound :
      (ptr : ℕ) (n : Node)
      → SoundNode sha256 n
      → Ensures (SoundNode sha256) (send_pending_transaction now ptr n)
  unfolding send_pending_transaction send_packet
  send_pending_transaction-Sound ptr n s = elim (Option-cases (lookup ptr n.heap)) [
    | inl absent ↦ rw (send_pending_transaction, absent) tt
    | inr (d, found) ↦
        rw (send_pending_transaction, found)
          (Ensures-bind (SoundNode sha256) (order_packet now d) _ λ p.
            subst (IsSound sha256)
              (sym (exchange-set_descr_state ptr DescrState.tr_pending (send_packet [] p n))) s)
  ]

  send_mine-Sound :
      (m : List (ℕ × ℕ)) (n : Node)
      → SoundNode sha256 n
      → Ensures (SoundNode sha256) (send_mine now m n)
  unfolding send_mine
  send_mine-Sound [] n s = s
  send_mine-Sound ((id, ptr) ∷ m) n s =
      Ensures-bind_of (SoundNode sha256) (SoundNode sha256) (send_pending_transaction now ptr n) _
        (send_pending_transaction-Sound ptr n s) (λ k q. send_mine-Sound m k q)

  pub send_list_of_transactions-Sound :
      (n : Node) → SoundNode sha256 n → Ensures (SoundNode sha256) (send_list_of_transactions now n)
  unfolding send_list_of_transactions
  send_list_of_transactions-Sound n s =
      Ensures-bind_of (SoundNode sha256) (SoundNode sha256) (send_mine now n.my_pending n) _
        (send_mine-Sound n.my_pending n s) (λ k q. send_exchange_orders-Sound sha256 now k q)

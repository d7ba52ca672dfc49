-- ===== src/Session/History.antt =====
-- A history of a node, as a hub and as a client: packets in the order in which they come, and turns of the timer between them
-- (XBridgeSession::init binds the handlers, XBridge::onTimer posts the timer's calls).
use xhubv.Prelude.{
  ◌≡◌, subst, sym, ℕ, Bool, List, [], ◌∷◌, Option, none, some, Bytes, ◌>>=◌, map_option,
}
use xhubv.Packet.{Packet}
use xhubv.Exchange.Invariant.{IsSound}
use xhubv.Session.{Node, DescrState}
use xhubv.Session.Client.{
  process_transaction_hold, process_transaction_init, process_transaction_confirm,
  process_transaction_finished, process_transaction_dropped, process_pending_transaction,
}
use xhubv.Session.Client.Sound.{
  Spares, process_transaction_hold-Spares, process_transaction_init-Spares,
  process_transaction_confirm-Spares, mark_mine-Spares, process_pending_transaction-Spares,
}
use xhubv.Session.Wallet.{
  Rpc, process_transaction_sign, process_transaction_commit, process_transaction_rollback,
  request_unconfirmed_tx,
}
use xhubv.Session.Wallet.Sound.{
  process_transaction_sign-Spares, process_transaction_commit-Spares,
  process_transaction_rollback-Spares, request_unconfirmed_tx-Spares,
}
use xhubv.Session.Hub.{
  process_transaction, process_transaction_hold_apply, process_transaction_initialized,
}
use xhubv.Session.Hub.Sound.{
  process_transaction-Sound, process_transaction_hold_apply-Sound,
  process_transaction_initialized-Sound,
}
use xhubv.Session.Settle.{
  process_transaction_created, process_transaction_signed, process_transaction_commited,
  process_transaction_confirmed, process_bitcoin_transaction_hash,
}
use xhubv.Session.Settle.Sound.{
  process_transaction_created-Sound, process_transaction_signed-Sound,
  process_transaction_commited-Sound, process_transaction_confirmed-Sound,
  process_bitcoin_transaction_hash-Sound,
}
use xhubv.Session.Upkeep.{
  process_transaction_cancel, check_finished_transactions, erase_expired_pending_transactions,
}
use xhubv.Session.Upkeep.Sound.{
  process_transaction_cancel-Sound, check_finished_transactions-Sound,
  erase_expired_pending_transactions-Sound,
}
use xhubv.App.{send_list_of_transactions}
use xhubv.App.Sound.{send_list_of_transactions-Sound}
use xhubv.Session.Updates.{Ensures, Ensures-bind_of, SoundNode, SoundResult}

pub data Event : Type 0 where
  transaction hold_apply initialized created signed commited confirmed cancel received_hash :
      Packet → Event
  check_finished erase_expired send_list : Event
  hold init sign commit confirm rollback finished dropped pending : Packet → Event
  request_unconfirmed : Event

abbrev pub ran : Option (Node × Bool) → Option Node
ran r = map_option (λ x. x.0) r

module _ (sha256 : Bytes → Bytes) (rpc : Rpc) (my_id : Bytes) where
  -- One event at the time `now`.
  unfoldable pub handle : ℕ → Event → Node → Option Node
  handle now (transaction p) n = ran (process_transaction my_id now sha256 p n)
  handle now (hold_apply p) n = ran (process_transaction_hold_apply my_id now p n)
  handle now (initialized p) n = ran (process_transaction_initialized my_id now p n)
  handle now (created p) n = ran (process_transaction_created my_id now p n)
  handle now (signed p) n = ran (process_transaction_signed my_id now p n)
  handle now (commited p) n = ran (process_transaction_commited my_id now p n)
  handle now (confirmed p) n = ran (process_transaction_confirmed my_id now p n)
  handle now (cancel p) n = ran (process_transaction_cancel p n)
  handle now (received_hash p) n = ran (process_bitcoin_transaction_hash p n)
  handle now check_finished n = some (check_finished_transactions now n)
  handle now erase_expired n = some (erase_expired_pending_transactions sha256 now n)
  handle now send_list n = send_list_of_transactions now n
  handle now (hold p) n = ran (process_transaction_hold now p n)
  handle now (init p) n = ran (process_transaction_init now p n)
  handle now (sign p) n = ran (process_transaction_sign rpc now p n)
  handle now (commit p) n = ran (process_transaction_commit rpc now p n)
  handle now (confirm p) n = ran (process_transaction_confirm p n)
  handle now (rollback p) n = ran (process_transaction_rollback rpc p n)
  handle now (finished p) n = ran (process_transaction_finished p n)
  handle now (dropped p) n = ran (process_transaction_dropped p n)
  handle now (pending p) n = ran (process_pending_transaction p n)
  handle now request_unconfirmed n = request_unconfirmed_tx rpc now n

  unfoldable pub run : List (ℕ × Event) → Node → Option Node
  run [] n = some n
  run ((now, e) ∷ es) n = do m ← handle now e n; run es m

  ran-Sound :
      (r : Option (Node × Bool))
      → Ensures (SoundResult sha256) r
      → Ensures (SoundNode sha256) (ran r)
  ran-Sound none h = tt
  ran-Sound (some r) h = h

  pub spared_node :
      (r : Option Node) (n : Node)
      → Ensures (λ m. m.exchange ≡ n.exchange) r
      → SoundNode sha256 n
      → Ensures (SoundNode sha256) r
  spared_node none n e s = tt
  spared_node (some m) n e s = subst (IsSound sha256) (sym e) s

  pub spared :
      (r : Option (Node × Bool)) (n : Node)
      → Ensures (Spares n) r
      → SoundNode sha256 n
      → Ensures (SoundNode sha256) (ran r)
  spared none n e s = tt
  spared (some r) n e s = subst (IsSound sha256) (sym e) s

  -- One event.
  pub handle-Sound :
      (now : ℕ) (e : Event) (n : Node)
      → SoundNode sha256 n
      → Ensures (SoundNode sha256) (handle now e n)
  unfolding handle process_transaction_finished process_transaction_dropped
  handle-Sound now (transaction p) n s =
      ran-Sound _ (process_transaction-Sound sha256 my_id now p n s)
  handle-Sound now (hold_apply p) n s =
      ran-Sound _ (process_transaction_hold_apply-Sound sha256 my_id now p n s)
  handle-Sound now (initialized p) n s =
      ran-Sound _ (process_transaction_initialized-Sound sha256 my_id now p n s)
  handle-Sound now (created p) n s =
      ran-Sound _ (process_transaction_created-Sound sha256 my_id now p n s)
  handle-Sound now (signed p) n s =
      ran-Sound _ (process_transaction_signed-Sound sha256 my_id now p n s)
  handle-Sound now (commited p) n s =
      ran-Sound _ (process_transaction_commited-Sound sha256 my_id now p n s)
  handle-Sound now (confirmed p) n s =
      ran-Sound _ (process_transaction_confirmed-Sound sha256 my_id now p n s)
  handle-Sound now (cancel p) n s = ran-Sound _ (process_transaction_cancel-Sound sha256 p n s)
  handle-Sound now (received_hash p) n s =
      ran-Sound _ (process_bitcoin_transaction_hash-Sound sha256 p n s)
  handle-Sound now check_finished n s = check_finished_transactions-Sound sha256 now n s
  handle-Sound now erase_expired n s = erase_expired_pending_transactions-Sound sha256 now n s
  handle-Sound now send_list n s = send_list_of_transactions-Sound sha256 now n s
  handle-Sound now (hold p) n s = spared _ n (process_transaction_hold-Spares n now p) s
  handle-Sound now (init p) n s = spared _ n (process_transaction_init-Spares n now p) s
  handle-Sound now (sign p) n s = spared _ n (process_transaction_sign-Spares rpc now p n) s
  handle-Sound now (commit p) n s = spared _ n (process_transaction_commit-Spares rpc now p n) s
  handle-Sound now (confirm p) n s = spared _ n (process_transaction_confirm-Spares n p) s
  handle-Sound now (rollback p) n s = spared _ n (process_transaction_rollback-Spares rpc p n) s
  handle-Sound now (finished p) n s = spared _ n (mark_mine-Spares n DescrState.tr_finished p) s
  handle-Sound now (dropped p) n s = spared _ n (mark_mine-Spares n DescrState.tr_dropped p) s
  handle-Sound now (pending p) n s = spared _ n (process_pending_transaction-Spares n p) s
  handle-Sound now request_unconfirmed n s =
      spared_node (request_unconfirmed_tx rpc now n) n (request_unconfirmed_tx-Spares rpc now n) s

  -- Any sequence of packets for the handlers of the hub and of the client (all but
  -- xbcTransactionCreate) and of turns of the timer, each at its own time, that starts from a
  -- node whose exchange is sound ends in a node whose exchange is sound, unless a handler reads
  -- or writes outside a buffer on the way. Sound: every pending order stands under its own
  -- hash1, is new and has neither flag set; every trade stands under its own id, is neither new
  -- nor invalid, and never has both flags set; and no key stands twice in either map.
  pub run-Sound :
      (es : List (ℕ × Event)) (n : Node)
      → SoundNode sha256 n
      → Ensures (SoundNode sha256) (run es n)
  unfolding run
  run-Sound [] n s = s
  run-Sound ((now, e) ∷ es) n s =
      Ensures-bind_of (SoundNode sha256) (SoundNode sha256) (handle now e n) _
        (handle-Sound now e n s) (λ m q. run-Sound es m q)

-- ===== src/App/History/Searches.antt =====
-- The searches of a turn of dhtThreadProc: what they leave as it is.
use xhubv.Prelude.{List, [], ◌∷◌, Bool, true, false, Bytes, bytes_eq}
use xhubv.Session.{Message}
use xhubv.Session.Updates.{either}
use xhubv.App.Sessions.{XBridgeApp, Program, World}
use xhubv.App.Loop.{search_done, run_search, run_searches, search_turn}

-- A predicate that the fields of the searches and the signal to send do not touch.
pub record IsApart (P : XBridgeApp → Type 0) : Type 0 where
  pub raised : (b : XBridgeApp) → P b → P (record b { node = record b.node { signal_send = true } })
  pub moved :
      (b : XBridgeApp) (ids strings : List Bytes) (signal : Bool)
      → P b
      → P (record b { searches = ids; search_strings = strings; signal_search = signal })

module _ (P : XBridgeApp → Type 0) (k : IsApart P) where
  pub search_done-keeps : (a : XBridgeApp) → P a → P (search_done a)
  unfolding search_done
  search_done-keeps a h = by_queue a.node.messages
    where
      by_queue :
          (ms : List Message)
          → P (elim ms [
            | [] ↦ a
            | m ∷ ms ↦ record a { node = record a.node { signal_send = true } }
          ])
      by_queue [] = h
      by_queue (m ∷ ms) = k.raised a h

  module _ (g : Program) (w : World g.doubles.Double) where
    pub run_search-keeps : (id : Bytes) (a : XBridgeApp) → P a → P (run_search g w id a)
    unfolding run_search
    run_search-keeps id a h =
        let m = k.moved a _ a.search_strings a.signal_search h in
        either P (w.search_ends id) _ _ (search_done-keeps _ m) m

    pub run_searches-keeps : (ss : List Bytes) (a : XBridgeApp) → P a → P (run_searches g w ss a)
    unfolding run_searches
    run_searches-keeps [] a h = h
    run_searches-keeps (s ∷ ss) a h = run_searches-keeps ss _ (
        either P (bytes_eq (g.base64_decode s) []) _ _ h (run_search-keeps (g.base64_decode s) a h))

    pub search_turn-keeps : (a : XBridgeApp) → P a → P (search_turn g w a)
    unfolding search_turn
    search_turn-keeps a h =
        either P a.signal_search _ _
          (k.moved _ (run_searches g w a.search_strings a).searches [] false
            (run_searches-keeps a.search_strings a h))
          h

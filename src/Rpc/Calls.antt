-- ===== src/Rpc/Calls.antt =====
-- CallRPC and the calls of namespace rpc (src/bitcoinrpc.cpp), one connection each. The server behind the socket
-- and Base64 are parameters.
use xhubv.Prelude.{
  ℕ, List, [], ◌∷◌, ◌++◌, Bool, true, false, Option, none, some, Bytes, if◌then◌else◌, ◌>>=◌,
}
use xhubv.Rpc.Text.{codes}
use xhubv.Rpc.Http.{http_post}
use xhubv.Rpc.Replies.{
  Json, ValueType, Object, has_type, reply_of, result_of, listed_accounts, listed_addresses,
  listed_unspent,
}
use xhubv.Session.Payment.{Unspent}

-- The server: its state after a request to an address and a port, and what it sends back until the end of the
-- connection, or nothing where there is no connection.
pub record Server : Type 1 where
  pub Srv : Type 0
  pub ask : Srv → Bytes → Bytes → Bytes → Srv × Option Bytes

-- The first four arguments of every call.
pub record Login : Type 0 where
  pub user : Bytes
  pub passwd : Bytes
  pub ip : Bytes
  pub port : Bytes

module _ {D : Type 0} (j : Json D) (base64 : Bytes → Bytes) (net : Server) (l : Login) where
  unfoldable pub json_rpc_request : Bytes → List j.Value → ℕ → Bytes
  json_rpc_request method params id =
      j.write_string (
        j.of_obj (
          (codes "method", j.of_str method)
          ∷ (codes "params", j.of_array params)
          ∷ (codes "id", j.of_int id)
          ∷ []))
      ++ (10 ∷ [])

  unfoldable pub authorization : Bytes
  authorization = codes "Basic " ++ base64 (l.user ++ (58 ∷ l.passwd))

  -- The object that came back, or an exception.
  unfoldable pub call_rpc : Bytes → List j.Value → net.Srv → net.Srv × Option (Object j)
  unfolding json_rpc_request authorization http_post reply_of
  call_rpc method params w =
      let post =
        http_post (json_rpc_request method params 1)
          ((codes "Authorization", authorization) ∷ []) in
      let (w', answered) = net.ask w l.ip l.port post in (w', answered >>= reply_of j)

  unfoldable pub list_accounts : net.Srv → net.Srv × Option (List Bytes)
  unfolding call_rpc listed_accounts
  list_accounts w =
      let (w', r) = call_rpc (codes "listaccounts") [] w in (w', r >>= listed_accounts j)

  unfoldable pub get_addresses_by_account : Bytes → net.Srv → net.Srv × Option (List Bytes)
  unfolding call_rpc listed_addresses
  get_addresses_by_account account w =
      let (w', r) = call_rpc (codes "getaddressesbyaccount") (j.of_str account ∷ []) w in
      (w', r >>= listed_addresses j)

  -- The loop over the accounts: one that fails is left out.
  unfoldable pub book_of : List Bytes → net.Srv → net.Srv × List (Bytes × List Bytes)
  unfolding get_addresses_by_account
  book_of [] w = (w, [])
  book_of (acc ∷ accs) w =
      let (w', r) = get_addresses_by_account acc w in
      let (w'', book) = book_of accs w' in
      (w'', elim r [ none ↦ book | some addrs ↦ (acc, addrs) ∷ book ])

  unfoldable pub request_address_book : net.Srv → net.Srv × Option (List (Bytes × List Bytes))
  unfolding list_accounts book_of
  request_address_book w =
      let (w', r) = list_accounts w in
      elim r [
        | none ↦ (w', none)
        | some accs ↦ let (w'', book) = book_of accs w' in (w'', some book)
      ]

  -- listUnspent, with what the caller's list holds.
  unfoldable pub list_unspent :
      (D → Bool) → ℕ → D → List (Unspent D) → net.Srv → net.Srv × (List (Unspent D) × Bool)
  unfolding call_rpc listed_unspent
  list_unspent positive junk stray entries w =
      let (w', r) = call_rpc (codes "listunspent") [] w in
      (w', listed_unspent j positive junk stray r entries)

  -- The signed text; the caller's stays when there is none.
  unfoldable pub sign_raw_transaction : Bytes → net.Srv → net.Srv × Option Bytes
  unfolding call_rpc result_of
  sign_raw_transaction rawtx w =
      let (w', r) = call_rpc (codes "signrawtransaction") (j.of_str rawtx ∷ []) w in
      (
        w',
        do
          reply ← r
          result ← result_of j ValueType.obj_type reply
          o ← j.get_obj result
          let tx = j.find_value o (codes "hex")
          if has_type j ValueType.str_type tx then j.get_str tx else none,
      )

  -- Only the error of the reply is looked at.
  unfoldable pub send_raw_transaction : Bytes → net.Srv → net.Srv × Bool
  unfolding call_rpc
  send_raw_transaction rawtx w =
      let (w', r) = call_rpc (codes "sendrawtransaction") (j.of_str rawtx ∷ []) w in
      (
        w',
        elim r [
          | none ↦ false
          | some reply ↦ has_type j ValueType.null_type (j.find_value reply (codes "error"))
        ],
      )

  unfoldable pub get_new_address : net.Srv → net.Srv × Option Bytes
  unfolding call_rpc result_of
  get_new_address w =
      let (w', r) = call_rpc (codes "getnewaddress") [] w in
      (w', r >>= result_of j ValueType.str_type >>= j.get_str)

  unfoldable pub get_transaction : Bytes → net.Srv → net.Srv × Bool
  unfolding call_rpc result_of
  get_transaction txid w =
      let (w', r) = call_rpc (codes "gettransaction") (j.of_str txid ∷ []) w in
      (w', elim (r >>= result_of j ValueType.obj_type) [ none ↦ false | some result ↦ true ])

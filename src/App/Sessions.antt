-- ===== src/App/Sessions.antt =====
-- XBridgeApp (src/xbridgeapp.cpp, src/xbridgeapp.h): the sessions under their addresses and currencies, the
-- messages that are known, the address book. A session is a pointer; its currency is kept beside.
use xhubv.Prelude.{
  ℕ, suc, List, [], ◌∷◌, ◌++◌, Bool, true, false, ◌||◌, Option, none, some, Bytes, bytes_eq, slice,
  lookup, insert, contains, ℕ-key, Bytes-key, ◌==◌, if◌then◌else◌, ◌>>=◌,
}
use xhubv.Hash.{hash}
use xhubv.Session.{Node, Message}
use xhubv.Session.Payment.{Doubles, Bitcoin, Wallet}
use xhubv.Session.Wallet.{Rpc}

-- m_addressBook's entries
pub record AddressBookEntry : Type 0 where
  pub currency : Bytes
  pub name : Bytes
  pub address : Bytes

-- `network` is what dht_send_broadcast has been given and what dht_send_message has accepted;
-- `searches` is what dht_search has been given. The set of known messages is a list.
pub record XBridgeApp : Type 0 where
  pub node : Node
  pub session_addrs : List (Bytes × ℕ)
  pub session_ids : List (Bytes × ℕ)
  pub currencies : List (ℕ × Bytes)
  pub next_session : ℕ
  pub known : List ℕ
  pub address_book : List AddressBookEntry
  pub addresses : List Bytes
  pub search_strings : List Bytes
  pub signal_search : Bool
  pub network : List Message
  pub searches : List Bytes

-- What the program runs on: SHA256, `double`, the Bitcoin client's code, base64, base58, and the id.
pub record Program : Type 1 where
  pub sha256 : Bytes → Bytes
  pub doubles : Doubles
  pub bitcoin : Bitcoin
  pub base64_encode : Bytes → Bytes
  pub base64_decode : Bytes → Bytes
  pub decode_base58_check : Bytes → Option Bytes
  pub my_id : Bytes

-- dht_send_message: 0, DHT_NETWORK_BUFFER_OWERFLOW, or another error.
pub data SendResult : Type 0 where
  sent overflow failed : SendResult

-- The answers of the surroundings during one event: the time, each session's wallet, the network, and
-- for which addresses dht_search finds the search done while it runs.
pub record World (D : Type 0) : Type 0 where
  pub now : ℕ
  pub wallet : ℕ → Wallet D
  pub rpc : ℕ → Rpc
  pub address_book : ℕ → Option (List (Bytes × List Bytes))
  pub send_message : Bytes → Bytes → SendResult
  pub search_ends : Bytes → Bool

-- XBridgeSession's pointer made by `new XBridgeSession`, which has no currency.
unfoldable pub new_session : XBridgeApp → XBridgeApp × ℕ
new_session a = (
  record a {
    next_session = suc a.next_session;
    currencies = insert a.next_session [] a.currencies;
  },
  a.next_session,
)

unfoldable pub currency_of : ℕ → XBridgeApp → Bytes
currency_of ptr a = elim (lookup ptr a.currencies) [ none ↦ [] | some c ↦ c ]

unfoldable pub add_session : ℕ → XBridgeApp → XBridgeApp
unfolding currency_of
add_session ptr a = record a { session_ids = insert (currency_of ptr a) ptr a.session_ids }

-- storageStore; `none` if the caller holds m_sessionsLock, which does not lock twice.
unfoldable pub storage_store : Bool → ℕ → Bytes → XBridgeApp → Option XBridgeApp
unfolding currency_of
storage_store true ptr id a = none
storage_store false ptr id a = some (record a {
  session_addrs = insert id ptr a.session_addrs;
  session_ids = insert (currency_of ptr a) ptr a.session_ids;
})

-- The loop of storageClean over one of the two maps.
module _ {K : Type 0} where
  unfoldable pub without : ℕ → List (K × ℕ) → List (K × ℕ)
  without ptr [] = []
  without ptr ((k, q) ∷ m) = if q == ptr then without ptr m else (k, q) ∷ without ptr m

unfoldable pub storage_clean : ℕ → XBridgeApp → XBridgeApp
unfolding without
storage_clean ptr a = record a {
  session_addrs = without ptr a.session_addrs;
  session_ids = without ptr a.session_ids;
}

unfoldable pub is_local_address : Bytes → Bytes → XBridgeApp → Bool
is_local_address my_id id a = contains id a.session_addrs || bytes_eq id my_id

unfoldable pub known_hash : ℕ → List ℕ → Bool
known_hash h [] = false
known_hash h (k ∷ ks) = if k == h then true else known_hash h ks

unfoldable pub is_known_message : (Bytes → Bytes) → Bytes → XBridgeApp → Bool
unfolding known_hash
is_known_message sha256 message a = known_hash (hash sha256 message) a.known

unfoldable pub has_address : Bytes → List Bytes → Bool
has_address x [] = false
has_address x (y ∷ ys) = if bytes_eq y x then true else has_address x ys

unfoldable pub store_address_book_entry : AddressBookEntry → XBridgeApp → XBridgeApp
unfolding has_address
store_address_book_entry e a =
    if has_address e.address a.addresses
    then a
    else (record a { addresses = e.address ∷ a.addresses; address_book = a.address_book ++ e ∷ [] })

-- The two loops of XBridgeSession::requestAddressBook; `&vaddr[1]` is read for 20 bytes.
module _ (p : Program) (ptr : ℕ) where
  unfoldable pub store_addresses : List Bytes → XBridgeApp → Option XBridgeApp
  store_addresses [] a = some a
  store_addresses (s ∷ ss) a = do
    a' ← elim (p.decode_base58_check s) [
      | none ↦ some a
      | some v ↦ do id ← slice 1 20 v; storage_store false ptr id a
    ]
    store_addresses ss a'

  unfoldable pub store_entries : List (Bytes × List Bytes) → XBridgeApp → Option XBridgeApp
  unfolding store_addresses
  store_entries [] a = some a
  store_entries ((name, addrs) ∷ es) a = do a' ← store_addresses addrs a; store_entries es a'

unfoldable pub request_address_book :
    (p : Program) → World p.doubles.Double → ℕ → XBridgeApp → Option XBridgeApp
unfolding store_entries
request_address_book p w ptr a = elim (w.address_book ptr) [
  | none ↦ some a
  | some entries ↦ store_entries p ptr entries a
]

-- XBridgeApp::getAddressBook, over the sessions of the snapshot.
unfoldable pub get_address_book :
    (p : Program) → World p.doubles.Double → List (Bytes × ℕ) → XBridgeApp → Option XBridgeApp
unfolding request_address_book
get_address_book p w [] a = some a
get_address_book p w ((c, ptr) ∷ ss) a = do
  a' ← request_address_book p w ptr a
  get_address_book p w ss a'

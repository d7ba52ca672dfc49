-- ===== src/Rpc/Replies.antt =====
-- What CallRPC and the calls of namespace rpc (src/bitcoinrpc.cpp) make of the bytes that come back. json_spirit
-- is a parameter; an exception, which every call catches, is `none`. Logs are left out.
use xhubv.Prelude.{
  ℕ, ◌^◌, List, [], ◌∷◌, ◌++◌, Bool, true, false, not, ◌&&◌, ◌||◌, Option, none, some, Bytes,
  bytes_eq, ltb, leb, ◌==◌, if◌then◌else◌, ◌>>=◌,
}
use xhubv.Rpc.Text.{codes, is_empty}
use xhubv.Rpc.Http.{read_http}
use xhubv.Session.Payment.{Unspent}

-- json_spirit's Value_type, with its numbers.
pub data ValueType : Type 0 where
  obj_type array_type str_type bool_type int_type real_type null_type : ValueType

abbrev type_code : ValueType → ℕ
type_code ValueType.obj_type = 0
type_code ValueType.array_type = 1
type_code ValueType.str_type = 2
type_code ValueType.bool_type = 3
type_code ValueType.int_type = 4
type_code ValueType.real_type = 5
type_code ValueType.null_type = 6

-- What the calls use of json_spirit: a `get` throws on a value of another type. `D` stands for double, an int is its
-- 32-bit word.
pub record Json (D : Type 0) : Type 1 where
  pub Value : Type 0
  pub type : Value → ValueType
  pub get_str : Value → Option Bytes
  pub get_int : Value → Option ℕ
  pub get_real : Value → Option D
  pub get_array : Value → Option (List Value)
  pub get_obj : Value → Option (List (Bytes × Value))
  pub find_value : List (Bytes × Value) → Bytes → Value
  pub of_str : Bytes → Value
  pub of_int : ℕ → Value
  pub of_array : List Value → Value
  pub of_obj : List (Bytes × Value) → Value
  pub write_string : Value → Bytes
  pub read_string : Bytes → Option Value

module _ {D : Type 0} (j : Json D) where
  abbrev pub Object : Type 0
  Object = List (Bytes × j.Value)

  abbrev pub has_type : ValueType → j.Value → Bool
  has_type k v = type_code (j.type v) == type_code k

  -- The statuses that make CallRPC throw, of which 401 has its own message.
  unfoldable pub is_refusal : ℕ → Bool
  is_refusal status =
      status == 401
      || (leb 400 status
          && ltb status (2 ^ 31)
          && (not (status == 400) && (not (status == 404) && not (status == 500))))

  -- What CallRPC makes of the bytes that come back.
  unfoldable pub reply_of : Bytes → Option Object
  unfolding read_http is_refusal
  reply_of stream = do
    (status, hs, text) ← read_http stream
    if is_refusal status || is_empty text then none else do
      v ← j.read_string text
      o ← j.get_obj v
      elim o [ [] ↦ none | p ∷ ps ↦ some (p ∷ ps) ]

  -- The value under "result", of a reply without error, if it has the type that the call expects.
  unfoldable pub result_of : ValueType → Object → Option j.Value
  result_of k reply =
      let result = j.find_value reply (codes "result") in
      if not (has_type ValueType.null_type (j.find_value reply (codes "error")))
      then none
      else if not (has_type k result)
      then none
      else some result

  unfoldable pub named : Object → List Bytes
  named [] = []
  named ((k, v) ∷ o) = let rest = named o in if is_empty k then rest else k ∷ rest

  -- Both calls push behind what the caller's list has, and so do the next two.
  unfoldable pub listed_accounts : Object → Option (List Bytes)
  unfolding named result_of
  listed_accounts reply = do
    result ← result_of ValueType.obj_type reply
    o ← j.get_obj result
    some (named o)

  -- Values of other types are left out.
  unfoldable pub texts : List j.Value → Option (List Bytes)
  texts [] = some []
  texts (v ∷ vs) =
      let rest = texts vs in
      let more : Option (List Bytes) = j.get_str v >>= λ s. rest >>= λ r. some (s ∷ r) in
      if has_type ValueType.str_type v then more else rest

  unfoldable pub listed_addresses : Object → Option (List Bytes)
  unfolding texts result_of
  listed_addresses reply = do
    result ← result_of ValueType.array_type reply
    vs ← j.get_array result
    texts vs

  -- The fields of a coin over what the object on the stack holds.
  unfoldable pub read_coin : Unspent D → Object → Option (Unspent D)
  read_coin u [] = some u
  read_coin u ((k, v) ∷ o) =
      let as_id : Option (Unspent D) = j.get_str v >>= λ s. read_coin (record u { tx_id = s }) o in
      let as_vout : Option (Unspent D) = j.get_int v >>= λ i. read_coin (record u { vout = i }) o in
      let as_amount : Option (Unspent D) =
        j.get_real v >>= λ d. read_coin (record u { amount = d }) o in
      let as_other = read_coin u o in
      if bytes_eq k (codes "txid")
      then as_id
      else if bytes_eq k (codes "vout")
      then as_vout
      else if bytes_eq k (codes "amount")
      then as_amount
      else as_other

  module _ (positive : D → Bool) (junk : ℕ) (stray : D) where
    -- A new rpc::Unspent: the constructor of the text leaves it empty, and nothing sets the other two.
    abbrev pub blank : Unspent D
    blank = record { tx_id = []; vout = junk; amount = stray }

    abbrev pub is_coin : Unspent D → Bool
    is_coin u = not (is_empty u.tx_id) && positive u.amount

    -- The loop over the reply's values: what it has pushed stays pushed when it throws.
    unfoldable pub push_coins : List j.Value → List (Unspent D) → List (Unspent D) × Bool
    unfolding read_coin
    push_coins [] entries = (entries, true)
    push_coins (v ∷ vs) entries =
        if has_type ValueType.obj_type v
        then elim (j.get_obj v >>= read_coin blank) [
          | none ↦ (entries, false)
          | some u ↦ push_coins vs (if is_coin u then entries ++ (u ∷ []) else entries)
        ]
        else push_coins vs entries

    unfoldable pub listed_unspent : Option Object → List (Unspent D) → List (Unspent D) × Bool
    unfolding push_coins result_of
    listed_unspent reply entries = elim (reply >>= result_of ValueType.array_type >>= j.get_array) [
      | none ↦ (entries, false)
      | some vs ↦ push_coins vs entries
    ]

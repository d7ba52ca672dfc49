-- ===== src/Tests/Calls.antt =====
-- The theorems on the JSON-RPC client, applied to a small server and a small reader of its replies.
use xhubv.Prelude.{
  ℕ, ◌≡◌, refl, arith, List, [], ◌∷◌, ◌++◌, false, Option, none, some, Bytes, All, bytes_eq, length,
  ltb, if◌then◌else◌,
}
use xhubv.Rpc.Text.{codes, get_line}
use xhubv.Rpc.Http.{Headers, http_post, read_http_header, read_http}
use xhubv.Rpc.RoundTrip.{http_post-read, IsLine}
use xhubv.Rpc.Reply.{reply_text, read_http-reply}
use xhubv.Rpc.Replies.{Json, ValueType, listed_unspent, is_refusal}
use xhubv.Rpc.Calls.{
  Server, Login, call_rpc, list_unspent, sign_raw_transaction, send_raw_transaction,
  get_new_address, get_transaction, request_address_book,
}
use xhubv.Rpc.Lines.{lacks_lem}
use xhubv.Rpc.Outcomes.{read_http-total, listed_unspent-Grows, Grows}
use xhubv.Rpc.Answered.{Speaks, call_rpc-reply, refused_calls_fail}
use xhubv.Session.Payment.{Unspent}

-- The values of one wallet's replies: a text, a number, null, a coin, the list of its two coins, one of which is
-- worth nothing, and the reply with them.
data Tree : Type 0 where
  str : Bytes → Tree
  int : ℕ → Tree
  null : Tree
  coin : Bytes → ℕ → ℕ → Tree
  coins : Tree
  answered : Tree

unfoldable type_of : Tree → ValueType
type_of (Tree.str s) = ValueType.str_type
type_of (Tree.int n) = ValueType.int_type
type_of Tree.null = ValueType.null_type
type_of (Tree.coin t v a) = ValueType.obj_type
type_of Tree.coins = ValueType.array_type
type_of Tree.answered = ValueType.obj_type

unfoldable str_of : Tree → Option Bytes
str_of (Tree.str s) = some s
str_of _ = none

unfoldable int_of : Tree → Option ℕ
int_of (Tree.int n) = some n
int_of _ = none

unfoldable array_of : Tree → Option (List Tree)
array_of Tree.coins = some (Tree.coin (codes "aa") 1 5 ∷ Tree.coin (codes "bb") 0 0 ∷ [])
array_of _ = none

abbrev coins_reply : List (Bytes × Tree)
coins_reply = (codes "result", Tree.coins) ∷ (codes "error", Tree.null) ∷ []

unfoldable obj_of : Tree → Option (List (Bytes × Tree))
obj_of (Tree.coin t v a) =
    some
      ((codes "txid", Tree.str t) ∷ (codes "vout", Tree.int v) ∷ (codes "amount", Tree.int a) ∷ [])
obj_of Tree.answered = some coins_reply
obj_of _ = none

unfoldable find : List (Bytes × Tree) → Bytes → Tree
find [] k = Tree.null
find ((i, v) ∷ o) k = let rest = find o k in if bytes_eq i k then v else rest

-- A reader that knows one text.
abbrev tree_json : Json ℕ
tree_json = record {
  Value = Tree;
  type = type_of;
  get_str = str_of;
  get_int = int_of;
  get_real = int_of;
  get_array = array_of;
  get_obj = obj_of;
  find_value = find;
  of_str = Tree.str;
  of_int = Tree.int;
  of_array = λ vs. Tree.null;
  of_obj = λ o. Tree.null;
  write_string = λ v. codes "{}";
  read_string = λ s. if bytes_eq s (codes "ok") then some (Tree.answered) else none;
}

abbrev encoded : Bytes → Bytes
encoded s = codes "dTpw"

abbrev login : Login
login = record { user = codes "u"; passwd = codes "p"; ip = codes "127.0.0.1"; port = codes "8332" }

abbrev header : List Bytes
header = codes "Server: wallet" ∷ []

header-AreLines : All IsLine header
header-AreLines = ((lacks_lem 10 (codes "Server: wallet") refl, refl), tt)

abbrev reply : Bytes
reply = reply_text 200 (codes "OK") header (codes "ok") []

-- It answers every request so, and counts them.
abbrev wallet_server : Server
wallet_server = record { Srv = ℕ; ask = λ n ip port post. (ℕ.suc n, some reply) }

-- A wallet that refuses the login, whatever else it says.
abbrev closed_server : Server
closed_server = record {
  Srv = ℕ;
  ask = λ n ip port post.
      (ℕ.suc n, some (reply_text 401 (codes "Unauthorized") header (codes "ok") []));
}

http_post-read_example :
    let request =
      get_line (http_post (codes "hello") ((codes "Authorization", codes "Basic dTpw") ∷ [])) in
    (request.0 ≡ codes "POST / HTTP/1.1" ++ (13 ∷ []))
    × ((hs : Headers) × (read_http_header request.1 []
          ≡ some ((hs, length (codes "hello")), codes "hello")))
http_post-read_example =
    http_post-read (codes "hello") (codes "Basic dTpw") (lacks_lem 10 (codes "Basic dTpw") refl)
      (omega arith)

read_http-reply_example :
    (hs : Headers) × (read_http (reply_text 200 (codes "OK") header (codes "ok") (codes "rest"))
      ≡ some (200, hs, codes "ok"))
read_http-reply_example =
    read_http-reply 200 (codes "OK") header (codes "ok") (codes "rest")
      (lacks_lem 10 (codes "OK") refl) header-AreLines (omega arith) (omega arith)

read_http-total_example : (r : ℕ × Headers × Bytes) × (read_http (codes "HTTP/1.1") ≡ some r)
read_http-total_example = read_http-total (codes "HTTP/1.1")

abbrev old_coin : Unspent ℕ
old_coin = record { tx_id = codes "cc"; vout = 0; amount = 9 }

listed_unspent-Grows_example :
    Grows tree_json
      (ltb 0)
      0
      0
      (old_coin ∷ [])
      (listed_unspent tree_json (ltb 0) 0 0 (some coins_reply) (old_coin ∷ []))
listed_unspent-Grows_example =
    listed_unspent-Grows tree_json (ltb 0) 0 0 (some coins_reply) (old_coin ∷ [])

speaks :
    Speaks tree_json (codes "ok") (codes "result", Tree.coins) ((codes "error", Tree.null) ∷ [])
unfolding bytes_eq obj_of
speaks = record { value = Tree.answered; parsed = refl; object = refl; text = refl }

status_accepted : is_refusal tree_json 200 ≡ false
unfolding is_refusal
status_accepted = refl

call_rpc-reply_example :
    call_rpc tree_json encoded wallet_server login (codes "listunspent") [] 0
    ≡ (1, some coins_reply)
call_rpc-reply_example =
    call_rpc-reply tree_json encoded wallet_server login (codes "listunspent") [] 0 1 200
      (codes "OK") header (codes "ok") [] (codes "result", Tree.coins)
      ((codes "error", Tree.null) ∷ []) (lacks_lem 10 (codes "OK") refl) header-AreLines
      (omega arith) (omega arith) status_accepted speaks refl

refused_calls_fail_example :
    ((list_unspent tree_json encoded closed_server login (ltb 0) 0 0 (old_coin ∷ []) 7).1
      ≡ (old_coin ∷ [], false))
    × ((sign_raw_transaction tree_json encoded closed_server login (codes "00") 7).1 ≡ none)
    × ((send_raw_transaction tree_json encoded closed_server login (codes "00") 7).1 ≡ false)
    × ((get_new_address tree_json encoded closed_server login 7).1 ≡ none)
    × ((get_transaction tree_json encoded closed_server login (codes "00") 7).1 ≡ false)
    × (request_address_book tree_json encoded closed_server login 7 ≡ (8, none))
refused_calls_fail_example =
    refused_calls_fail tree_json encoded closed_server login (ltb 0) 0 0 (old_coin ∷ [])
      (codes "00") 7 401 (codes "Unauthorized") header (codes "ok") [] (omega arith) (omega arith)
      (omega arith) (omega arith) (lacks_lem 10 (codes "Unauthorized") refl) header-AreLines
      (omega arith) (λ post. refl)

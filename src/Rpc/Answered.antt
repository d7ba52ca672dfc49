-- ===== src/Rpc/Answered.antt =====
-- The calls on a server that answers, and on one that does not.
use xhubv.Prelude.{
  ℕ, ◌^◌, ◌≤◌, ◌<◌, ◌≡◌, ◌≢◌, refl, ap, ◌∙◌, List, [], ◌∷◌, Bool, true, false, none, some, Bytes,
  All, length, ◌>>=◌, arith, ==_iff,
}
use xhubv.Rpc.Text.{codes, is_empty}
use xhubv.Rpc.Http.{http_post, max_size}
use xhubv.Rpc.Lines.{Lacks}
use xhubv.Rpc.RoundTrip.{IsLine}
use xhubv.Rpc.Reply.{reply_text, read_http-reply}
use xhubv.Rpc.Replies.{Json, Object, is_refusal, reply_of, listed_unspent}
use xhubv.Rpc.Calls.{
  Server, Login, json_rpc_request, authorization, call_rpc, list_unspent, sign_raw_transaction,
  send_raw_transaction, get_new_address, get_transaction, list_accounts, request_address_book,
}
use xhubv.Session.Payment.{Unspent}

module _ {D : Type 0} (j : Json D) where
  -- A reply that json_spirit reads as an object which is not empty.
  pub record Speaks (body : Bytes) (p : Bytes × j.Value) (o : Object j) : Type 0 where
    pub value : j.Value
    pub parsed : j.read_string body ≡ some value
    pub object : j.get_obj value ≡ some (p ∷ o)
    pub text : is_empty body ≡ false

  reply_of-reply :
      (status : ℕ) (reason : Bytes) (ls : List Bytes) (body more : Bytes) (p : Bytes × j.Value)
      (o : Object j)
      → Lacks 10 reason
      → All IsLine ls
      → status < 2 ^ 32
      → length body ≤ max_size
      → is_refusal j status ≡ false
      → Speaks body p o
      → reply_of j (reply_text status reason ls body more) ≡ some (p ∷ o)
  unfolding reply_of
  reply_of-reply status reason ls body more p o h are small fits fine s =
      let read = read_http-reply status reason ls body more h are small fits in
      rw (read.1, fine, s.text, s.parsed, s.object) refl

  -- CallRPC refuses the statuses above 400, but for 404 and 500.
  refused :
      (status : ℕ)
      → 400 < status
      → status < 2 ^ 31
      → status ≢ 404
      → status ≢ 500
      → is_refusal j status ≡ true
  unfolding is_refusal
  refused status above small no_404 no_500 =
      ground (arith, ==_iff status 401, ==_iff status 400, ==_iff status 404, ==_iff status 500)

  reply_of-refused :
      (status : ℕ) (reason : Bytes) (ls : List Bytes) (body more : Bytes)
      → Lacks 10 reason
      → All IsLine ls
      → length body ≤ max_size
      → status < 2 ^ 32
      → is_refusal j status ≡ true
      → reply_of j (reply_text status reason ls body more) ≡ none
  unfolding reply_of
  reply_of-refused status reason ls body more h are fits small refusal =
      rw ((read_http-reply status reason ls body more h are small fits).1, refusal) refl

  module _ (base64 : Bytes → Bytes) (net : Server) (l : Login) where
    -- What a call sends.
    abbrev pub posted : Bytes → List j.Value → Bytes
    posted method params =
        http_post (json_rpc_request j base64 net l method params 1)
          ((codes "Authorization", authorization j base64 net l) ∷ [])

    -- A call whose server answers with a reply in HTTP, whatever its header lines are up to a
    -- last one that gives the length of the body, returns the object that json_spirit reads in
    -- the body, if that is not empty and the status is not one of those that CallRPC refuses. No
    -- line of the reply has a newline inside and no header line is empty; the status is of 32
    -- bits and the body has at most MAX_SIZE bytes.
    pub call_rpc-reply :
        (method : Bytes) (params : List j.Value) (w w' : net.Srv) (status : ℕ) (reason : Bytes)
        (ls : List Bytes) (body more : Bytes) (p : Bytes × j.Value) (o : Object j)
        → Lacks 10 reason
        → All IsLine ls
        → status < 2 ^ 32
        → length body ≤ max_size
        → is_refusal j status ≡ false
        → Speaks body p o
        → net.ask w l.ip l.port (posted method params)
          ≡ (w', some (reply_text status reason ls body more))
        → call_rpc j base64 net l method params w ≡ (w', some (p ∷ o))
    unfolding call_rpc
    call_rpc-reply method params w w' status reason ls body more p o h are small fits fine s
          answers =
        ap (λ a. (a.0, a.1 >>= reply_of j)) answers
        ∙ ap (λ r. (w', r)) (reply_of-reply status reason ls body more p o h are small fits fine s)

    calls_fail :
        (positive : D → Bool) (junk : ℕ) (stray : D) (entries : List (Unspent D)) (text : Bytes)
        (w : net.Srv)
        → ((post : Bytes) → ((net.ask w l.ip l.port post).1 >>= reply_of j) ≡ none)
        → ((list_unspent j base64 net l positive junk stray entries w).1 ≡ (entries, false))
          × ((sign_raw_transaction j base64 net l text w).1 ≡ none)
          × ((send_raw_transaction j base64 net l text w).1 ≡ false)
          × ((get_new_address j base64 net l w).1 ≡ none)
          × ((get_transaction j base64 net l text w).1 ≡ false)
          × (request_address_book j base64 net l w
              ≡ ((net.ask w l.ip l.port (posted (codes "listaccounts") [])).0, none))
    unfolding list_unspent sign_raw_transaction send_raw_transaction get_new_address get_transaction
        request_address_book list_accounts call_rpc listed_unspent
    calls_fail positive junk stray entries text w throws = (
      rw (throws (posted (codes "listunspent") [])) refl,
      rw (throws (posted (codes "signrawtransaction") (j.of_str text ∷ []))) refl,
      rw (send_raw_transaction, throws (posted (codes "sendrawtransaction") (j.of_str text ∷ [])))
          refl,
      rw (throws (posted (codes "getnewaddress") [])) refl,
      rw (get_transaction, throws (posted (codes "gettransaction") (j.of_str text ∷ []))) refl,
      rw (request_address_book, throws (posted (codes "listaccounts") [])) refl,
    )

    -- If a server answers every request with a reply in HTTP whose status lies above 400 and
    -- below 2 ^ 31 and is neither 404 nor 500, such as 401 for a wrong login, then every call
    -- fails, whatever the header lines and the body are: listUnspent leaves the caller's list as
    -- it is, signRawTransaction and getNewAddress give no text, sendRawTransaction and
    -- getTransaction return false, and requestAddressBook asks for the accounts alone and gives
    -- no book. No line of the reply has a newline inside, no header line is empty, the last one
    -- gives the length of the body, and the body has at most MAX_SIZE bytes.
    pub refused_calls_fail :
        (positive : D → Bool) (junk : ℕ) (stray : D) (entries : List (Unspent D)) (text : Bytes)
        (w : net.Srv) (status : ℕ) (reason : Bytes) (ls : List Bytes) (body more : Bytes)
        → 400 < status
        → status < 2 ^ 31
        → status ≢ 404
        → status ≢ 500
        → Lacks 10 reason
        → All IsLine ls
        → length body ≤ max_size
        → ((post : Bytes)
            → (net.ask w l.ip l.port post).1 ≡ some (reply_text status reason ls body more))
        → ((list_unspent j base64 net l positive junk stray entries w).1 ≡ (entries, false))
          × ((sign_raw_transaction j base64 net l text w).1 ≡ none)
          × ((send_raw_transaction j base64 net l text w).1 ≡ false)
          × ((get_new_address j base64 net l w).1 ≡ none)
          × ((get_transaction j base64 net l text w).1 ≡ false)
          × (request_address_book j base64 net l w
              ≡ ((net.ask w l.ip l.port (posted (codes "listaccounts") [])).0, none))
    refused_calls_fail positive junk stray entries text w status reason ls body more above small
          no_404 no_500 h are fits answers =
        calls_fail positive junk stray entries text w λ post.
          ap (λ o. o >>= reply_of j) (answers post)
          ∙ reply_of-refused status reason ls body more h are fits (omega (arith, small))
              (refused status above small no_404 no_500)

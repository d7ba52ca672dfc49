-- ===== src/Rpc/Reply.antt =====
-- A server's reply, written as HTTP, at the reader.
use xhubv.Prelude.{
  ℕ, ◌-◌, ◌^◌, ◌≤◌, ◌<◌, ◌≡◌, refl, sym, ap, ◌∙◌, arith, List, [], ◌∷◌, ◌++◌, false, ◌||◌, some,
  Bytes, All, length, length-append, append_assoc, append_nil, take-append, replicate, ltb, leb,
  map_option,
}
use xhubv.Rpc.Text.{codes, split_at, decimal}
use xhubv.Rpc.Http.{
  Headers, line_end, read_http_header, read_http_status, read_http, read_message, read_body,
  protocol, status_of_word, status_of_line, second_word, max_size,
}
use xhubv.Rpc.Lines.{
  Lacks, lacks_lem, digits-Lacks, Lacks-append, split_at-append, decimal-AreDigits, atoi-decimal,
}
use xhubv.Rpc.RoundTrip.{
  IsLine, lines_before, noted, get_line-line_end, length_line, length_line-IsLine, noted-append,
  note_header-length_line, read_http_header-lines,
}

abbrev status_line : ℕ → Bytes → Bytes
status_line status reason = codes "HTTP/1.1 " ++ (decimal status ++ (32 ∷ reason))

abbrev reply_lines : List Bytes → Bytes → List Bytes
reply_lines ls body = ls ++ (length_line (length body) ∷ [])

-- A reply with some header lines, the last of which gives the length of its body; `more` follows.
abbrev pub reply_text : ℕ → Bytes → List Bytes → Bytes → Bytes → Bytes
reply_text status reason ls body more =
    status_line status reason
    ++ (line_end ++ lines_before (reply_lines ls body) (line_end ++ (body ++ more)))

status_line-Lacks :
    (status : ℕ) (reason : Bytes) → Lacks 10 reason → Lacks 10 (status_line status reason)
status_line-Lacks status reason h =
    Lacks-append 10 (codes "HTTP/1.1 ") (decimal status ++ (32 ∷ reason))
      (lacks_lem 10 (codes "HTTP/1.1 ") refl)
      (Lacks-append 10 (decimal status) (32 ∷ reason)
        (digits-Lacks 10 (decimal status) refl (decimal-AreDigits status))
        ((λ e. omega (arith, e)), h))

second_word-status :
    (status : ℕ) (reason : Bytes)
    → second_word (status_line status reason ++ (13 ∷ [])) ≡ some (decimal status)
unfolding second_word split_at
second_word-status status reason =
    rw
      (
        append_assoc (decimal status) (32 ∷ reason) (13 ∷ []),
        split_at-append 32 (decimal status) (reason ++ (13 ∷ []))
            (digits-Lacks 32 (decimal status) refl (decimal-AreDigits status)),
      )
      refl

read_message-whole : (body more : Bytes) → read_message (length body) (body ++ more) ≡ body
unfolding read_message
read_message-whole body more =
    rw (take-append body more)
      (ap (λ n. body ++ replicate n 0) (none_left body more) ∙ sym (append_nil body))
  where
    none_left : (a b : Bytes) → length a - length (a ++ b) ≡ 0
    none_left a b = omega (arith, length-append a b)

noted-reply :
    (ls : List Bytes) (body : Bytes)
    → length body < 2 ^ 32
    → (noted (reply_lines ls body) ([], 0)).1 ≡ length body
unfolding noted
noted-reply ls body small =
    ap (λ h. h.1) (noted-append ls (length_line (length body) ∷ []) ([], 0))
    ∙ note_header-length_line (length body) (noted ls ([], 0)) small

all_lines : (ls : List Bytes) (body : Bytes) → All IsLine ls → All IsLine (reply_lines ls body)
all_lines [] body are = (length_line-IsLine (length body), tt)
all_lines (l ∷ ls) body are = (are.0, all_lines ls body are.1)

status_of_line-status :
    (status : ℕ) (reason s : Bytes)
    → status < 2 ^ 32
    → let line = status_line status reason ++ (13 ∷ []) in
      status_of_line 0 (line, s) ≡ (status, protocol line, s)
unfolding status_of_line status_of_word
status_of_line-status status reason s small =
    ap (status_of_word 0 (status_line status reason ++ (13 ∷ []), s))
      (second_word-status status reason)
    ∙ word_status (status_line status reason ++ (13 ∷ []))
  where
    word_status :
        (line : Bytes)
        → status_of_word 0 (line, s) (some (decimal status)) ≡ (status, protocol line, s)
    word_status line = ap (λ k. (k, protocol line, s)) (atoi-decimal status small)

read_body-reply :
    (status proto : ℕ) (hs : Headers) (body more : Bytes)
    → length body ≤ max_size
    → (hs' : Headers) × (read_body status proto ((hs, length body), body ++ more)
        ≡ (status, hs', body))
unfolding read_body
read_body-reply status proto hs body more fits =
    let fair : leb (2 ^ 31) (length body) || ltb max_size (length body) ≡ false = ground arith in
    rw (fair, read_message-whole body more) (_, refl)

-- A reply whose first line has the version, a status and a reason, whose header lines are
-- arbitrary up to a last one that gives the length of the body in decimal, and whose body
-- follows the empty line, is read as the status and the body, whatever comes behind. No line has
-- a newline inside and no header line is empty; the status is of 32 bits and the body has at
-- most MAX_SIZE bytes.
pub read_http-reply :
    (status : ℕ) (reason : Bytes) (ls : List Bytes) (body more : Bytes)
    → Lacks 10 reason
    → All IsLine ls
    → status < 2 ^ 32
    → length body ≤ max_size
    → (hs : Headers) × (read_http (reply_text status reason ls body more) ≡ some (status, hs, body))
unfolding read_http read_http_status
read_http-reply status reason ls body more h are small fits =
    let tail = lines_before (reply_lines ls body) (line_end ++ (body ++ more)) in
    let proto = protocol (status_line status reason ++ (13 ∷ [])) in
    let status_read : read_http_status (reply_text status reason ls body more) 0
        ≡ (status, proto, tail) =
      ap (status_of_line 0)
        (get_line-line_end (status_line status reason) tail (status_line-Lacks status reason h))
      ∙ status_of_line-status status reason tail small in
    let last =
      read_body-reply status proto (noted (reply_lines ls body) ([], 0)).0 body more fits in
    (
      last.0,
      ap (λ r. map_option (read_body r.0 r.1) (read_http_header r.2 [])) status_read
          ∙ ap (map_option (read_body status proto))
              (read_http_header-lines (reply_lines ls body) (body ++ more) (all_lines ls body are))
          ∙ ap
              (λ n. some (
                read_body status proto
                  (((noted (reply_lines ls body) ([], 0)).0, n), body ++ more)))
              (noted-reply ls body (omega arith))
          ∙ ap some last.1,
    )

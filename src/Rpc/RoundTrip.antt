-- ===== src/Rpc/RoundTrip.antt =====
-- The reader of HTTP on what is written as HTTP: the loop over the headers, the request of this client, and a
-- server's reply.
use xhubv.Prelude.{
  ℕ, zero, suc, ◌^◌, ◌≤◌, ◌<◌, ◌≡◌, refl, sym, ap, ◌∙◌, arith, List, [], ◌∷◌, ◌++◌, true, false,
  some, Bytes, All, bytes_eq, length, length-append, append_assoc,
}
use xhubv.Rpc.Text.{
  codes, is_empty, get_line, split_at, trim, to_lower, atoi, decimal, trim_left, trim_right,
}
use xhubv.Rpc.Http.{
  Headers, line_end, header_lines, post_headers, http_post, note_header, is_last, header_loop,
  read_http_header,
}
use xhubv.Rpc.Lines.{
  Lacks, lacks, Lacks-append, lacks_lem, digits-Lacks, get_line-append, decimal-AreDigits,
  trim-digits, atoi-decimal,
}

-- A header's line is not empty and has no newline.
abbrev pub IsLine : Bytes → Type 0
IsLine l = Lacks 10 l × (is_empty l ≡ false)

-- The lines, each with its end, before `s`.
unfoldable pub lines_before : List Bytes → Bytes → Bytes
lines_before [] s = s
lines_before (l ∷ ls) s = l ++ (line_end ++ lines_before ls s)

-- What the reader notes of the lines; it leaves the carriage return on each.
unfoldable pub noted : List Bytes → Headers × ℕ → Headers × ℕ
noted [] h = h
noted (l ∷ ls) h = noted ls (note_header (l ++ (13 ∷ [])) h)

Lacks-snoc : (l : Bytes) → Lacks 10 l → Lacks 10 (l ++ (13 ∷ []))
Lacks-snoc [] h = (λ e. omega (arith, e), tt)
Lacks-snoc (c ∷ l) h = (h.0, Lacks-snoc l h.1)

-- A line that ends in a carriage return and a newline.
pub get_line-line_end :
    (l s : Bytes) → Lacks 10 l → get_line (l ++ (line_end ++ s)) ≡ (l ++ (13 ∷ []), s)
get_line-line_end l s h =
    ap get_line (sym (append_assoc l (13 ∷ []) (10 ∷ s)))
    ∙ get_line-append (l ++ (13 ∷ [])) s (Lacks-snoc l h)

is_last-line : (l : Bytes) → is_empty l ≡ false → is_last (l ++ (13 ∷ [])) ≡ false
unfolding bytes_eq
is_last-line [] h = absurd (ground (arith, h))
is_last-line (c ∷ []) h = ground arith
is_last-line (c ∷ d ∷ l) h = ground arith

-- The loop notes the lines one after the other up to the empty one, with a unit of fuel for each and one more.
pub header_loop-lines :
    (ls : List Bytes) (body : Bytes) (k : ℕ) (h : Headers × ℕ)
    → All IsLine ls
    → length ls < k
    → header_loop k (lines_before ls (line_end ++ body)) h ≡ some (noted ls h, body)
unfolding header_loop lines_before noted get_line bytes_eq
header_loop-lines ls body zero h are fuel = absurd (omega arith)
header_loop-lines [] body (suc k) h are fuel = refl
header_loop-lines (l ∷ ls) body (suc k) h are fuel =
    rw (get_line-line_end l (lines_before ls (line_end ++ body)) are.0.0) (
      rw (is_last-line l are.0.1)
        (header_loop-lines ls body k (note_header (l ++ (13 ∷ [])) h) are.1 (omega arith)))

abbrev pub length_line : ℕ → Bytes
length_line n = codes "Content-Length: " ++ decimal n

-- The line that gives the length.
pub note_header-length_line :
    (n : ℕ) (h : Headers × ℕ) → n < 2 ^ 32 → (note_header (length_line n ++ (13 ∷ [])) h).1 ≡ n
unfolding note_header split_at bytes_eq trim_left trim_right trim to_lower
note_header-length_line n h small =
    ap atoi (trim-digits (decimal n) (decimal-AreDigits n)) ∙ atoi-decimal n small

pub length_line-IsLine : (n : ℕ) → IsLine (length_line n)
length_line-IsLine n = (
  Lacks-append 10 (codes "Content-Length: ") (decimal n)
      (lacks_lem 10 (codes "Content-Length: ") refl)
      (digits-Lacks 10 (decimal n) refl (decimal-AreDigits n)),
  refl,
)

pub noted-append :
    (ls ms : List Bytes) (h : Headers × ℕ) → noted (ls ++ ms) h ≡ noted ms (noted ls h)
unfolding noted
noted-append [] ms h = refl
noted-append (l ∷ ls) ms h = noted-append ls ms (note_header (l ++ (13 ∷ [])) h)

-- The header lines that HTTPPost writes for the caller's.
abbrev request_lines : Bytes → Bytes → List Bytes
request_lines msg v =
    codes "User-Agent: xbridgep2p-json-rpc"
    ∷ codes "Host: 127.0.0.1"
    ∷ codes "Content-Type: application/json"
    ∷ length_line (length msg)
    ∷ codes "Connection: close"
    ∷ codes "Accept: application/json"
    ∷ (codes "Authorization: " ++ v)
    ∷ []

post_headers-lines :
    (msg v : Bytes)
    → post_headers msg ((codes "Authorization", v) ∷ [])
      ≡ lines_before (request_lines msg v) (line_end ++ msg)
unfolding post_headers header_lines lines_before
post_headers-lines msg v = rw (append_assoc v line_end (line_end ++ msg)) refl

authorization-IsLine : (v : Bytes) → Lacks 10 v → IsLine (codes "Authorization: " ++ v)
authorization-IsLine v h = (
  Lacks-append 10 (codes "Authorization: ") v (lacks_lem 10 (codes "Authorization: ") refl) h,
  refl,
)

by_test : (s : Bytes) → lacks 10 s ≡ true → is_empty s ≡ false → IsLine s
by_test s h k = (lacks_lem 10 s h, k)

request_lines-AreLines : (msg v : Bytes) → Lacks 10 v → All IsLine (request_lines msg v)
request_lines-AreLines msg v h = (
  by_test (codes "User-Agent: xbridgep2p-json-rpc") refl refl,
  (
    by_test (codes "Host: 127.0.0.1") refl refl,
    (
      by_test (codes "Content-Type: application/json") refl refl,
      (
        length_line-IsLine (length msg),
        (
          by_test (codes "Connection: close") refl refl,
          (by_test (codes "Accept: application/json") refl refl, (authorization-IsLine v h, tt)),
        ),
      ),
    ),
  ),
)

noted-request :
    (msg v : Bytes) (h : Headers × ℕ)
    → length msg < 2 ^ 32
    → (noted (request_lines msg v) h).1 ≡ length msg
unfolding noted note_header split_at bytes_eq trim_left trim_right trim to_lower
noted-request msg v h small =
    note_header-length_line (length msg)
      (noted
        (codes "User-Agent: xbridgep2p-json-rpc"
          ∷ codes "Host: 127.0.0.1"
          ∷ codes "Content-Type: application/json"
          ∷ [])
        h)
      small

length-lines_before : (ls : List Bytes) (s : Bytes) → length ls ≤ length (lines_before ls s)
unfolding lines_before
length-lines_before [] s = omega arith
length-lines_before (l ∷ ls) s =
    omega (arith, length-append l (line_end ++ lines_before ls s), length-lines_before ls s)

-- The whole of the headers, with the fuel that the reader takes.
pub read_http_header-lines :
    (ls : List Bytes) (body : Bytes)
    → All IsLine ls
    → read_http_header (lines_before ls (line_end ++ body)) [] ≡ some (noted ls ([], 0), body)
unfolding read_http_header
read_http_header-lines ls body are =
    header_loop-lines ls body (suc (length (lines_before ls (line_end ++ body)))) ([], 0) are
      (omega (arith, length-lines_before ls (line_end ++ body)))

-- The request that CallRPC writes, read by the client's own reader of HTTP: behind the first
-- line, the loop on the headers ends at the message, which is what is left of the stream, and
-- has read its length. The authorization has no newline, and the message less than 2 ^ 32 bytes.
pub http_post-read :
    (msg v : Bytes)
    → Lacks 10 v
    → length msg < 2 ^ 32
    → let request = get_line (http_post msg ((codes "Authorization", v) ∷ [])) in
      (request.0 ≡ codes "POST / HTTP/1.1" ++ (13 ∷ []))
      × ((hs : Headers) × (read_http_header request.1 [] ≡ some ((hs, length msg), msg)))
unfolding http_post get_line
http_post-read msg v h small = (
  refl,
  (
    (noted (request_lines msg v) ([], 0)).0,
    ap (λ s. read_http_header s []) (post_headers-lines msg v)
        ∙ read_http_header-lines (request_lines msg v) msg (request_lines-AreLines msg v h)
        ∙ ap (λ n. some (((noted (request_lines msg v) ([], 0)).0, n), msg))
            (noted-request msg v ([], 0) small),
  ),
)

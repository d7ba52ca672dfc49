-- ===== src/Rpc/Http.antt =====
-- HTTPPost, ReadHTTPStatus, ReadHTTPHeader and ReadHTTP (src/bitcoinrpc.cpp). A stream is the bytes that are
-- left to read, up to its end; an int is its 32-bit word.
use xhubv.Prelude.{
  ℕ, zero, suc, ◌^◌, List, [], ◌∷◌, ◌++◌, Bool, ◌&&◌, ◌||◌, Option, none, some, Bytes, Bytes-key,
  bytes_eq, insert, lookup, length, take, replicate, ◌-◌, ltb, leb, ◌==◌, if◌then◌else◌, ◌>>=◌,
  map_option,
}
use xhubv.Rpc.Text.{codes, get_line, split_at, trim, to_lower, atoi, decimal}

-- MAX_SIZE
abbrev pub max_size : ℕ
max_size = 33554432

abbrev pub Headers : Type 0
Headers = List (Bytes × Bytes)

abbrev pub line_end : Bytes
line_end = 13 ∷ 10 ∷ []

-- The headers of the caller, in the order of the map.
unfoldable pub header_lines : Headers → Bytes
header_lines [] = []
header_lines ((k, v) ∷ hs) = k ++ (codes ": " ++ (v ++ (line_end ++ header_lines hs)))

-- What HTTPPost writes behind the request's first line.
unfoldable pub post_headers : Bytes → Headers → Bytes
unfolding header_lines
post_headers msg hs =
    codes "User-Agent: xbridgep2p-json-rpc"
    ++ (line_end
        ++ (codes "Host: 127.0.0.1"
            ++ (line_end
                ++ (codes "Content-Type: application/json"
                    ++ (line_end
                        ++ (codes "Content-Length: "
                            ++ (decimal (length msg)
                                ++ (line_end
                                    ++ (codes "Connection: close"
                                        ++ (line_end
                                            ++ (codes "Accept: application/json"
                                                ++ (line_end
                                                    ++ (header_lines hs
                                                        ++ (line_end ++ msg))))))))))))))

unfoldable pub http_post : Bytes → Headers → Bytes
unfolding post_headers
http_post msg hs = codes "POST / HTTP/1.1" ++ (line_end ++ post_headers msg hs)

-- The text behind the first "HTTP/1.", if it has one (strstr, and then + 7).
unfoldable pub http_version : Bytes → Option Bytes
http_version [] = none
http_version (c ∷ s) =
    let later = http_version s in
    if c == 0
    then none
    else if bytes_eq (take 7 (c ∷ s)) (codes "HTTP/1.")
    then some (version_of (c ∷ s))
    else later
  where
    version_of : Bytes → Bytes
    version_of (_ ∷ _ ∷ _ ∷ _ ∷ _ ∷ _ ∷ _ ∷ v) = v
    version_of _ = []

-- The second word of a line that is split at its blanks.
unfoldable pub second_word : Bytes → Option Bytes
unfolding split_at
second_word line = do
  (first, rest) ← split_at 32 line
  some (elim (split_at 32 rest) [ none ↦ rest | some r ↦ r.0 ])

unfoldable pub protocol : Bytes → ℕ
unfolding http_version
protocol line = elim (http_version line) [ none ↦ 0 | some v ↦ atoi v ]

-- What the line and its second word give: the status, the protocol's number, and the rest of the stream. `proto` is
-- the caller's, which stays when the line has one word only.
unfoldable pub status_of_word : ℕ → Bytes × Bytes → Option Bytes → ℕ × ℕ × Bytes
status_of_word proto (line, rest) none = (500, proto, rest)
status_of_word proto (line, rest) (some w) = (atoi w, protocol line, rest)

unfoldable pub status_of_line : ℕ → Bytes × Bytes → ℕ × ℕ × Bytes
unfolding second_word status_of_word
status_of_line proto l = status_of_word proto l (second_word l.0)

unfoldable pub read_http_status : Bytes → ℕ → ℕ × ℕ × Bytes
unfolding get_line status_of_line
read_http_status s proto = status_of_line proto (get_line s)

-- One header's line, which may give the length.
unfoldable pub note_header : Bytes → Headers × ℕ → Headers × ℕ
unfolding split_at trim to_lower
note_header line (hs, len) = elim (split_at 58 line) [
  | none ↦ (hs, len)
  | some (name, value) ↦
      let k = to_lower (trim name) in
      let v = trim value in
      (insert k v hs, if bytes_eq k (codes "content-length") then atoi v else len)
]

abbrev pub is_last : Bytes → Bool
is_last line = bytes_eq line [] || bytes_eq line (13 ∷ [])

-- The loop on the lines. The fuel is spent by the line.
unfoldable pub header_loop : ℕ → Bytes → Headers × ℕ → Option ((Headers × ℕ) × Bytes)
unfolding note_header
header_loop zero s h = none
header_loop (suc k) s h =
    let (line, rest) = get_line s in
    let more = header_loop k rest (note_header line h) in
    if is_last line then some (h, rest) else more

-- The headers, the length, and the rest of the stream.
unfoldable pub read_http_header : Bytes → Headers → Option ((Headers × ℕ) × Bytes)
unfolding header_loop
read_http_header s hs = header_loop (suc (length s)) s (hs, 0)

-- `n` bytes of the stream; what the stream does not have stays zero.
unfoldable pub read_message : ℕ → Bytes → Bytes
read_message n s = take n s ++ replicate (n - length s) 0

abbrev connection : Bytes
connection = codes "connection"

-- The header "connection", which the reply may leave out.
settle_connection : ℕ → Headers → Headers
settle_connection proto hs =
    let now : Bytes = elim (lookup connection hs) [ none ↦ [] | some v ↦ v ] in
    if bytes_eq now (codes "close") || bytes_eq now (codes "keep-alive")
    then insert connection now hs
    else insert connection
        (if leb 1 proto && ltb proto (2 ^ 31) then codes "keep-alive" else codes "close") hs

-- The status, the headers and the message, from what the headers say. An int is negative from 2 ^ 31 on.
unfoldable pub read_body : ℕ → ℕ → (Headers × ℕ) × Bytes → ℕ × Headers × Bytes
unfolding read_message settle_connection
read_body status proto ((hs, len), body) =
    if leb (2 ^ 31) len || ltb max_size len
    then (500, hs, [])
    else (status, settle_connection proto hs, read_message len body)

unfoldable pub read_http : Bytes → Option (ℕ × Headers × Bytes)
unfolding read_http_status read_http_header read_body
read_http s =
    let (status, proto, rest) = read_http_status s 0 in
    map_option (read_body status proto) (read_http_header rest [])

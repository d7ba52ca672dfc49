-- ===== src/Rpc/Outcomes.antt =====
-- What the calls come to: on any stream, on a server's reply, on a list of coins, and on an exception.
use xhubv.Prelude.{
  ℕ, zero, suc, ◌≤◌, ◌<◌, ◌≡◌, refl, ap, ◌∙◌, arith, inl, inr, List, [], ◌∷◌, ◌++◌, Bool, true,
  false, Option, some, Bytes, All, bytes_eq, length, append_assoc, append_nil, map_option, ◌==◌,
  ◌>>=◌, Bool-cases, Option-cases,
}
use xhubv.Rpc.Text.{get_line}
use xhubv.Rpc.Http.{
  Headers, is_last, header_loop, note_header, read_http_header, read_http_status, read_http,
  read_body,
}
use xhubv.Rpc.Replies.{
  Json, ValueType, Object, has_type, result_of, read_coin, blank, is_coin, push_coins,
  listed_unspent,
}
use xhubv.Session.Payment.{Unspent}

get_line-shorter : (s : Bytes) → length (get_line s).1 ≤ length s
unfolding get_line
get_line-shorter [] = omega arith
get_line-shorter (c ∷ s) = elim (Bool-cases (c == 10)) [
  | inl ends ↦ rw ends (omega arith)
  | inr more ↦ rw more (omega (arith, get_line-shorter s))
]

-- A line takes at least its newline.
get_line-less : (c : ℕ) (s : Bytes) → length (get_line (c ∷ s)).1 ≤ length s
unfolding get_line
get_line-less c s = elim (Bool-cases (c == 10)) [
  | inl ends ↦ rw ends (omega arith)
  | inr more ↦ rw more (get_line-shorter s)
]

header_loop_end : (k : ℕ) (h : Headers × ℕ) → header_loop (suc k) [] h ≡ some (h, [])
unfolding header_loop get_line bytes_eq
header_loop_end k h = refl

header_loop-total :
    (k : ℕ) (s : Bytes) (h : Headers × ℕ)
    → length s < k
    → (r : (Headers × ℕ) × Bytes) × (header_loop k s h ≡ some r)
unfolding header_loop
header_loop-total zero s h fuel = absurd (omega arith)
header_loop-total (suc k) [] h fuel = ((h, []), header_loop_end k h)
header_loop-total (suc k) (c ∷ s) h fuel = elim (Bool-cases (is_last (get_line (c ∷ s)).0)) [
  | inl last ↦ rw last (_, refl)
  | inr more ↦ rw more (
      header_loop-total k (get_line (c ∷ s)).1 (note_header (get_line (c ∷ s)).0 h)
        (omega (arith, get_line-less c s)))
]

-- The reader of HTTP comes to an end on every stream: the fuel of the loop on the headers, which
-- is the length of the stream and one, is never spent.
pub read_http-total : (s : Bytes) → (r : ℕ × Headers × Bytes) × (read_http s ≡ some r)
unfolding read_http read_http_header
read_http-total s =
    let (status, proto, rest) = read_http_status s 0 in
    let loop = header_loop-total (suc (length rest)) rest ([], 0) (omega arith) in
    (_, ap (map_option (read_body status proto)) loop.1)

-- What is pushed behind the caller's list is coins.
module _ {D : Type 0} (j : Json D) (positive : D → Bool) (junk : ℕ) (stray : D) where
  abbrev pub AreCoins : List (Unspent D) → Type 0
  AreCoins us = All (λ u. is_coin j positive junk stray u ≡ true) us

  abbrev pub Grows : List (Unspent D) → List (Unspent D) × Bool → Type 0
  Grows entries r = (new : List (Unspent D)) × (r.0 ≡ entries ++ new) × AreCoins new

  nothing-Grows : (entries : List (Unspent D)) (done : Bool) → Grows entries (entries, done)
  nothing-Grows entries done = ([], append_nil entries, tt)

  push_coins-Grows :
      (vs : List j.Value) (entries : List (Unspent D))
      → Grows entries (push_coins j positive junk stray vs entries)
  unfolding push_coins
  push_coins-Grows [] entries = nothing-Grows entries true
  push_coins-Grows (v ∷ vs) entries = elim (Bool-cases (has_type j ValueType.obj_type v)) [
    | inr other ↦ rw other (push_coins-Grows vs entries)
    | inl object ↦ elim (Option-cases (j.get_obj v >>= read_coin j (blank j positive junk stray))) [
      | inl throws ↦ rw (object, throws) (nothing-Grows entries false)
      | inr (u, reads) ↦ elim (Bool-cases (is_coin j positive junk stray u)) [
        | inr no_coin ↦ rw (object, reads, no_coin) (push_coins-Grows vs entries)
        | inl coin ↦
            let rest = push_coins-Grows vs (entries ++ (u ∷ [])) in
            rw (object, reads, coin)
              (u ∷ rest.0, rest.1 ∙ append_assoc entries (u ∷ []) rest.0, (coin, rest.2))
      ]
    ]
  ]

  -- listUnspent adds to the caller's list behind what it has, whether it succeeds, fails for the
  -- lack of a reply or of a list in it, or throws on a value halfway; all that it adds has a
  -- transaction and a positive amount.
  pub listed_unspent-Grows :
      (reply : Option (Object j)) (entries : List (Unspent D))
      → Grows entries (listed_unspent j positive junk stray reply entries)
  unfolding listed_unspent
  listed_unspent-Grows reply entries =
      elim (Option-cases (reply >>= result_of j ValueType.array_type >>= j.get_array)) [
        | inl failed ↦ rw (listed_unspent, failed) (nothing-Grows entries false)
        | inr (vs, listed) ↦ rw (listed_unspent, listed) (push_coins-Grows vs entries)
      ]

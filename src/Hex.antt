-- ===== src/Hex.antt =====
-- HexStr (src/util/util.h) and ParseHex (src/util/util.cpp): bytes as hexadecimal text and back. A text ends where its
-- list ends or at a NUL.
use xhubv.Prelude.{
  ℕ, ◌+◌, ◌-◌, ◌*◌, ◌/◌, ◌%◌, ◌<◌, ◌≡◌, refl, ap, ◌∙◌, arith, [], ◌∷◌, Bool, true, false, ◌&&◌,
  ◌||◌, All, Option, none, some, Bytes, ltb, leb, ◌==◌, if◌then◌else◌,
}

-- hexmap
unfoldable hex_digit : ℕ → ℕ
hex_digit n = if ltb n 10 then 48 + n else 87 + n

-- The bytes behind the first, each with a blank before it if blanks are wanted.
unfoldable hex_rest : Bool → Bytes → Bytes
unfolding hex_digit
hex_rest spaces [] = []
hex_rest spaces (v ∷ vs) =
    let digits = hex_digit (v / 16) ∷ hex_digit (v % 16) ∷ hex_rest spaces vs in
    if spaces then 32 ∷ digits else digits

unfoldable pub hex_str : Bool → Bytes → Bytes
unfolding hex_rest hex_digit
hex_str spaces [] = []
hex_str spaces (v ∷ vs) = hex_digit (v / 16) ∷ hex_digit (v % 16) ∷ hex_rest spaces vs

-- phexdigit
unfoldable phexdigit : ℕ → Option ℕ
phexdigit c =
    if leb 48 c && leb c 57
    then some (c - 48)
    else if leb 65 c && leb c 70
    then some (c - 55)
    else if leb 97 c && leb c 102
    then some (c - 87)
    else none

-- isspace
abbrev is_blank : ℕ → Bool
is_blank c = c == 32 || (leb 9 c && leb c 13)

-- A digit without its second is dropped, and whatever is neither a digit nor a blank ends the text; a blank may stand
-- before a byte, not inside.
unfoldable pub parse_hex : Bytes → Bytes
unfolding phexdigit
parse_hex [] = []
parse_hex (c ∷ []) = []
parse_hex (c ∷ d ∷ s) =
    let rest = parse_hex s in
    let skipped = parse_hex (d ∷ s) in
    if is_blank c then skipped else elim (phexdigit c) [
      | none ↦ []
      | some h ↦ elim (phexdigit d) [ none ↦ [] | some l ↦ (h * 16 + l) ∷ rest ]
    ]

-- A digit that was written is read, and is no blank.
phexdigit-hex_digit :
    (n : ℕ) → n < 16 → (phexdigit (hex_digit n) ≡ some n) × (is_blank (hex_digit n) ≡ false)
unfolding phexdigit hex_digit
phexdigit-hex_digit n h = (ground arith, ground arith)

parse_pair :
    (v : ℕ) (s : Bytes)
    → v < 256
    → parse_hex (hex_digit (v / 16) ∷ hex_digit (v % 16) ∷ s) ≡ v ∷ parse_hex s
unfolding parse_hex
parse_pair v s h =
    let high = phexdigit-hex_digit (v / 16) (omega arith) in
    let low = phexdigit-hex_digit (v % 16) (omega arith) in
    rw (high.1, high.0, low.0) (ap (λ k. k ∷ parse_hex s) (omega arith))

parse_hex_nil : parse_hex [] ≡ []
unfolding parse_hex
parse_hex_nil = refl

parse_blank : (d : ℕ) (s : Bytes) → parse_hex (32 ∷ d ∷ s) ≡ parse_hex (d ∷ s)
unfolding parse_hex
parse_blank d s = refl

abbrev pub AreBytes : Bytes → Type 0
AreBytes vs = All (λ v. v < 256) vs

parse_hex-hex_rest :
    (spaces : Bool) (vs : Bytes) → AreBytes vs → parse_hex (hex_rest spaces vs) ≡ vs
unfolding hex_rest
parse_hex-hex_rest spaces [] h = parse_hex_nil
parse_hex-hex_rest true (v ∷ vs) h =
    parse_blank (hex_digit (v / 16)) (hex_digit (v % 16) ∷ hex_rest true vs)
    ∙ parse_pair v (hex_rest true vs) h.0
    ∙ ap (◌∷◌ v) (parse_hex-hex_rest true vs h.1)
parse_hex-hex_rest false (v ∷ vs) h =
    parse_pair v (hex_rest false vs) h.0 ∙ ap (◌∷◌ v) (parse_hex-hex_rest false vs h.1)

-- What HexStr writes, with blanks between the bytes or without, ParseHex reads as the bytes that
-- were written.
pub parse_hex-hex_str :
    (spaces : Bool) (vs : Bytes) → AreBytes vs → parse_hex (hex_str spaces vs) ≡ vs
unfolding hex_str parse_hex
parse_hex-hex_str spaces [] h = refl
parse_hex-hex_str spaces (v ∷ vs) h =
    parse_pair v (hex_rest spaces vs) h.0 ∙ ap (◌∷◌ v) (parse_hex-hex_rest spaces vs h.1)

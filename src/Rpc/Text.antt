-- ===== src/Rpc/Text.antt =====
-- What the reader and the writer of HTTP take from the standard library and from Boost: getline, string::find
-- of one character, trim, to_lower, atoi, and a number written in decimal. Text is ASCII, as bytes.
use Prim.Native.Char.{code}
use Prim.Native.String.{String}
use xhubv.Prelude.{
  ℕ, zero, suc, ◌+◌, ◌-◌, ◌*◌, ◌/◌, ◌%◌, ◌^◌, [], ◌∷◌, Bool, true, false, ◌&&◌, ◌||◌, Option, none,
  some, Bytes, leb, ◌==◌, if◌then◌else◌, map_option,
}

-- The bytes of an ASCII literal.
abbrev pub codes : String → Bytes
codes String.[] = []
codes (String.◌∷◌ c s) = code c ∷ codes s

abbrev pub is_space : ℕ → Bool
is_space c = c == 32 || (leb 9 c && leb c 13)

abbrev pub is_digit : ℕ → Bool
is_digit c = leb 48 c && leb c 57

abbrev pub is_empty : Bytes → Bool
is_empty [] = true
is_empty (c ∷ s) = false

-- std::getline: the line without its newline, and what is left of the stream.
unfoldable pub get_line : Bytes → Bytes × Bytes
get_line [] = ([], [])
get_line (c ∷ s) = let (line, rest) = get_line s in if c == 10 then ([], s) else (c ∷ line, rest)

-- The text before the first `x`, and the text after it.
unfoldable pub split_at : ℕ → Bytes → Option (Bytes × Bytes)
split_at x [] = none
split_at x (c ∷ s) =
    let later = map_option (λ r. (c ∷ r.0, r.1)) (split_at x s) in
    if c == x then some ([], s) else later

unfoldable pub trim_left : Bytes → Bytes
trim_left [] = []
trim_left (c ∷ s) = let r = trim_left s in if is_space c then r else c ∷ s

unfoldable pub trim_right : Bytes → Bytes
trim_right [] = []
trim_right (c ∷ s) = let r = trim_right s in if is_space c && is_empty r then [] else c ∷ r

unfoldable pub trim : Bytes → Bytes
unfolding trim_left trim_right
trim s = trim_left (trim_right s)

unfoldable pub to_lower : Bytes → Bytes
to_lower [] = []
to_lower (c ∷ s) = (if leb 65 c && leb c 90 then c + 32 else c) ∷ to_lower s

-- The digits at the head of a text, behind the number `n`.
unfoldable pub digits : ℕ → Bytes → ℕ
digits n [] = n
digits n (c ∷ s) = let more = digits (n * 10 + (c - 48)) s in if is_digit c then more else n

-- The sign is off.
unfoldable pub signed_digits : Bytes → ℕ
unfolding digits
signed_digits [] = 0
signed_digits (c ∷ s) =
    if c == 45
    then (2 ^ 32 - digits 0 s % 2 ^ 32) % 2 ^ 32
    else if c == 43
    then digits 0 s % 2 ^ 32
    else digits 0 (c ∷ s) % 2 ^ 32

-- atoi, as the 32-bit word of the int. A number that no int holds, which leaves atoi undefined, wraps.
unfoldable pub atoi : Bytes → ℕ
unfolding signed_digits trim_left
atoi s = signed_digits (trim_left s)

unfoldable pub decimal_onto : ℕ → ℕ → Bytes → Bytes
decimal_onto zero n s = s
decimal_onto (suc k) n s =
    let s' = (48 + n % 10) ∷ s in
    let more = decimal_onto k (n / 10) s' in if n / 10 == 0 then s' else more

-- The decimal digits of a number; it has no more of them than its value and one.
unfoldable pub decimal : ℕ → Bytes
unfolding decimal_onto
decimal n = decimal_onto (suc n) n []

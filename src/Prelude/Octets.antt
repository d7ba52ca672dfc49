-- ===== src/Prelude/Octets.antt =====
-- Byte strings: std::vector<unsigned char> and std::string, words in little-endian order as the
-- source's casts read and write them on its platforms, and reads of a buffer that may fall outside.
use Prim.Native.Nat.{ℕ, zero, suc, ◌+◌, ◌-◌, ◌*◌, ◌/◌, ◌%◌, ◌^◌, ◌≤◌, ◌<◌}
use mathlib.Core.Path.{◌≡◌, refl, ap}
use mathlib.Core.Logic.{◌↔◌, ◌≢◌}
use mathlib.Core.Bool.{Bool, true, false, ◌&&◌}
use mathlib.Core.Option.{Option, none, some}
use mathlib.Core.List.{List, [], ◌∷◌, ◌++◌}
use native.Mathlib.Omega.{arith}
use native.Mathlib.Nat.{pow-suc}
use xhubv.Prelude.Tests.{ltb, leb, ◌==◌, if◌then◌else◌, le→leb, map_option}
use xhubv.Prelude.Lists.{
  All, length, take, drop, length-append, length-drop, take-append_le, drop-append_le,
  drop-append_ge, take-append,
}

abbrev pub Bytes : Type 0
Bytes = List ℕ

unfoldable pub bytes_eq : Bytes → Bytes → Bool
bytes_eq [] [] = true
bytes_eq [] (y ∷ ys) = false
bytes_eq (x ∷ xs) [] = false
bytes_eq (x ∷ xs) (y ∷ ys) = x == y && bytes_eq xs ys

-- std::string's order.
unfoldable pub bytes_lt : Bytes → Bytes → Bool
bytes_lt xs [] = false
bytes_lt [] (y ∷ ys) = true
bytes_lt (x ∷ xs) (y ∷ ys) = if ltb x y then true else if x == y then bytes_lt xs ys else false

pub bytes_eq_iff : (a b : Bytes) → (bytes_eq a b ≡ true) ↔ (a ≡ b)
unfolding bytes_eq
bytes_eq_iff [] [] = ground arith
bytes_eq_iff [] (y ∷ ys) = ground arith
bytes_eq_iff (x ∷ xs) [] = ground arith
bytes_eq_iff (x ∷ xs) (y ∷ ys) = ground (arith, bytes_eq_iff xs ys)

pub bytes_eq_refl : (a : Bytes) → bytes_eq a a ≡ true
bytes_eq_refl a = (bytes_eq_iff a a).1 refl

-- The first `n` bytes of the number `x`, the lowest first.
unfoldable pub le_bytes : ℕ → ℕ → Bytes
le_bytes zero x = []
le_bytes (suc n) x = (x % 256) ∷ le_bytes n (x / 256)

unfoldable pub le_value : Bytes → ℕ
le_value [] = 0
le_value (b ∷ bs) = b + 256 * le_value bs

pub length-le_bytes : (n x : ℕ) → length (le_bytes n x) ≡ n
unfolding le_bytes
length-le_bytes zero x = refl
length-le_bytes (suc n) x = ap suc (length-le_bytes n (x / 256))

div_bound : (n x : ℕ) → x < 256 ^ suc n → x / 256 < 256 ^ n
div_bound n x h = let e : 256 ^ suc n ≡ 256 * 256 ^ n = omega (arith, pow-suc 256 n) in omega arith

-- What a word's width keeps of a number.
pub le_value-le_bytes : (n x : ℕ) → x < 256 ^ n → le_value (le_bytes n x) ≡ x
unfolding le_bytes le_value
le_value-le_bytes zero x h = omega arith
le_value-le_bytes (suc n) x h = omega (arith, le_value-le_bytes n (x / 256) (div_bound n x h))

-- `n` bytes from the offset `off`; `none` where the read leaves the buffer.
unfoldable pub slice : ℕ → ℕ → Bytes → Option Bytes
slice off n xs = if leb (off + n) (length xs) then some (take n (drop off xs)) else none

scan : Bytes → Option Bytes
scan [] = none
scan (c ∷ cs) = let rest = scan cs in if c == 0 then some [] else map_option (◌∷◌ c) rest

-- std::string(const char *): the bytes up to the first NUL; `none` where the buffer has none.
unfoldable pub c_string : ℕ → Bytes → Option Bytes
unfolding scan
c_string off xs = scan (drop off xs)

-- A text without a NUL.
abbrev pub IsText : Bytes → Type 0
IsText = All λ c. c ≢ 0

pub slice-append_left :
    (off n : ℕ) (xs ys : Bytes) → off + n ≤ length xs → slice off n (xs ++ ys) ≡ slice off n xs
unfolding slice
slice-append_left off n xs ys h = rw (
  le→leb (off + n) (length (xs ++ ys)) (omega (arith, length-append xs ys)),
  le→leb (off + n) (length xs) h,
  drop-append_le off xs ys (omega arith),
  take-append_le n (drop off xs) ys (omega (arith, length-drop off xs)),
)

-- A read past the first part is a read of the second.
pub slice_skip :
    (off n k : ℕ) (xs ys : Bytes)
    → length xs ≡ k
    → k ≤ off
    → slice off n (xs ++ ys) ≡ slice (off - k) n ys
unfolding slice
slice_skip off n k xs ys e h =
    rw (drop-append_ge off xs ys (omega arith), length-append xs ys, e)
      (ap (λ b. if b then some (take n (drop (off - k) ys)) else none) (ground arith))

-- A read of the first part, whole.
pub slice_whole : (n : ℕ) (xs ys : Bytes) → length xs ≡ n → slice 0 n (xs ++ ys) ≡ some xs
unfolding slice
slice_whole n xs ys e = rw (← e) (
    rw (
      le→leb (0 + length xs) (length (xs ++ ys)) (omega (arith, length-append xs ys)),
      take-append xs ys,
    ))

pub c_string_skip :
    (off k : ℕ) (xs ys : Bytes)
    → length xs ≡ k
    → k ≤ off
    → c_string off (xs ++ ys) ≡ c_string (off - k) ys
unfolding c_string
c_string_skip off k xs ys e h = rw (drop-append_ge off xs ys (omega arith), e)

pub c_string_whole : (s ys : Bytes) → IsText s → c_string 0 (s ++ (0 ∷ ys)) ≡ some s
unfolding c_string
c_string_whole [] ys h = refl
c_string_whole (c ∷ s) ys h = ground (arith, c_string_whole s ys h.1)

-- A text cannot begin behind the buffer.
pub c_string_end : (off : ℕ) (xs : Bytes) → length xs ≤ off → c_string off xs ≡ none
unfolding c_string scan
c_string_end zero [] h = refl
c_string_end zero (x ∷ xs) h = absurd (omega (arith, h))
c_string_end (suc off) [] h = refl
c_string_end (suc off) (x ∷ xs) h = c_string_end off xs (omega arith)

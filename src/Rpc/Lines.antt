-- ===== src/Rpc/Lines.antt =====
-- Lines, trimmed values and decimal numbers, read as they are written.
use xhubv.Prelude.{
  ℕ, zero, suc, ◌+◌, ◌/◌, ◌%◌, ◌^◌, ◌<◌, ◌≡◌, ◌≢◌, refl, ap, ◌∙◌, arith, inl, inr, [], ◌∷◌, ◌++◌,
  Bool, true, false, not, ◌&&◌, some, Bytes, All, ◌==◌, Bool-cases,
}
use xhubv.Rpc.Text.{
  is_space, is_digit, get_line, split_at, trim, trim_left, trim_right, digits, atoi, signed_digits,
  decimal, decimal_onto,
}

-- A text without the byte `x`.
abbrev pub Lacks : ℕ → Bytes → Type 0
Lacks x s = All (λ c. c ≢ x) s

-- The same, as a test.
abbrev pub lacks : ℕ → Bytes → Bool
lacks x [] = true
lacks x (c ∷ s) = not (c == x) && lacks x s

pub lacks_lem : (x : ℕ) (s : Bytes) → lacks x s ≡ true → Lacks x s
lacks_lem x [] h = tt
lacks_lem x (c ∷ s) h = ((λ e. absurd (ground (arith, e, h))), lacks_lem x s (ground (arith, h)))

pub Lacks-append : (x : ℕ) (s t : Bytes) → Lacks x s → Lacks x t → Lacks x (s ++ t)
Lacks-append x [] t h k = k
Lacks-append x (c ∷ s) t h k = (h.0, Lacks-append x s t h.1 k)

pub get_line-append : (xs ys : Bytes) → Lacks 10 xs → get_line (xs ++ (10 ∷ ys)) ≡ (xs, ys)
unfolding get_line
get_line-append [] ys h = refl
get_line-append (c ∷ xs) ys h = ground (arith, get_line-append xs ys h.1)

pub split_at-append :
    (x : ℕ) (xs ys : Bytes) → Lacks x xs → split_at x (xs ++ (x ∷ ys)) ≡ some (xs, ys)
unfolding split_at
split_at-append x [] ys h = ground arith
split_at-append x (c ∷ xs) ys h = ground (arith, split_at-append x xs ys h.1)

abbrev pub AreDigits : Bytes → Type 0
AreDigits s = All (λ c. is_digit c ≡ true) s

pub digits-Lacks : (x : ℕ) (s : Bytes) → is_digit x ≡ false → AreDigits s → Lacks x s
digits-Lacks x [] h d = tt
digits-Lacks x (c ∷ s) h d = (λ e. absurd (ground (arith, e, h, d.0)), digits-Lacks x s h d.1)

decimal_onto-AreDigits : (k n : ℕ) (s : Bytes) → AreDigits s → AreDigits (decimal_onto k n s)
unfolding decimal_onto
decimal_onto-AreDigits zero n s d = d
decimal_onto-AreDigits (suc k) n s d =
    let first : is_digit (48 + n % 10) ≡ true = ground arith in
    elim (Bool-cases (n / 10 == 0)) [
      | inl small ↦ rw small (first, d)
      | inr large ↦ rw large (decimal_onto-AreDigits k (n / 10) ((48 + n % 10) ∷ s) (first, d))
    ]

pub decimal-AreDigits : (n : ℕ) → AreDigits (decimal n)
unfolding decimal
decimal-AreDigits n = decimal_onto-AreDigits (suc n) n [] tt

-- Enough fuel for the digits of `n`.
digits-decimal_onto : (k n : ℕ) (s : Bytes) → n < k → digits 0 (decimal_onto k n s) ≡ digits n s
unfolding decimal_onto digits
digits-decimal_onto zero n s h = absurd (omega arith)
digits-decimal_onto (suc k) n s h =
    let is : is_digit (48 + n % 10) ≡ true = ground arith in
    elim (Bool-cases (n / 10 == 0)) [
      | inl small ↦ rw (small, is) (ap (λ m. digits m s) (ground arith))
      | inr large ↦ rw large (
          digits-decimal_onto k (n / 10) ((48 + n % 10) ∷ s) (ground arith)
          ∙ rw is (ap (λ m. digits m s) (omega arith)))
    ]

digit_no_space : (c : ℕ) → is_digit c ≡ true → is_space c ≡ false
digit_no_space c h = ground arith

trim_left-digits : (s : Bytes) → AreDigits s → trim_left s ≡ s
unfolding trim_left
trim_left-digits [] d = refl
trim_left-digits (c ∷ s) d = rw (digit_no_space c d.0) refl

trim_right-digits : (s : Bytes) → AreDigits s → trim_right (s ++ (13 ∷ [])) ≡ s
unfolding trim_right
trim_right-digits [] d = refl
trim_right-digits (c ∷ s) d = rw (digit_no_space c d.0) (ap (◌∷◌ c) (trim_right-digits s d.1))

-- Between a blank and the carriage return.
pub trim-digits : (s : Bytes) → AreDigits s → trim (32 ∷ (s ++ (13 ∷ []))) ≡ s
unfolding trim trim_left trim_right
trim-digits [] d = refl
trim-digits (c ∷ s) d = rw (trim_right-digits (c ∷ s) d) (trim_left-digits (c ∷ s) d)

signed_digits-digits : (s : Bytes) → AreDigits s → signed_digits s ≡ digits 0 s % 2 ^ 32
unfolding signed_digits digits
signed_digits-digits [] d = omega arith
signed_digits-digits (c ∷ s) d =
    let no_minus : (c == 45) ≡ false = ground (arith, d.0) in
    let no_plus : (c == 43) ≡ false = ground (arith, d.0) in rw (no_minus, no_plus) refl

digits-decimal : (n : ℕ) → digits 0 (decimal n) ≡ n
unfolding decimal digits
digits-decimal n = digits-decimal_onto (suc n) n [] (omega arith)

-- A number of 32 bits is read as it is written.
pub atoi-decimal : (n : ℕ) → n < 2 ^ 32 → atoi (decimal n) ≡ n
unfolding atoi
atoi-decimal n h =
    ap signed_digits (trim_left-digits (decimal n) (decimal-AreDigits n))
    ∙ signed_digits-digits (decimal n) (decimal-AreDigits n)
    ∙ omega (arith, digits-decimal n)

-- ===== src/Packet/Fields.antt =====
-- The header's words: a word that is written reads back, and the others stay.
use xhubv.Prelude.{
  ℕ, ◌+◌, ◌-◌, ◌*◌, ◌^◌, ◌≤◌, ◌<◌, ◌≡◌, sym, ap, ◌∙◌, ◌++◌, arith, Bytes, le_bytes, le_value,
  length, take, drop, length-append, length-take, length-drop, length-le_bytes, le_value-le_bytes,
  take-append_le, drop-append_le, drop-append_ge, take-append, take-drop-take, drop-drop,
}
use xhubv.Packet.{field32, set_field32}

module _ (i v : ℕ) (b : Bytes) (inside : i * 4 + 4 ≤ length b) where
  length_front : length (take (i * 4) b) ≡ i * 4
  length_front = omega (arith, length-take (i * 4) b)

  pub length-set_field32 : length (set_field32 i v b) ≡ length b
  unfolding set_field32
  length-set_field32 = omega (
    arith,
    length-append (take (i * 4) b) (le_bytes 4 v ++ drop (i * 4 + 4) b),
    length_front,
    length-append (le_bytes 4 v) (drop (i * 4 + 4) b),
    length-le_bytes 4 v,
    length-drop (i * 4 + 4) b,
  )

  drop_front :
      (n : ℕ)
      → i * 4 ≤ n
      → drop n (set_field32 i v b) ≡ drop (n - i * 4) (le_bytes 4 v ++ drop (i * 4 + 4) b)
  unfolding set_field32
  drop_front n h =
      drop-append_ge n (take (i * 4) b) _ (omega (arith, length_front))
      ∙ ap (λ k. drop (n - k) (le_bytes 4 v ++ drop (i * 4 + 4) b)) length_front

  drop_word : (n : ℕ) → i * 4 + 4 ≤ n → drop n (set_field32 i v b) ≡ drop n b
  drop_word n h =
      drop_front n (omega arith)
      ∙ drop-append_ge (n - i * 4) (le_bytes 4 v) _ (omega (arith, length-le_bytes 4 v))
      ∙ drop-drop (n - i * 4 - length (le_bytes 4 v)) (i * 4 + 4) b
      ∙ ap (λ k. drop k b) (omega (arith, length-le_bytes 4 v))

  -- The bytes behind the word stay.
  pub drop-set_field32 : (n : ℕ) → i * 4 + 4 ≤ n → drop n (set_field32 i v b) ≡ drop n b
  drop-set_field32 n h = drop_word n h

  pub field32-set_field32_self : v < 2 ^ 32 → field32 i (set_field32 i v b) ≡ v
  unfolding field32
  field32-set_field32_self h =
      ap (λ t. le_value (take 4 t)) (drop_front (i * 4) (omega arith))
      ∙ ap (λ k. le_value (take 4 (drop k (le_bytes 4 v ++ drop (i * 4 + 4) b)))) zeroed
      ∙ ap le_value (front (le_bytes 4 v) (length-le_bytes 4 v))
      ∙ le_value-le_bytes 4 v h
    where
      zeroed : i * 4 - i * 4 ≡ 0
      zeroed = omega arith

      front : (w : Bytes) → length w ≡ 4 → take 4 (w ++ drop (i * 4 + 4) b) ≡ w
      front w e = ap (λ k. take k (w ++ drop (i * 4 + 4) b)) (sym e) ∙ take-append w _

  pub field32-set_field32_lt : (j : ℕ) → j < i → field32 j (set_field32 i v b) ≡ field32 j b
  unfolding field32 set_field32
  field32-set_field32_lt j h =
      ap (λ t. le_value (take 4 t))
        (drop-append_le (j * 4) (take (i * 4) b) _ (omega (arith, length_front)))
      ∙ ap le_value (
          take-append_le 4 (drop (j * 4) (take (i * 4) b)) _
            (omega (arith, length_front, length-drop (j * 4) (take (i * 4) b))))
      ∙ ap le_value (take-drop-take 4 (j * 4) (i * 4) b (omega arith))

  pub field32-set_field32_gt : (j : ℕ) → i < j → field32 j (set_field32 i v b) ≡ field32 j b
  unfolding field32
  field32-set_field32_gt j h = ap (λ t. le_value (take 4 t)) (drop_word (j * 4) (omega arith))

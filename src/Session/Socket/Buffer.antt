-- ===== src/Session/Socket/Buffer.antt =====
-- The vector of a packet that a socket fills: what has arrived stands behind what was read, and a longer vector keeps
-- the header.
use xhubv.Prelude.{
  ℕ, ◌+◌, ◌-◌, ◌*◌, ◌≤◌, ◌≡◌, sym, ap, ◌∙◌, arith, [], ◌++◌, Bytes, length, replicate, take, drop,
  length-append, length-take, length-drop, length-replicate, append_assoc, append_nil, take-append,
  take-append_le, take-drop-take, le_value,
}
use xhubv.Packet.{field32, overwrite, resized}

module _ (offset : ℕ) (c b : Bytes) (fits : offset + length c ≤ length b) where
  front : length (take offset b) ≡ offset
  front = omega (arith, length-take offset b)

  pub length-overwrite : length (overwrite offset c b) ≡ length b
  unfolding overwrite
  length-overwrite = omega (
    arith,
    length-append (take offset b) (c ++ drop (offset + length c) b),
    front,
    length-append c (drop (offset + length c) b),
    length-drop (offset + length c) b,
  )

  -- The bytes that were read, and those that have arrived.
  pub take-overwrite : take (offset + length c) (overwrite offset c b) ≡ take offset b ++ c
  unfolding overwrite
  take-overwrite =
      ap (take (offset + length c))
        (sym (append_assoc (take offset b) c (drop (offset + length c) b)))
      ∙ ap (λ n. take n ((take offset b ++ c) ++ drop (offset + length c) b)) filled
      ∙ take-append (take offset b ++ c) (drop (offset + length c) b)
    where
      filled : offset + length c ≡ length (take offset b ++ c)
      filled = omega (arith, length-append (take offset b) c, front)

  pub take-overwrite_le : (n : ℕ) → n ≤ offset → take n (overwrite offset c b) ≡ take n b
  unfolding overwrite
  take-overwrite_le n h =
      take-append_le n (take offset b) (c ++ drop (offset + length c) b) (omega (arith, front))
      ∙ take-drop-take n 0 offset b (omega arith)

-- The header's words are those of its bytes.
field32-take : (i : ℕ) (b : Bytes) → i * 4 + 4 ≤ 32 → field32 i (take 32 b) ≡ field32 i b
unfolding field32
field32-take i b h = ap le_value (take-drop-take 4 (i * 4) 32 b h)

pub field32-same :
    (i : ℕ) (a b : Bytes) → i * 4 + 4 ≤ 32 → take 32 a ≡ take 32 b → field32 i a ≡ field32 i b
field32-same i a b h e = sym (field32-take i a h) ∙ ap (field32 i) e ∙ field32-take i b h

pub length-resized : (n : ℕ) (b : Bytes) → length b ≤ n → length (resized n b) ≡ n
unfolding resized
length-resized n b h = omega (
  arith,
  length-append (take n b) (replicate (n - length b) 0),
  length-take n b,
  length-replicate {A = ℕ} (n - length b) 0,
)

pub take-resized : (n : ℕ) (b : Bytes) → length b ≡ 32 → 32 ≤ n → take 32 (resized n b) ≡ take 32 b
unfolding resized
take-resized n b e h =
    take-append_le 32 (take n b) (replicate (n - length b) 0) (omega (arith, length-take n b))
    ∙ take-drop-take 32 0 n b (omega arith)

pub take_whole : (b : Bytes) → take (length b) b ≡ b
take_whole b = ap (take (length b)) (append_nil b) ∙ take-append b []

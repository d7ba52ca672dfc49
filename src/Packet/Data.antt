-- ===== src/Packet/Data.antt =====
-- The setData overloads: what becomes of the data and of the header.
use xhubv.Prelude.{
  ℕ, ◌-◌, ◌^◌, ◌<◌, ◌≡◌, sym, ◌∙◌, arith, Bytes, length, take, replicate, length-append,
  length-take, length-replicate,
}
use xhubv.Packet.{Packet, set_field32, resized, size, payload, timestamp, set_data_int32}
use xhubv.Packet.Fields.{
  length-set_field32, drop-set_field32, field32-set_field32_self, field32-set_field32_gt,
}

length-resized : (n : ℕ) (b : Bytes) → length (resized n b) ≡ n
unfolding resized
length-resized n b = omega (
  arith,
  length-append (take n b) (replicate (n - length b) 0),
  length-take n b,
  length-replicate {A = ℕ} (n - length b) 0,
)

-- setData of a 32-bit word writes the word over the timestamp and sets the size to four, and the
-- data behind the header is the same for any two words.
pub set_data_int32-timestamp :
    (d e : ℕ) (p : Packet)
    → d < 2 ^ 32
    → (timestamp (set_data_int32 d p) ≡ d)
      × (size (set_data_int32 d p) ≡ 4)
      × (payload (set_data_int32 d p) ≡ payload (set_data_int32 e p))
unfolding set_data_int32
set_data_int32-timestamp d e p h =
    let l : length (set_field32 3 4 (resized 36 p.body)) ≡ 36 =
      length-set_field32 3 4 (resized 36 p.body) (omega (arith, length-resized 36 p.body))
      ∙ length-resized 36 p.body in
    (
      field32-set_field32_self 2 d _ (omega (arith, l)) h,
      field32-set_field32_gt 2 d _ (omega (arith, l)) 3 (omega arith)
          ∙ field32-set_field32_self 3 4 _ (omega (arith, length-resized 36 p.body)) (omega arith),
      drop-set_field32 2 d _ (omega (arith, l)) 32 (omega arith)
          ∙ sym (drop-set_field32 2 e _ (omega (arith, l)) 32 (omega arith)),
    )

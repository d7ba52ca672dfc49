-- ===== src/Packet/Parts.antt =====
-- A packet that is built by appends alone: its data is the appended parts in their order.
use xhubv.Prelude.{
  ℕ, ◌+◌, ◌^◌, ◌≤◌, ◌<◌, ◌≡◌, ap, ◌∙◌, List, [], ◌∷◌, ◌++◌, arith, Bytes, length, concat, total,
  length-concat, append_assoc, append_nil,
}
use xhubv.Packet.{Packet, XBridgeCommand, size, payload, header_size, new_packet, append_bytes}
use xhubv.Packet.Append.{
  IsFramed, append_bytes-IsFramed, length-append_bytes, payload-append_bytes, length-new_packet,
  payload-new_packet,
}

abbrev pub append_all : List Bytes → Packet → Packet
append_all [] p = p
append_all (d ∷ ds) p = append_all ds (append_bytes d p)

payload-append_all :
    (ds : List Bytes) (p : Packet)
    → header_size ≤ length p.body
    → payload (append_all ds p) ≡ payload p ++ concat ds
payload-append_all [] p h = append_nil (payload p)
payload-append_all (d ∷ ds) p h =
    payload-append_all ds (append_bytes d p) (omega (arith, length-append_bytes d p h))
    ∙ ap (λ b. b ++ concat ds) (payload-append_bytes d p h)
    ∙ append_assoc (payload p) d (concat ds)

append_all-IsFramed :
    (d : Bytes) (ds : List Bytes) (p : Packet)
    → header_size ≤ length p.body
    → length p.body + total (d ∷ ds) < 2 ^ 32
    → IsFramed (append_all (d ∷ ds) p)
append_all-IsFramed d [] p h small = (append_bytes-IsFramed d p h (omega arith)).0
append_all-IsFramed d (e ∷ ds) p h small =
    append_all-IsFramed e ds (append_bytes d p) (omega (arith, length-append_bytes d p h))
      (omega (arith, length-append_bytes d p h))

module _ (c : XBridgeCommand) (now : ℕ) where
  pub payload-built : (ds : List Bytes) → payload (append_all ds (new_packet c now)) ≡ concat ds
  payload-built ds =
      payload-append_all ds (new_packet c now) (omega (arith, length-new_packet c now))
      ∙ ap (λ b. b ++ concat ds) (payload-new_packet c now)

  pub size-built :
      (d : Bytes) (ds : List Bytes)
      → 32 + total (d ∷ ds) < 2 ^ 32
      → size (append_all (d ∷ ds) (new_packet c now)) ≡ total (d ∷ ds)
  size-built d ds small =
      (append_all-IsFramed d ds (new_packet c now) (omega (arith, length-new_packet c now))
        (omega (arith, length-new_packet c now))).sized
      ∙ ap length (payload-built (d ∷ ds))
      ∙ length-concat (d ∷ ds)

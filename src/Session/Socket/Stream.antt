-- ===== src/Session/Socket/Stream.antt =====
-- What the reader of a socket makes of the bytes that arrive, however they are cut.
use xhubv.Prelude.{
  ℕ, ◌+◌, ◌≤◌, ◌<◌, ◌≡◌, refl, sym, ap, ◌∙◌, arith, inl, inr, [], ◌∷◌, ◌++◌, Bool, true, false,
  Option, none, some, Bytes, length, replicate, take, append_nil, ◌==◌, ==_iff, Bool-cases,
}
use xhubv.Packet.{Packet, header_size, set_field32, size, alloc, overwrite}
use xhubv.Packet.Fields.{length-set_field32}
use xhubv.Session.Socket.Buffer.{
  length-overwrite, take-overwrite, take-overwrite_le, field32-same, length-resized, take-resized,
  take_whole,
}
use xhubv.Session.{check_packet_version}
use xhubv.Session.Socket.{
  Reading, Arrival, blank_packet, start, room, on_read_header, on_read_body, arrive,
}

-- A packet of this version that is as long as its size field says.
pub record IsWhole (p : Packet) : Type 0 where
  pub long : length p.body ≡ 32 + size p
  pub versed : check_packet_version p ≡ true

-- `s` is what has been read of the packet that is waited for, or a header of another version, after which the
-- socket is closed. `e` tells whether an error may have closed it, of which nothing is known then.
pub data Holds (e : Bool) : Reading → Bytes → Type 0 where
  in_header :
      (p : Packet) (offset : ℕ) (s : Bytes)
      → length p.body ≡ 32
      → offset < 32
      → take offset p.body ≡ s
      → Holds e (Reading.header p offset) s
  in_body :
      (p : Packet) (offset : ℕ) (s : Bytes)
      → IsWhole p
      → offset ≤ size p
      → (0 < size p → offset < size p)
      → take (32 + offset) p.body ≡ s
      → Holds e (Reading.body p offset) s
  other_version :
      (p : Packet) (s : Bytes)
      → length p.body ≡ 32
      → check_packet_version p ≡ false
      → p.body ≡ s
      → Holds e Reading.closed s
  broken : (s : Bytes) → e ≡ true → Holds e Reading.closed s

-- After `c` has come behind `s`: the reader holds both, or they are the packet that it hands on.
abbrev pub After : Bool → Bytes → Reading × Option Packet → Type 0
After e s (r, none) = Holds e r s
After e s (r, some p) = (p.body ≡ s) × IsWhole p × Holds e r []

pub same_size : (p q : Packet) → take 32 p.body ≡ take 32 q.body → size p ≡ size q
same_size p q e = field32-same 3 p.body q.body (omega arith) e

pub same_version :
    (p q : Packet)
    → take 32 p.body ≡ take 32 q.body
    → check_packet_version p ≡ check_packet_version q
unfolding check_packet_version
same_version p q e = rw (field32-same 0 p.body q.body (omega arith) e) refl

alloc-IsWhole :
    (p : Packet)
    → length p.body ≡ 32
    → check_packet_version p ≡ true
    → (take 32 (alloc p).body ≡ take 32 p.body) × IsWhole (alloc p)
unfolding alloc
alloc-IsWhole p h v =
    let head = take-resized (header_size + size p) p.body h (omega arith) in
    (
      head,
      record {
        long =
            length-resized (header_size + size p) p.body (omega arith)
            ∙ ap (λ n. 32 + n) (same_size p (alloc p) (sym head));
        versed = same_version (alloc p) p head ∙ v;
      },
    )

on_read_header-Holds :
    {b : Bool} (p : Packet) (offset : ℕ) (s : Bytes)
    → length p.body ≡ 32
    → offset ≤ 32
    → take offset p.body ≡ s
    → Holds b (on_read_header p offset) s
unfolding on_read_header
on_read_header-Holds p offset s h fits e = elim (Bool-cases (offset == header_size)) [
  | inr part ↦ rw part (Holds.in_header p offset s h (ground arith) e)
  | inl full ↦ elim (Bool-cases (check_packet_version p)) [
    | inr other ↦
        rw (full, other)
          (Holds.other_version p s h other (
            sym (take_whole p.body)
            ∙ ap (λ n. take n p.body) (h ∙ sym ((==_iff offset header_size).0 full))
            ∙ e))
    | inl versed ↦
        let whole = alloc-IsWhole p h versed in
        rw (full, versed)
          (Holds.in_body (alloc p) 0 s whole.1 (omega arith) (λ some'. some')
            (whole.0 ∙ ap (λ n. take n p.body) (sym ((==_iff offset header_size).0 full)) ∙ e))
  ]
]

pub blank-Holds : {b : Bool} (now : ℕ) → Holds b (start now) []
unfolding start blank_packet
blank-Holds now = Holds.in_header (blank_packet now) 0 [] long (omega arith) refl
  where
    zeros : Bytes
    zeros = replicate header_size 0

    long : length (blank_packet now).body ≡ 32
    long =
        length-set_field32 2 now (set_field32 0 _ zeros)
          (omega (arith, length-set_field32 0 _ zeros (omega arith)))
        ∙ length-set_field32 0 _ zeros (omega arith)

on_read_body-After :
    (b : Bool) (now : ℕ) (p : Packet) (offset : ℕ) (s : Bytes)
    → IsWhole p
    → offset ≤ size p
    → take (32 + offset) p.body ≡ s
    → After b s (on_read_body now p offset)
unfolding on_read_body
on_read_body-After b now p offset s w fits e = elim (Bool-cases (offset == size p)) [
  | inr part ↦ rw part (Holds.in_body p offset s w fits (λ some'. ground arith) e)
  | inl full ↦ rw full (
    sym (take_whole p.body)
        ∙ ap (λ n. take n p.body)
            (w.long ∙ ap (λ n. 32 + n) (sym ((==_iff offset (size p)).0 full)))
        ∙ e,
    w,
    blank-Holds now,
  )
]

abbrev pub bytes_of : Arrival → Bytes
bytes_of (Arrival.got now c) = c
bytes_of Arrival.failed = []

-- An error only where one may happen.
abbrev pub May : Bool → Arrival → Type 0
May e (Arrival.got now c) = Unit
May e Arrival.failed = e ≡ true

overwrite-IsWhole :
    (p : Packet) (offset : ℕ) (c : Bytes)
    → IsWhole p
    → (32 + offset) + length c ≤ length p.body
    → IsWhole (record { body = overwrite (32 + offset) c p.body })
overwrite-IsWhole p offset c w fits =
    let q : Packet = record { body = overwrite (32 + offset) c p.body } in
    let head = take-overwrite_le (32 + offset) c p.body fits 32 (omega arith) in
    record {
      long =
          length-overwrite (32 + offset) c p.body fits
          ∙ w.long
          ∙ ap (λ n. 32 + n) (same_size p q (sym head));
      versed = same_version q p head ∙ w.versed;
    }

no_bytes : (s c : Bytes) → length c ≤ 0 → s ≡ s ++ c
no_bytes s [] h = append_nil s
no_bytes s (x ∷ c) h = absurd (omega arith)

pub arrive-After :
    (b : Bool) (a : Arrival) (r : Reading) (s : Bytes)
    → May b a
    → Holds b r s
    → length (bytes_of a) ≤ room r
    → After b (s ++ bytes_of a) (arrive a r)
unfolding arrive room
arrive-After b (Arrival.got now c) _ _ may (Holds.in_header p offset s h inside e) fits =
    on_read_header-Holds (record { body = overwrite offset c p.body }) (offset + length c) (s ++ c)
      (length-overwrite offset c p.body (omega arith) ∙ h) (omega arith)
      (take-overwrite offset c p.body (omega arith) ∙ ap (λ t. t ++ c) e)
arrive-After b (Arrival.got now c) _ _ may (Holds.in_body p offset s w inside more e) fits =
    let space : (32 + offset) + length c ≤ length p.body = omega (arith, w.long) in
    let head = take-overwrite_le (32 + offset) c p.body space 32 (omega arith) in
    let q : Packet = record { body = overwrite (32 + offset) c p.body } in
    on_read_body-After b now q (offset + length c) (s ++ c) (overwrite-IsWhole p offset c w space)
      (omega (arith, same_size q p head))
      (ap (λ n. take n q.body) (omega arith)
        ∙ take-overwrite (32 + offset) c p.body space
        ∙ ap (λ t. t ++ c) e)
arrive-After b (Arrival.got now c) _ _ may (Holds.other_version p s h other e) fits =
    Holds.other_version p (s ++ c) h other (e ∙ no_bytes s c fits)
arrive-After b (Arrival.got now c) _ _ may (Holds.broken s e) fits = Holds.broken (s ++ c) e
arrive-After b Arrival.failed _ _ may (Holds.in_header p offset s h inside e) fits =
    Holds.broken (s ++ []) may
arrive-After b Arrival.failed _ _ may (Holds.in_body p offset s w inside more e) fits =
    Holds.broken (s ++ []) may
arrive-After b Arrival.failed _ _ may (Holds.other_version p s h other e) fits =
    Holds.broken (s ++ []) may
arrive-After b Arrival.failed _ _ may (Holds.broken s e) fits = Holds.broken (s ++ []) may

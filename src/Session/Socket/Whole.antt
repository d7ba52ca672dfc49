-- ===== src/Session/Socket/Whole.antt =====
-- The packets that a socket's reader hands on, against the bytes that have arrived.
use xhubv.Prelude.{
  ℕ, ◌+◌, ◌≤◌, ◌<◌, ◌≡◌, refl, sym, ap, ap₂, subst, ◌∙◌, arith, List, [], ◌∷◌, ◌++◌, Bool, true,
  false, All, Option, none, some, Bytes, length, take, drop, length-append, length-take,
  take-drop-take, append_assoc, append_nil, take-append, drop-append, take-append_le,
}
use xhubv.Packet.{Packet, size}
use xhubv.Session.Socket.{Reading, Arrival, start, room, arrive, arrive_all}
use xhubv.Session.Socket.Stream.{
  IsWhole, Holds, After, bytes_of, May, arrive-After, blank-Holds, same_size, same_version,
}

abbrev pub arrived : List Arrival → Bytes
arrived [] = []
arrived (a ∷ later) = bytes_of a ++ arrived later

abbrev pub bodies : List Packet → Bytes
bodies [] = []
bodies (p ∷ ps) = p.body ++ bodies ps

-- Each read brings no more bytes than its buffer holds, which the socket keeps to; `e` tells whether there are errors.
abbrev pub Fits : Bool → List Arrival → Reading → Type 0
Fits e [] r = Unit
Fits e (a ∷ later) r = May e a × (length (bytes_of a) ≤ room r) × Fits e later (arrive a r).0

-- The stream, cut into the packets handed on and what is held of the next.
abbrev pub Cut : Bool → Bytes → Reading × List Packet → Type 0
Cut e s (r, ps) = All IsWhole ps × ((rest : Bytes) × (s ≡ bodies ps ++ rest) × Holds e r rest)

-- One arrival, and the others behind it.
and_later :
    (e : Bool) (s t : Bytes) (x : Reading × Option Packet) (rs : Reading × List Packet)
    → After e s x
    → ((u : Bytes) → Holds e x.0 u → Cut e (u ++ t) rs)
    → Cut e (s ++ t) (rs.0, elim x.1 [ none ↦ rs.1 | some p ↦ p ∷ rs.1 ])
and_later e s t (r, none) rs h k = k s h
and_later e s t (r, some p) rs h k =
    let later = k [] h.2 in
    (
      (h.1, later.0),
      (
        later.1.0,
        ap₂ (λ x y. x ++ y) (sym h.0) later.1.1 ∙ sym (append_assoc p.body (bodies rs.1) later.1.0),
        later.1.2,
      ),
    )

arrive_all-Cut :
    (e : Bool) (arrivals : List Arrival) (r : Reading) (s : Bytes)
    → Holds e r s
    → Fits e arrivals r
    → Cut e (s ++ arrived arrivals) (arrive_all arrivals r)
unfolding arrive_all
arrive_all-Cut e [] r s h f = (tt, (s, sym (append_nil s), h))
arrive_all-Cut e (a ∷ later) r s h (may, fits, f) =
    subst (λ t. Cut e t (arrive_all (a ∷ later) r)) (append_assoc s (bytes_of a) (arrived later))
      (and_later e (s ++ bytes_of a) (arrived later) (arrive a r) (arrive_all later (arrive a r).0)
        (arrive-After e a r s may h fits) λ u k. arrive_all-Cut e later (arrive a r).0 u k f)

-- However the bytes that arrive at a session's socket are cut, each packet that goes to
-- processPacket has the version of the protocol and the length that its header gives, and the
-- packets' bytes, one behind the other, are the bytes that have arrived, up to what the reader
-- holds of the next packet: nothing is lost, repeated or reordered. No read brings more than its
-- buffer holds; the reads may end in an error.
pub arrive_all-cuts :
    (now : ℕ) (arrivals : List Arrival)
    → Fits true arrivals (start now)
    → Cut true (arrived arrivals) (arrive_all arrivals (start now))
arrive_all-cuts now arrivals f = arrive_all-Cut true arrivals (start now) [] (blank-Holds now) f

-- Two packets at the head of one stream.
same_head :
    (d p : Packet) (x y : Bytes)
    → IsWhole d
    → IsWhole p
    → d.body ++ x ≡ p.body ++ y
    → (d.body ≡ p.body) × (x ≡ y)
same_head d p x y wd wp e =
    let head : take 32 d.body ≡ take 32 p.body =
      sym (take-append_le 32 d.body x (omega (arith, wd.long)))
      ∙ ap (take 32) e
      ∙ take-append_le 32 p.body y (omega (arith, wp.long)) in
    let long : length d.body ≡ length p.body =
      wd.long ∙ ap (λ n. 32 + n) (same_size d p head) ∙ sym wp.long in
    (
      sym (take-append d.body x)
          ∙ ap (take (length d.body)) e
          ∙ ap (λ n. take n (p.body ++ y)) long
          ∙ take-append p.body y,
      sym (drop-append d.body x)
          ∙ ap (drop (length d.body)) e
          ∙ ap (λ n. drop n (p.body ++ y)) long
          ∙ drop-append p.body y,
    )

-- What is held of a packet is not a whole one.
not_held :
    (r : Reading) (p : Packet) (x : Bytes)
    → IsWhole p
    → 0 < size p
    → Holds false r (p.body ++ x)
    → false ≡ true
not_held _ p x w full (Holds.in_header q offset _ h inside e) =
    absurd (omega (arith, w.long, length-append p.body x, length-take offset q.body, ap length e))
not_held _ p x w full (Holds.in_body q offset _ wq inside more e) =
    let head : take 32 q.body ≡ take 32 p.body =
      sym (take-drop-take 32 0 (32 + offset) q.body (omega arith))
      ∙ ap (take 32) e
      ∙ take-append_le 32 p.body x (omega (arith, w.long)) in
    absurd (
      omega (
        arith,
        w.long,
        length-append p.body x,
        length-take (32 + offset) q.body,
        ap length e,
        same_size q p head,
        more (omega (arith, same_size q p head)),
      ))
not_held _ p x w full (Holds.other_version q _ h other e) =
    sym other
    ∙ same_version q p (ap (take 32) e ∙ take-append_le 32 p.body x (omega (arith, w.long)))
    ∙ w.versed
not_held _ p x w full (Holds.broken _ e) = e

cut_unique :
    (ds ps : List Packet) (r : Reading) (rest : Bytes)
    → All IsWhole ds
    → All IsWhole ps
    → All (λ p. 0 < size p) ps
    → Holds false r rest
    → bodies ds ++ rest ≡ bodies ps
    → ds ≡ ps
cut_unique [] [] r rest wd wp full h e = refl
cut_unique [] (p ∷ ps) r rest wd wp full h e =
    absurd (ground (arith, not_held r p (bodies ps) wp.0 full.0 (subst (λ t. Holds false r t) e h)))
cut_unique (d ∷ ds) [] r rest wd wp full h e = absurd (
    omega (
      arith,
      ap length e,
      wd.0.long,
      length-append (d.body ++ bodies ds) rest,
      length-append d.body (bodies ds),
    ))
cut_unique (d ∷ ds) (p ∷ ps) r rest wd wp full h e =
    let heads =
      same_head d p (bodies ds ++ rest) (bodies ps) wd.0 wp.0
        (sym (append_assoc d.body (bodies ds) rest) ∙ e) in
    ap₂ (λ b qs. record { body = b } ∷ qs) heads.0
      (cut_unique ds ps r rest wd.1 wp.1 full.1 h heads.1)

-- The packets of a stream come out of a session's socket whatever the sizes of the reads: if the
-- bytes that arrive are those of some packets, each with the version of the protocol, as long as
-- its header gives and with a body that is not empty, then just these go to processPacket, in
-- their order. No read brings more than its buffer holds, and none ends in an error.
pub arrive_all-reads :
    (now : ℕ) (arrivals : List Arrival) (ps : List Packet)
    → All IsWhole ps
    → All (λ p. 0 < size p) ps
    → Fits false arrivals (start now)
    → arrived arrivals ≡ bodies ps
    → (arrive_all arrivals (start now)).1 ≡ ps
arrive_all-reads now arrivals ps w full f e =
    let cut = arrive_all-Cut false arrivals (start now) [] (blank-Holds now) f in
    cut_unique (arrive_all arrivals (start now)).1 ps (arrive_all arrivals (start now)).0 cut.1.0
      cut.0 w full cut.1.2 (sym cut.1.1 ∙ e)

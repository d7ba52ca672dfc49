-- ===== src/Transaction/Phases.antt =====
-- increaseStateCounter against its abstract account: a phase ends when both of its parties have
-- been heard, whatever the order of the messages and however often each is sent.
use xhubv.Prelude.{
  ◌≡◌, refl, sym, ap, ap₂, ◌∙◌, ◌≢◌, inl, inr, arith, Bool, true, false, ◌&&◌, ◌||◌, List, [], ◌∷◌,
  Bytes, bytes_eq, bytes_eq_iff, if◌then◌else◌, Bool-cases,
}
use xhubv.Transaction.{State, Member, Transaction, ◌=s◌, count_party, increase_state_counter}

-- The protocol's phases: in `At s n src` the hub waits in the state `s` for both clients and goes on to
-- `n`; `src` tells whether their source or their destination addresses confirm.
pub data Phase : State → State → Bool → Type 0 where
  joining : Phase State.tr_joined State.tr_hold true
  holding : Phase State.tr_hold State.tr_initialized false
  initializing : Phase State.tr_initialized State.tr_created true
  creating : Phase State.tr_created State.tr_signed false
  signing : Phase State.tr_signed State.tr_commited true
  commiting : Phase State.tr_commited State.tr_finished false

-- The address by which a member confirms.
abbrev pub party : Bool → Member → Bytes
party true m = m.source
party false m = m.dest

abbrev pub first_party : Bool → Transaction → Bytes
first_party src t = party src t.first

abbrev pub second_party : Bool → Transaction → Bytes
second_party src t = party src t.second

=s_refl : (s : State) → (s =s s) ≡ true
=s_refl State.tr_invalid = refl
=s_refl _ = refl

same : {s u : State} → u ≡ s → (s =s u) ≡ true
same {s} e = ap (λ v. s =s v) e ∙ =s_refl s

-- Inside a phase the counter is the counter of its two parties.
pub increase-Phase :
    {s n : State} {src : Bool} (p : Phase s n src) (from : Bytes) (t : Transaction)
    → t.state ≡ s
    → increase_state_counter s from t
      ≡ (let t' = count_party n from (first_party src t) (second_party src t) t in (t', t'.state))
unfolding increase_state_counter
increase-Phase joining from t e = rw (same e) refl
increase-Phase holding from t e = rw (same e) refl
increase-Phase initializing from t e = rw (same e) refl
increase-Phase creating from t e = rw (same e) refl
increase-Phase signing from t e = rw (same e) refl
increase-Phase commiting from t e = rw (same e) refl

-- The hub hears a list of senders, each with a message of the phase `s`.
unfoldable pub hear : State → List Bytes → Transaction → Transaction
hear s [] t = t
hear s (from ∷ froms) t = hear s froms (increase_state_counter s from t).0

unfoldable pub heard : Bytes → List Bytes → Bool
heard a [] = false
heard a (from ∷ froms) = bytes_eq from a || heard a froms

-- The abstract account: who has confirmed, and nothing about the order.
unfoldable pub settled : State → Bool → Bool → Transaction → Transaction
settled n f g t =
    if f && g
    then record t { state = n; first_changed = false; second_changed = false }
    else record t { first_changed = f; second_changed = g }

-- A message of another phase changes nothing.
pub increase_other :
    (s : State) (from : Bytes) (t : Transaction)
    → (s =s t.state) ≡ false
    → (increase_state_counter s from t).0 ≡ t
unfolding increase_state_counter
increase_other s from t e = rw e refl

hear_other :
    (s : State) (froms : List Bytes) (t : Transaction) → (s =s t.state) ≡ false → hear s froms t ≡ t
unfolding hear
hear_other s [] t e = refl
hear_other s (from ∷ froms) t e =
    ap (hear s froms) (increase_other s from t e) ∙ hear_other s froms t e

Phase-ne : {s n : State} {src : Bool} → Phase s n src → (s =s n) ≡ false
Phase-ne joining = refl
Phase-ne holding = refl
Phase-ne initializing = refl
Phase-ne creating = refl
Phase-ne signing = refl
Phase-ne commiting = refl

apart : (from a b : Bytes) → a ≢ b → bytes_eq from a ≡ true → bytes_eq from b ≡ false
apart from a b h e = ground (arith, bytes_eq_iff from a, bytes_eq_iff from b)

settled_none :
    (n : State) (t : Transaction)
    → t.first_changed && t.second_changed ≡ false
    → settled n t.first_changed t.second_changed t ≡ t
unfolding settled
settled_none n t h = rw h

-- One message, from a party or from anybody else, in the abstract account.
count_party-settled :
    (n : State) (from a b : Bytes) (t : Transaction)
    → a ≢ b
    → count_party n from a b t
      ≡ settled n (t.first_changed || bytes_eq from a) (t.second_changed || bytes_eq from b) t
unfolding count_party settled
count_party-settled n from a b t d = ground (arith, apart from a b d)

or_assoc : (x y z : Bool) → (x || y) || z ≡ x || (y || z)
or_assoc x y z = ground arith

or_false : (x : Bool) → x ≡ x || false
or_false x = ground arith

pub settled-true :
    (n : State) (f g : Bool) (t : Transaction)
    → f && g ≡ true
    → settled n f g t ≡ record t { state = n; first_changed = false; second_changed = false }
unfolding settled
settled-true n f g t h = rw h

module _ (n : State) (f g : Bool) (t : Transaction) where
  settled_open :
      f && g ≡ false → settled n f g t ≡ record t { first_changed = f; second_changed = g }
  unfolding settled
  settled_open h = rw h

  settled_flags :
      (x y : Bool)
      → settled n x y (record t { first_changed = f; second_changed = g }) ≡ settled n x y t
  unfolding settled
  settled_flags x y = refl

  -- Once both have been heard, the rest of the messages of the phase changes nothing.
  hear-settled_both :
      (s : State) (froms : List Bytes) (h k : Bool)
      → (s =s n) ≡ false
      → f && g ≡ true
      → hear s froms (settled n f g t) ≡ settled n (f || h) (g || k) t
  hear-settled_both s froms h k ne both =
      ap (hear s froms) (settled-true n f g t both)
      ∙ hear_other s froms (record t { state = n; first_changed = false; second_changed = false })
          ne
      ∙ sym (settled-true n (f || h) (g || k) t (ground arith))

-- In each of the six phases of a trade, on any list of messages of that phase and from any state
-- of its two flags that are not both set, increaseStateCounter amounts to this account: a party
-- has confirmed if its flag was set or its address is among the senders; if both have, the trade
-- is in the next state with its flags cleared, otherwise its flags record who has. The two
-- parties of the phase have different addresses.
pub hear-settled :
    {s n : State} {src : Bool} (p : Phase s n src) (froms : List Bytes) (t : Transaction)
    → t.state ≡ s
    → t.first_changed && t.second_changed ≡ false
    → first_party src t ≢ second_party src t
    → hear s froms t
      ≡ settled n
          (t.first_changed || heard (first_party src t) froms)
          (t.second_changed || heard (second_party src t) froms)
          t
unfolding hear heard
hear-settled {n} p [] t e h d =
    sym (settled_none n t h) ∙ ap₂ (λ x y. settled n x y t) (or_false _) (or_false _)
hear-settled {s} {n} {src} p (from ∷ froms) t e h d =
    ap (λ r. hear s froms r.0) (increase-Phase p from t e)
    ∙ ap (hear s froms) (count_party-settled n from (first_party src t) (second_party src t) t d)
    ∙ elim (Bool-cases (f && g)) [
      | inl both ↦ hear-settled_both n f g t s froms _ _ (Phase-ne p) both
      | inr open' ↦
          ap (hear s froms) (settled_open n f g t open')
          ∙ hear-settled p froms (record t { first_changed = f; second_changed = g }) e open' d
          ∙ settled_flags n f g t _ _
    ]
    ∙ ap₂ (λ x y. settled n x y t)
        (or_assoc t.first_changed (bytes_eq from (first_party src t))
          (heard (first_party src t) froms))
        (or_assoc t.second_changed (bytes_eq from (second_party src t))
          (heard (second_party src t) froms))
  where
    f : Bool
    f = t.first_changed || bytes_eq from (first_party src t)

    g : Bool
    g = t.second_changed || bytes_eq from (second_party src t)

-- ===== src/Prelude/Map.antt =====
-- std::map: an association list that insertion keeps in the order of its keys.
use mathlib.Core.Path.{◌≡◌, refl, subst}
use mathlib.Core.Logic.{◌↔◌, inl, inr}
use mathlib.Core.Bool.{Bool, true, false}
use mathlib.Core.List.{List, [], ◌∷◌}
use mathlib.Core.Option.{Option, none, some}
use Prim.Native.Nat.{ℕ}
use native.Mathlib.Omega.{arith}
use xhubv.Prelude.Tests.{ltb, ◌==◌, ==_iff, if◌then◌else◌, map_option, Bool-cases}
use xhubv.Prelude.Octets.{Bytes, bytes_eq, bytes_lt, bytes_eq_iff}

pub record Key {ℓ} (K : Type ℓ) : Type ℓ where
  pub less : K → K → Bool
  pub beq : K → K → Bool
  pub beq_iff : (a b : K) → (beq a b ≡ true) ↔ (a ≡ b)

instance abbrev pub ℕ-key : Key ℕ
ℕ-key = record { less = ltb; beq = ◌==◌; beq_iff = ==_iff }

instance abbrev pub Bytes-key : Key Bytes
Bytes-key = record { less = bytes_lt; beq = bytes_eq; beq_iff = bytes_eq_iff }

module _ {ℓ κ} {K : Type ℓ} {V : Type κ} ⦃key : Key K⦄ where
  unfoldable pub lookup : K → List (K × V) → Option V
  lookup k [] = none
  lookup k ((j, v) ∷ m) = if key.beq j k then some v else lookup k m

  -- `m.erase(k)`
  unfoldable pub erase : K → List (K × V) → List (K × V)
  erase k [] = []
  erase k ((j, w) ∷ m) = if key.beq j k then erase k m else (j, w) ∷ erase k m

  -- A new key goes before the first greater one.
  unfoldable pub place : K → V → List (K × V) → List (K × V)
  place k v [] = (k, v) ∷ []
  place k v ((j, w) ∷ m) = if key.less k j then (k, v) ∷ (j, w) ∷ m else (j, w) ∷ place k v m

  -- `m[k] = v`: an old entry under the key goes.
  unfoldable pub insert : K → V → List (K × V) → List (K × V)
  insert k v m = place k v (erase k m)

  -- A write to the object that stands under a key, if there is one.
  unfoldable pub assign : K → V → List (K × V) → List (K × V)
  assign k v [] = []
  assign k v ((j, w) ∷ m) = if key.beq j k then (j, v) ∷ assign k v m else (j, w) ∷ assign k v m

  -- `m.count(k) > 0`
  unfoldable pub contains : K → List (K × V) → Bool
  contains k [] = false
  contains k ((j, w) ∷ m) = if key.beq j k then true else contains k m

  pub lookup-erase :
      (k q : K) (m : List (K × V))
      → lookup q (erase k m) ≡ (if key.beq k q then none else lookup q m)
  unfolding lookup erase
  lookup-erase k q [] = ground arith
  lookup-erase k q ((j, w) ∷ m) =
      ground (arith, key.beq_iff k q, key.beq_iff j k, key.beq_iff j q, lookup-erase k q m)

  pub lookup-erase_self : (k : K) (m : List (K × V)) → lookup k (erase k m) ≡ none
  lookup-erase_self k m = rw (lookup-erase k k m, (key.beq_iff k k).1 refl)

  lookup-place :
      (k q : K) (v : V) (m : List (K × V))
      → lookup k m ≡ none
      → lookup q (place k v m) ≡ (if key.beq k q then some v else lookup q m)
  unfolding lookup place
  lookup-place k q v [] h = refl
  lookup-place k q v ((j, w) ∷ m) h =
      ground (arith, key.beq_iff k q, key.beq_iff j k, key.beq_iff j q, lookup-place k q v m)

  pub lookup-insert :
      (k q : K) (v : V) (m : List (K × V))
      → lookup q (insert k v m) ≡ (if key.beq k q then some v else lookup q m)
  unfolding insert
  lookup-insert k q v m =
      ground (arith, lookup-place k q v (erase k m) (lookup-erase_self k m), lookup-erase k q m)

  pub lookup-insert_self : (k : K) (v : V) (m : List (K × V)) → lookup k (insert k v m) ≡ some v
  lookup-insert_self k v m = rw (lookup-insert k k v m, (key.beq_iff k k).1 refl)

  pub lookup-assign :
      (k q : K) (v : V) (m : List (K × V))
      → lookup q (assign k v m)
        ≡ (if key.beq k q then map_option (λ _. v) (lookup q m) else lookup q m)
  unfolding lookup assign
  lookup-assign k q v [] = ground arith
  lookup-assign k q v ((j, w) ∷ m) =
      ground (arith, key.beq_iff k q, key.beq_iff j k, key.beq_iff j q, lookup-assign k q v m)

  pub contains-eq_true :
      (k : K) (m : List (K × V)) (v : V) → lookup k m ≡ some v → contains k m ≡ true
  unfolding lookup contains
  contains-eq_true k [] v h = cc
  contains-eq_true k ((j, w) ∷ m) v h = ground (arith, contains-eq_true k m v)

  pub contains-eq_false : (k : K) (m : List (K × V)) → lookup k m ≡ none → contains k m ≡ false
  unfolding lookup contains
  contains-eq_false k [] h = refl
  contains-eq_false k ((j, w) ∷ m) h = ground (arith, contains-eq_false k m)

  -- No key stands twice.
  abbrev pub IsMap : List (K × V) → Type κ
  IsMap [] = Unit
  IsMap ((j, w) ∷ m) = (lookup j m ≡ none) × IsMap m

  pub erase-IsMap : (k : K) (m : List (K × V)) → IsMap m → IsMap (erase k m)
  unfolding erase
  erase-IsMap k [] h = h
  erase-IsMap k ((j, w) ∷ m) h = ground (arith, erase-IsMap k m h.1, lookup-erase k j m)

  place-IsMap :
      (k : K) (v : V) (m : List (K × V)) → lookup k m ≡ none → IsMap m → IsMap (place k v m)
  unfolding place lookup
  place-IsMap k v [] n h = (refl, h)
  place-IsMap k v ((j, w) ∷ m) n h = elim (Bool-cases (key.less k j)) [
    | inl e ↦ rw e (n, h)
    | inr e ↦ rw e (
      ground (arith, lookup-place k j v m, key.beq_iff k j, key.beq_iff j k),
      place-IsMap k v m (ground arith) h.1,
    )
  ]

  pub insert-IsMap : (k : K) (v : V) (m : List (K × V)) → IsMap m → IsMap (insert k v m)
  unfolding insert
  insert-IsMap k v m h = place-IsMap k v (erase k m) (lookup-erase_self k m) (erase-IsMap k m h)

  pub assign-IsMap : (k : K) (v : V) (m : List (K × V)) → IsMap m → IsMap (assign k v m)
  unfolding assign
  assign-IsMap k v [] h = h
  assign-IsMap k v ((j, w) ∷ m) h = elim (Bool-cases (key.beq j k)) [
    | inl e ↦ rw e (absent, assign-IsMap k v m h.1)
    | inr e ↦ rw e (absent, assign-IsMap k v m h.1)
  ]
    where
      absent : lookup j (assign k v m) ≡ none
      absent = ground (arith, lookup-assign k j v m)

  module _ {ℓ'} (P : K → V → Type ℓ') where
    abbrev pub Each : List (K × V) → Type ℓ'
    Each [] = Unit
    Each ((k, v) ∷ m) = P k v × Each m

    pub erase-Each : (k : K) (m : List (K × V)) → Each m → Each (erase k m)
    unfolding erase
    erase-Each k [] h = h
    erase-Each k ((j, w) ∷ m) h = elim (Bool-cases (key.beq j k)) [
      | inl e ↦ rw e (erase-Each k m h.1)
      | inr e ↦ rw e (h.0, erase-Each k m h.1)
    ]

    place-Each : (k : K) (v : V) (m : List (K × V)) → P k v → Each m → Each (place k v m)
    unfolding place
    place-Each k v [] p h = (p, h)
    place-Each k v ((j, w) ∷ m) p h = elim (Bool-cases (key.less k j)) [
      | inl e ↦ rw e (p, h)
      | inr e ↦ rw e (h.0, place-Each k v m p h.1)
    ]

    pub insert-Each : (k : K) (v : V) (m : List (K × V)) → P k v → Each m → Each (insert k v m)
    unfolding insert
    insert-Each k v m p h = place-Each k v (erase k m) p (erase-Each k m h)

    pub assign-Each : (k : K) (v : V) (m : List (K × V)) → P k v → Each m → Each (assign k v m)
    unfolding assign
    assign-Each k v [] p h = h
    assign-Each k v ((j, w) ∷ m) p h = elim (Bool-cases (key.beq j k)) [
      | inl e ↦ rw e (rw ((key.beq_iff j k).0 e) p, assign-Each k v m p h.1)
      | inr e ↦ rw e (h.0, assign-Each k v m p h.1)
    ]

    pub lookup-Each : (k : K) (m : List (K × V)) (v : V) → Each m → lookup k m ≡ some v → P k v
    unfolding lookup
    lookup-Each k [] v h e = cc
    lookup-Each k ((j, w) ∷ m) v h e = elim (Bool-cases (key.beq j k)) [
      | inl same ↦ subst (λ i. P i v) ((key.beq_iff j k).0 same) (subst (P j) (found same) h.0)
      | inr other ↦ lookup-Each k m v h.1 (ground arith)
    ]
      where
        found : key.beq j k ≡ true → w ≡ v
        found same = ground arith

module _ {ℓ κ} {K : Type ℓ} {V : Type κ} ⦃key : Key K⦄ where
  -- A write under a key that is not there changes nothing.
  pub assign_absent : (k : K) (v : V) (m : List (K × V)) → lookup k m ≡ none → assign k v m ≡ m
  unfolding lookup assign
  assign_absent k v [] h = refl
  assign_absent k v ((j, w) ∷ m) h = ground (arith, assign_absent k v m)

  -- A predicate of the entries under other keys than `k`.
  pub Each-mono {ℓ' ℓ''} :
      (P : K → V → Type ℓ') (Q : K → V → Type ℓ'') (k : K) (m : List (K × V))
      → lookup k m ≡ none
      → ((j : K) (v : V) → key.beq k j ≡ false → P j v → Q j v)
      → Each P m
      → Each Q m
  unfolding lookup
  Each-mono P Q k [] h f e = tt
  Each-mono P Q k ((j, v) ∷ m) h f e = (
    f j v (ground (arith, key.beq_iff k j, key.beq_iff j k)) e.0,
    Each-mono P Q k m (ground arith) f e.1,
  )

  -- Every entry of a map is found.
  pub Each-lookup : (m : List (K × V)) → IsMap m → Each (λ k v. lookup k m ≡ some v) m
  unfolding lookup
  Each-lookup [] h = tt
  Each-lookup ((k, v) ∷ m) h = (
    ground (arith, key.beq_iff k k),
    Each-mono (λ j u. lookup j m ≡ some u) (λ j u. lookup j ((k, v) ∷ m) ≡ some u) k m h.0
        (λ j u ne e. rw ne e) (Each-lookup m h.1),
  )

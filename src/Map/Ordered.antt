-- ===== src/Map/Ordered.antt =====
-- `im::OrdMap`: lookups and removal are those of `Map`; an insertion keeps the keys ascending, so
-- that iteration meets the least key first.
use prosthetic_conscience.Prelude.{
  ◌≡◌, refl, Bool, true, false, ◌||◌, [], ◌∷◌, some, inl, inr, arith, Eq, ◌==◌, Ord, if◌then◌else◌,
  Bool-cases, equals→eq,
}
use prosthetic_conscience.Map.{
  Map, AllEntries, IsUnique, filter_entries, get, contains_key, without,
}

lt_of_not :
    {K : Type 0} ⦃e : Eq K⦄ ⦃o : Ord K⦄ (j k : K)
    → (j == k) ≡ false
    → o.lt k j ≡ false
    → o.lt j k ≡ true
lt_of_not ⦃e⦄ ⦃o⦄ j k p q = ground (arith, o.lt_total j k, e.equals_iff j k)

module _ {K V : Type 0} ⦃e : Eq K⦄ ⦃o : Ord K⦄ where
  -- `m.update(k, v)` of an ordered map.
  unfoldable pub update : Map K V → K → V → Map K V
  update [] k v = (k, v) ∷ []
  update ((j, w) ∷ m) k v =
      if j == k then (k, v) ∷ m else if o.lt k j then (k, v) ∷ (j, w) ∷ m else (j, w) ∷ update m k v

  -- The least capable key is searched along this order.
  abbrev pub IsSorted : Map K V → Type 0
  IsSorted [] = Unit
  IsSorted ((k, v) ∷ m) = AllEntries (λ j _. o.lt k j ≡ true) m × IsSorted m

  pub get-update :
      (m : Map K V) (k j : K) (v : V) → get (update m k v) j ≡ (if k == j then some v else get m j)
  unfolding get update
  get-update [] k j v = refl
  get-update ((i, w) ∷ m) k j v =
      ground (arith, e.equals_iff i k, e.equals_iff i j, e.equals_iff k j, get-update m k j v)

  pub contains_key-update :
      (m : Map K V) (k j : K) (v : V) → contains_key (update m k v) j ≡ (k == j || contains_key m j)
  unfolding contains_key update
  contains_key-update [] k j v = refl
  contains_key-update ((i, w) ∷ m) k j v =
      ground
        (arith, e.equals_iff i k, e.equals_iff i j, e.equals_iff k j, contains_key-update m k j v)

  -- A key below all others is not among them.
  below-fresh :
      (k : K) (m : Map K V) → AllEntries (λ j _. o.lt k j ≡ true) m → contains_key m k ≡ false
  unfolding contains_key
  below-fresh k [] h = refl
  below-fresh k ((j, v) ∷ m) h =
      ground (arith, below-fresh k m h.1, e.equals_iff j k, o.lt_irrefl k)

  pub IsSorted-IsUnique : (m : Map K V) → IsSorted m → IsUnique m
  IsSorted-IsUnique [] s = tt
  IsSorted-IsUnique ((k, v) ∷ m) s = (below-fresh k m s.0, IsSorted-IsUnique m s.1)

  below_trans :
      (i k : K) (m : Map K V)
      → o.lt i k ≡ true
      → AllEntries (λ j _. o.lt k j ≡ true) m
      → AllEntries (λ j _. o.lt i j ≡ true) m
  below_trans i k [] h a = tt
  below_trans i k ((j, v) ∷ m) h a = (o.lt_trans i k j h a.0, below_trans i k m h a.1)

  below-update :
      (i k : K) (v : V) (m : Map K V)
      → o.lt i k ≡ true
      → AllEntries (λ j _. o.lt i j ≡ true) m
      → AllEntries (λ j _. o.lt i j ≡ true) (update m k v)
  unfolding update
  below-update i k v [] h a = (h, tt)
  below-update i k v ((j, w) ∷ m) h a = elim (Bool-cases (j == k)) [
    | inl p ↦ rw p (h, a.1)
    | inr p ↦ rw p (elim (Bool-cases (o.lt k j)) [
      | inl q ↦ rw q (h, (a.0, a.1))
      | inr q ↦ rw q (a.0, below-update i k v m h a.1)
    ])
  ]

  pub update-IsSorted : (m : Map K V) (k : K) (v : V) → IsSorted m → IsSorted (update m k v)
  unfolding update
  update-IsSorted [] k v s = (tt, tt)
  update-IsSorted ((j, w) ∷ m) k v s = elim (Bool-cases (j == k)) [
    | inl p ↦ rw p (rw (equals→eq j k p) at s)
    | inr p ↦ rw p (elim (Bool-cases (o.lt k j)) [
      | inl q ↦ rw q ((q, below_trans k j m q s.0), (s.0, s.1))
      | inr q ↦ rw q (below-update j k v m (lt_of_not j k p q) s.0, update-IsSorted m k v s.1)
    ])
  ]

  below-without :
      (P : K → V → Type 0) (k : K) (m : Map K V) → AllEntries P m → AllEntries P (without m k)
  unfolding without
  below-without P k [] a = tt
  below-without P k ((j, w) ∷ m) a = elim (Bool-cases (j == k)) [
    | inl p ↦ rw p (below-without P k m a.1)
    | inr p ↦ rw p (a.0, below-without P k m a.1)
  ]

  pub without-IsSorted : (m : Map K V) (k : K) → IsSorted m → IsSorted (without m k)
  unfolding without
  without-IsSorted [] k s = tt
  without-IsSorted ((j, w) ∷ m) k s = elim (Bool-cases (j == k)) [
    | inl p ↦ rw p (without-IsSorted m k s.1)
    | inr p ↦ rw p (below-without (λ i _. o.lt j i ≡ true) k m s.0, without-IsSorted m k s.1)
  ]

  below-filter_entries :
      (P : K → V → Type 0) (p : K → V → Bool) (m : Map K V)
      → AllEntries P m
      → AllEntries P (filter_entries p m)
  unfolding filter_entries
  below-filter_entries P p [] a = tt
  below-filter_entries P p ((j, w) ∷ m) a = elim (Bool-cases (p j w)) [
    | inl h ↦ rw h (a.0, below-filter_entries P p m a.1)
    | inr h ↦ rw h (below-filter_entries P p m a.1)
  ]

  pub filter_entries-IsSorted :
      (p : K → V → Bool) (m : Map K V) → IsSorted m → IsSorted (filter_entries p m)
  unfolding filter_entries
  filter_entries-IsSorted p [] s = tt
  filter_entries-IsSorted p ((j, w) ∷ m) s = elim (Bool-cases (p j w)) [
    | inl h ↦
        rw h
          (below-filter_entries (λ i _. o.lt j i ≡ true) p m s.0, filter_entries-IsSorted p m s.1)
    | inr h ↦ rw h (filter_entries-IsSorted p m s.1)
  ]

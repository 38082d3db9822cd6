-- ===== src/Map/Deadlines.antt =====
-- Maps whose values are deadlines: which keys a tick finds expired, and their removal.
use prosthetic_conscience.Prelude.{
  ℕ, ◌≡◌, refl, Bool, false, List, [], ◌∷◌, Option, none, some, arith, Eq, leb, if◌then◌else◌,
  contains, IsDistinct, Bool-cases, inl, inr,
}
use prosthetic_conscience.Map.{
  Map, IsUnique, get, keys, without, filter_entries, get-without, contains_key-get,
  without-IsUnique,
}

-- Whether a lookup found a deadline that the tick has reached.
abbrev pub is_due : ℕ → Option ℕ → Bool
is_due tick none = false
is_due tick (some d) = leb d tick

module _ {K : Type 0} where
  -- The keys whose deadline a tick has reached.
  abbrev pub due : ℕ → Map K ℕ → List K
  due tick [] = []
  due tick ((k, d) ∷ m) = let rest = due tick m in if leb d tick then k ∷ rest else rest

  pub keys-filter_entries :
      (tick : ℕ) (m : Map K ℕ) → keys (filter_entries (λ _ d. leb d tick) m) ≡ due tick m
  unfolding filter_entries
  keys-filter_entries tick [] = refl
  keys-filter_entries tick ((k, d) ∷ m) = ground (arith, keys-filter_entries tick m)

module _ {K : Type 0} ⦃e : Eq K⦄ where
  pub contains-due :
      (tick : ℕ) (m : Map K ℕ) (k : K)
      → IsUnique m
      → contains (due tick m) k ≡ is_due tick (get m k)
  unfolding get
  contains-due tick [] k u = refl
  contains-due tick ((j, d) ∷ m) k u =
      ground (arith, contains-due tick m k, contains_key-get m j, e.equals_iff j k)

  pub due-IsDistinct : (tick : ℕ) (m : Map K ℕ) → IsUnique m → IsDistinct (due tick m)
  due-IsDistinct tick [] u = tt
  due-IsDistinct tick ((j, d) ∷ m) u = elim (Bool-cases (leb d tick)) [
    | inl h ↦
        rw h
          (ground (arith, contains-due tick m j, contains_key-get m j), due-IsDistinct tick m u.1)
    | inr h ↦ rw h (due-IsDistinct tick m u.1)
  ]

module _ {K V : Type 0} ⦃e : Eq K⦄ where
  -- A fold of `without` over a list of keys.
  unfoldable pub without_all : Map K V → List K → Map K V
  without_all m [] = m
  without_all m (k ∷ ks) = without_all (without m k) ks

  pub get-without_all :
      (m : Map K V) (ks : List K) (k : K)
      → get (without_all m ks) k ≡ (if contains ks k then none else get m k)
  unfolding without_all
  get-without_all m [] k = refl
  get-without_all m (j ∷ ks) k =
      ground (arith, get-without_all (without m j) ks k, get-without m j k)

  pub without_all-IsUnique : (m : Map K V) (ks : List K) → IsUnique m → IsUnique (without_all m ks)
  unfolding without_all
  without_all-IsUnique m [] u = u
  without_all-IsUnique m (j ∷ ks) u = without_all-IsUnique (without m j) ks (without-IsUnique m j u)

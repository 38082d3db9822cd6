-- ===== src/Map.antt =====
-- The immutable maps `im::HashMap` and `im::OrdMap`, and `std::collections::HashMap`, as
-- association lists. The order of the list is the order of iteration. A hash map promises none,
-- so the theorems about the program speak of lookups and of membership only; an ordered map
-- iterates by ascending key, which `Map.Ordered` keeps.
pub mod Ordered
pub mod Deadlines
use prosthetic_conscience.Prelude.{
  suc, ◌≤◌, length, ◌≡◌, refl, Bool, true, false, ◌&&◌, not, ◌||◌, List, [], ◌∷◌, Option, none,
  some, arith, Eq, ◌==◌, if◌then◌else◌, is_some, contains, get_of_is_some, contains, Bool-cases,
  equals→eq, inl, inr,
}

abbrev pub Map : Type 0 → Type 0 → Type 0
Map K V = List (K × V)

module _ {K V : Type 0} where
  -- Every entry passes the test.
  abbrev pub AllEntries : (K → V → Type 0) → Map K V → Type 0
  AllEntries P [] = Unit
  AllEntries P ((k, v) ∷ m) = P k v × AllEntries P m

  -- `m.keys()`.
  abbrev pub keys : Map K V → List K
  keys [] = []
  keys ((k, v) ∷ m) = k ∷ keys m

  -- `m.into_iter().filter(..).collect()`.
  unfoldable pub filter_entries : (K → V → Bool) → Map K V → Map K V
  filter_entries p [] = []
  filter_entries p ((k, v) ∷ m) =
      let rest = filter_entries p m in if p k v then (k, v) ∷ rest else rest

module _ {K V : Type 0} ⦃e : Eq K⦄ where
  unfoldable pub get : Map K V → K → Option V
  get [] k = none
  get ((j, v) ∷ m) k = if j == k then some v else get m k

  unfoldable pub contains_key : Map K V → K → Bool
  contains_key [] k = false
  contains_key ((j, v) ∷ m) k = j == k || contains_key m k

  -- `m.update(k, v)`: a new entry, or a new value for the key.
  unfoldable pub update : Map K V → K → V → Map K V
  update [] k v = (k, v) ∷ []
  update ((j, w) ∷ m) k v = if j == k then (k, v) ∷ m else (j, w) ∷ update m k v

  unfoldable pub without : Map K V → K → Map K V
  without [] k = []
  without ((j, v) ∷ m) k = let rest = without m k in if j == k then rest else (j, v) ∷ rest

  -- Each key stands once, as in every map of the source.
  abbrev pub IsUnique : Map K V → Type 0
  IsUnique [] = Unit
  IsUnique ((k, v) ∷ m) = (contains_key m k ≡ false) × IsUnique m

  pub get-update :
      (m : Map K V) (k j : K) (v : V) → get (update m k v) j ≡ (if k == j then some v else get m j)
  unfolding get update
  get-update [] k j v = refl
  get-update ((i, w) ∷ m) k j v =
      ground (arith, e.equals_iff i k, e.equals_iff i j, e.equals_iff k j, get-update m k j v)

  pub get-without :
      (m : Map K V) (k j : K) → get (without m k) j ≡ (if k == j then none else get m j)
  unfolding get without
  get-without [] k j = ground arith
  get-without ((i, w) ∷ m) k j =
      ground (arith, e.equals_iff i k, e.equals_iff i j, e.equals_iff k j, get-without m k j)

  pub contains_key-update :
      (m : Map K V) (k j : K) (v : V) → contains_key (update m k v) j ≡ (k == j || contains_key m j)
  unfolding contains_key update
  contains_key-update [] k j v = refl
  contains_key-update ((i, w) ∷ m) k j v =
      ground
        (arith, e.equals_iff i k, e.equals_iff i j, e.equals_iff k j, contains_key-update m k j v)

  pub contains_key-without :
      (m : Map K V) (k j : K) → contains_key (without m k) j ≡ (not (k == j) && contains_key m j)
  unfolding contains_key without
  contains_key-without [] k j = ground arith
  contains_key-without ((i, w) ∷ m) k j =
      ground
        (arith, e.equals_iff i k, e.equals_iff i j, e.equals_iff k j, contains_key-without m k j)

  pub contains_key-get : (m : Map K V) (k : K) → contains_key m k ≡ is_some (get m k)
  unfolding contains_key get
  contains_key-get [] k = refl
  contains_key-get ((j, v) ∷ m) k = ground (arith, contains_key-get m k)

  pub get_of_contains_key :
      (m : Map K V) (k : K) → contains_key m k ≡ true → (v : V) × (get m k ≡ some v)
  get_of_contains_key m k h = get_of_is_some (get m k) (rw contains_key-get at h)

  pub contains_key_of_get :
      (m : Map K V) (k : K) {v : V} → get m k ≡ some v → contains_key m k ≡ true
  contains_key_of_get m k h = rw (contains_key-get, h)

  pub length-update : (m : Map K V) (k : K) (v : V) → length (update m k v) ≤ suc (length m)
  unfolding update
  length-update [] k v = omega arith
  length-update ((j, w) ∷ m) k v = ground (arith, length-update m k v)

  pub update-IsUnique : (m : Map K V) (k : K) (v : V) → IsUnique m → IsUnique (update m k v)
  unfolding update contains_key
  update-IsUnique [] k v u = (refl, tt)
  update-IsUnique ((j, w) ∷ m) k v u = elim (Bool-cases (j == k)) [
    | inl h ↦ rw h (rw (equals→eq j k h) at u)
    | inr h ↦ rw h (
      ground (arith, contains_key-update m k j v, e.equals_iff j k, e.equals_iff k j),
      update-IsUnique m k v u.1,
    )
  ]

  pub contains_key-without_ne :
      (m : Map K V) (k j : K) → contains_key m j ≡ false → contains_key (without m k) j ≡ false
  contains_key-without_ne m k j h = ground (arith, contains_key-without m k j)

  pub without-IsUnique : (m : Map K V) (k : K) → IsUnique m → IsUnique (without m k)
  unfolding without
  without-IsUnique [] k u = u
  without-IsUnique ((j, w) ∷ m) k u = elim (Bool-cases (j == k)) [
    | inl h ↦ rw h (without-IsUnique m k u.1)
    | inr h ↦ rw h (contains_key-without_ne m k j u.0, without-IsUnique m k u.1)
  ]

  pub get-filter_entries :
      (p : K → V → Bool) (m : Map K V) (k : K)
      → IsUnique m
      → get (filter_entries p m) k
        ≡ elim (get m k) [ none ↦ none | some v ↦ if p k v then some v else none ]
  unfolding get filter_entries
  get-filter_entries p [] k u = refl
  get-filter_entries p ((j, v) ∷ m) k u =
      ground (arith, get-filter_entries p m k, contains_key-get m j, e.equals_iff j k)

  pub contains_key-filter_entries :
      (p : K → V → Bool) (m : Map K V) (k : K)
      → contains_key m k ≡ false
      → contains_key (filter_entries p m) k ≡ false
  unfolding contains_key filter_entries
  contains_key-filter_entries p [] k h = refl
  contains_key-filter_entries p ((j, v) ∷ m) k h = ground (arith, contains_key-filter_entries p m k)

  pub filter_entries-IsUnique :
      (p : K → V → Bool) (m : Map K V) → IsUnique m → IsUnique (filter_entries p m)
  unfolding filter_entries
  filter_entries-IsUnique p [] u = u
  filter_entries-IsUnique p ((j, v) ∷ m) u = elim (Bool-cases (p j v)) [
    | inl h ↦ rw h (contains_key-filter_entries p m j u.0, filter_entries-IsUnique p m u.1)
    | inr h ↦ rw h (filter_entries-IsUnique p m u.1)
  ]

  pub contains-keys : (m : Map K V) (k : K) → contains (keys m) k ≡ contains_key m k
  unfolding contains_key
  contains-keys [] k = refl
  contains-keys ((j, v) ∷ m) k = ground (arith, contains-keys m k)

  -- What a lookup finds satisfies a test.
  abbrev pub found : (K → V → Bool) → K → Option V → Bool
  found p k none = false
  found p k (some v) = p k v

  pub contains-keys_filter :
      (p : K → V → Bool) (m : Map K V) (k : K)
      → IsUnique m
      → contains (keys (filter_entries p m)) k ≡ found p k (get m k)
  contains-keys_filter p m k u =
      rw (contains-keys (filter_entries p m) k, contains_key-get (filter_entries p m) k)
        (ground (arith, get-filter_entries p m k u))

-- ===== src/Solver/Labels.antt =====
-- How a write of one label changes the tests on a labelling (solver.rs).
use mathlib.Core.List.{Memᴰ}
use prosthetic_conscience.Prelude.{
  ℕ, ◌<◌, ◌≡◌, refl, Bool, true, List, [], ◌∷◌, some, arith, get_elem?, set, all, any, length,
  if◌then◌else◌, get_elem?-set_self, get_elem?-set_ne, lt_of_get_elem?, get_elem?-lt, nat_beq,
  nat_beq_iff, Bool-cases, inl, inr, ◌⊎◌,
}
use prosthetic_conscience.Solver.{Label, «in», out, undec, label_beq, has_label}

pub label_beq_refl : (l : Label) → label_beq l l ≡ true
label_beq_refl «in» = refl
label_beq_refl _ = refl

pub has_label-get :
    (labels : List Label) (l : Label) (x : ℕ)
    → has_label labels l x ≡ true
    → get_elem? labels x ≡ some l
unfolding has_label
has_label-get labels l x h = ground arith

pub get-has_label :
    (labels : List Label) (l : Label) (x : ℕ)
    → get_elem? labels x ≡ some l
    → has_label labels l x ≡ true
unfolding has_label
get-has_label labels l x h = ground (arith, label_beq_refl l)

pub has_label-lt :
    (labels : List Label) (l : Label) (x : ℕ) → has_label labels l x ≡ true → x < length labels
has_label-lt labels l x h = lt_of_get_elem? labels x (has_label-get labels l x h)

-- A labelled node is in exactly one class.
pub has_label_cases :
    (labels : List Label) (x : ℕ)
    → x < length labels
    → (has_label labels «in» x ≡ true)
      ⊎ (has_label labels out x ≡ true)
      ⊎ (has_label labels undec x ≡ true)
unfolding has_label
has_label_cases labels x h = ground (arith, get_elem?-lt labels x h)

pub has_label_unique :
    (labels : List Label) (x : ℕ) (l l' : Label)
    → has_label labels l x ≡ true
    → has_label labels l' x ≡ true
    → l ≡ l'
unfolding has_label
has_label_unique labels x l l' h k = ground arith

-- What a write to a labelled node leaves.
pub has_label-set :
    (labels : List Label) (y : ℕ) (new l : Label) (x : ℕ)
    → y < length labels
    → has_label (set labels y new) l x
      ≡ (if nat_beq y x then label_beq new l else has_label labels l x)
unfolding has_label
has_label-set labels y new l x h = elim (Bool-cases (nat_beq y x)) [
  | inl e ↦
      let same : y ≡ x = (nat_beq_iff y x).0 e in
      rw (e, ← same, get_elem?-set_self labels y new h, has_label)
  | inr e ↦ rw (e, get_elem?-set_ne labels y x new (λ same. ground arith), has_label)
]

module _ {ℓ} {A : Type ℓ} where
  pub all_mem : (p : A → Bool) (xs : List A) (a : A) → all p xs ≡ true → Memᴰ a xs → p a ≡ true
  all_mem p [] a h m = elim m [ ]
  all_mem p (x ∷ xs) a h (Memᴰ.head e) = ground arith
  all_mem p (x ∷ xs) a h (Memᴰ.tail m) = all_mem p xs a (ground arith) m

  pub all_of_mem :
      (p : A → Bool) (xs : List A) → ((a : A) → Memᴰ a xs → p a ≡ true) → all p xs ≡ true
  all_of_mem p [] h = refl
  all_of_mem p (x ∷ xs) h =
      ground (arith, h x (Memᴰ.head refl), all_of_mem p xs (λ a m. h a (Memᴰ.tail m)))

  pub any_mem : (p : A → Bool) (xs : List A) → any p xs ≡ true → (a : A) × Memᴰ a xs × (p a ≡ true)
  any_mem p [] h = cc
  any_mem p (x ∷ xs) h = elim (Bool-cases (p x)) [
    | inl e ↦ (x, Memᴰ.head refl, e)
    | inr e ↦ let (a, m, q) = any_mem p xs (ground arith) in (a, Memᴰ.tail m, q)
  ]

  pub any_of_mem : (p : A → Bool) (xs : List A) (a : A) → Memᴰ a xs → p a ≡ true → any p xs ≡ true
  any_of_mem p [] a m h = elim m [ ]
  any_of_mem p (x ∷ xs) a (Memᴰ.head e) h = ground arith
  any_of_mem p (x ∷ xs) a (Memᴰ.tail m) h = ground (arith, any_of_mem p xs a m h)

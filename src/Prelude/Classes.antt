-- ===== src/Prelude/Classes.antt =====
-- Interfaces that stand for trait bounds of the source: `Eq`, `Ord` and `Display`.
use Prim.Native.Nat.{ℕ}
use Prim.Native.String.{String}
use mathlib.Core.Path.{◌≡◌, refl}
use mathlib.Core.Logic.{◌↔◌, ◌⊎◌}
use mathlib.Core.Bool.{Bool, true, false, ◌&&◌, ◌||◌}
use mathlib.Core.List.{List, [], ◌∷◌, ◌++◌}
use native.Mathlib.Omega.{arith}
use text.Mathlib.Text.{◌==◌ as str_eq}
use text.Mathlib.TextEquality.{eq_iff}
use prosthetic_conscience.Prelude.Tests.{nat_beq, nat_beq_iff, ltb}

-- An equality test that decides equality.
pub record Eq {ℓ} (Key : Type ℓ) : Type ℓ where
  pub equals : Key → Key → Bool
  pub equals_iff : (x y : Key) → (equals x y ≡ true) ↔ (x ≡ y)

-- The operator of `PartialEq`.
infix 50 ◌==◌
abbrev pub ◌==◌ {ℓ} : {Key : Type ℓ} ⦃test : Eq Key⦄ → Key → Key → Bool
◌==◌ ⦃test⦄ x y = test.equals x y

-- The equality of pairs.
abbrev pub pair_beq : {A B : Type 0} ⦃ea : Eq A⦄ ⦃eb : Eq B⦄ → A × B → A × B → Bool
pair_beq p q = p.0 == q.0 && p.1 == q.1

pub pair_beq_iff :
    {A B : Type 0} ⦃ea : Eq A⦄ ⦃eb : Eq B⦄ (p q : A × B) → (pair_beq p q ≡ true) ↔ (p ≡ q)
pair_beq_iff ⦃ea⦄ ⦃eb⦄ (a, b) (c, d) = ground (arith, ea.equals_iff a c, eb.equals_iff b d)

instance abbrev pub pair_eq : {A B : Type 0} ⦃ea : Eq A⦄ ⦃eb : Eq B⦄ → Eq (A × B)
pair_eq = record { equals = pair_beq; equals_iff = pair_beq_iff }

pub beq_refl {ℓ} : {A : Type ℓ} ⦃e : Eq A⦄ (a : A) → (a == a) ≡ true
beq_refl ⦃e⦄ a = (e.equals_iff a a).1 refl

pub equals→eq {ℓ} : {A : Type ℓ} ⦃e : Eq A⦄ (a b : A) → (a == b) ≡ true → a ≡ b
equals→eq ⦃e⦄ a b h = (e.equals_iff a b).0 h

-- A strict total order, as `Ord` promises.
pub record Ord {ℓ} (A : Type ℓ) : Type ℓ where
  pub lt : A → A → Bool
  pub lt_irrefl : (a : A) → lt a a ≡ false
  pub lt_trans : (a b c : A) → lt a b ≡ true → lt b c ≡ true → lt a c ≡ true
  pub lt_total : (a b : A) → (lt a b ≡ true) ⊎ (a ≡ b) ⊎ (lt b a ≡ true)

pub ltb_total : (a b : ℕ) → (ltb a b ≡ true) ⊎ (a ≡ b) ⊎ (ltb b a ≡ true)
ltb_total a b = ground arith

pub ltb_irrefl : (a : ℕ) → ltb a a ≡ false
ltb_irrefl a = ground arith

pub ltb_trans : (a b c : ℕ) → ltb a b ≡ true → ltb b c ≡ true → ltb a c ≡ true
ltb_trans a b c h k = ground arith

instance abbrev pub nat_eq : Eq ℕ
nat_eq = record { equals = nat_beq; equals_iff = nat_beq_iff }

instance abbrev pub nat_ord : Ord ℕ
nat_ord = record { lt = ltb; lt_irrefl = ltb_irrefl; lt_trans = ltb_trans; lt_total = ltb_total }

-- `std::fmt::Display`: the text of an identifier.
pub record Display {ℓ} (A : Type ℓ) : Type ℓ where
  pub to_string : A → String

abbrev pub to_string {ℓ} : {A : Type ℓ} ⦃d : Display A⦄ → A → String
to_string ⦃d⦄ = d.to_string

-- `slice::contains`.
abbrev pub contains {ℓ} : {A : Type ℓ} ⦃e : Eq A⦄ → List A → A → Bool
contains [] a = false
contains (x ∷ xs) a = x == a || contains xs a

-- No element stands twice.
abbrev pub IsDistinct {ℓ} : {A : Type ℓ} ⦃e : Eq A⦄ → List A → Type 0
IsDistinct [] = Unit
IsDistinct (x ∷ xs) = (contains xs x ≡ false) × IsDistinct xs

pub contains-append {ℓ} :
    {A : Type ℓ} ⦃e : Eq A⦄ (xs ys : List A) (a : A)
    → contains (xs ++ ys) a ≡ (contains xs a || contains ys a)
contains-append [] ys a = refl
contains-append (x ∷ xs) ys a = ground (arith, contains-append xs ys a)

instance abbrev pub string_eq : Eq String
string_eq = record { equals = str_eq; equals_iff = eq_iff }

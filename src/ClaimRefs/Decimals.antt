-- ===== src/ClaimRefs/Decimals.antt =====
-- The decimal form of a `u64`, printed and parsed.
use Prim.Native.Char.{Char, code}
use Prim.Native.String.{◌++◌}
use Prim.Native.String.append
use Prim.Native.Nat.{◌/◌}
use prosthetic_conscience.Prelude.{
  ℕ, zero, suc, ◌+◌, ◌-◌, ◌*◌, ◌%◌, ◌<◌, ◌≡◌, refl, ap, ◌∙◌, false, String, some, ltb, nat_beq,
  arith, inl, inr, Bool-cases, u64_mod, scan_digits, parse_u64, digit, print_digits, decimal,
}

scan-char :
    (c : Char) (d m : ℕ) (out : String)
    → code c ≡ 48 + d
    → d < 10
    → m * 10 + d < u64_mod
    → scan_digits (String.◌∷◌ c out) m ≡ scan_digits out (m * 10 + d)
unfolding scan_digits
scan-char c d m out e small room =
    let f : 48 + d - 48 ≡ d = omega arith in rw (scan_digits, e, f) (ground arith)

digit-char : (d : ℕ) → d < 10 → (c : Char) × (digit d ≡ String.◌∷◌ c String.[]) × (code c ≡ 48 + d)
digit-char zero h = ("0", refl, refl)
digit-char (suc zero) h = ("1", refl, refl)
digit-char (suc (suc zero)) h = ("2", refl, refl)
digit-char (suc (suc (suc zero))) h = ("3", refl, refl)
digit-char (suc (suc (suc (suc zero)))) h = ("4", refl, refl)
digit-char (suc (suc (suc (suc (suc zero))))) h = ("5", refl, refl)
digit-char (suc (suc (suc (suc (suc (suc zero)))))) h = ("6", refl, refl)
digit-char (suc (suc (suc (suc (suc (suc (suc zero))))))) h = ("7", refl, refl)
digit-char (suc (suc (suc (suc (suc (suc (suc (suc zero)))))))) h = ("8", refl, refl)
digit-char (suc (suc (suc (suc (suc (suc (suc (suc (suc zero))))))))) h = ("9", refl, refl)
digit-char (suc (suc (suc (suc (suc (suc (suc (suc (suc (suc d)))))))))) h = absurd (omega arith)

digit-cons :
    (d : ℕ) (out : String)
    → d < 10
    → (c : Char) × (digit d ++ out ≡ String.◌∷◌ c out) × (code c ≡ 48 + d)
digit-cons d out small =
    let (c, e, f) = digit-char d small in
    (
      c,
      ap (λ s. s ++ out) e ∙ (append.cons c String.[] out ∙ ap (String.◌∷◌ c) (append.nil out)),
      f,
    )

scan-digit :
    (d m : ℕ) (out : String)
    → d < 10
    → m * 10 + d < u64_mod
    → scan_digits (digit d ++ out) m ≡ scan_digits out (m * 10 + d)
scan-digit d m out small room =
    let (c, e, f) = digit-cons d out small in
    ap (λ s. scan_digits s m) e ∙ scan-char c d m out f small room

abbrev pow10 : ℕ → ℕ
pow10 zero = 1
pow10 (suc k) = 10 * pow10 k

scan-print :
    (fuel n : ℕ) (out : String)
    → n < pow10 fuel
    → n < u64_mod
    → scan_digits (print_digits fuel n out) 0 ≡ scan_digits out n
unfolding print_digits
scan-print zero n out h room = let e : 0 ≡ n = omega arith in ap (scan_digits out) e
scan-print (suc fuel) n out h room = elim (Bool-cases (ltb n 10)) [
  | inl q ↦
      let small : n < 10 = ground arith in
      let e : 0 * 10 + n ≡ n = omega arith in
      rw (print_digits, q) (scan-digit n 0 out small (omega (arith, room)) ∙ ap (scan_digits out) e)
  | inr q ↦
      let e : n / 10 * 10 + n % 10 ≡ n = omega arith in
      rw (print_digits, q)
        (scan-print fuel (n / 10) (digit (n % 10) ++ out) (omega arith) (omega arith)
          ∙ scan-digit (n % 10) (n / 10) out (omega arith) (omega arith)
          ∙ ap (scan_digits out) e)
]

-- The text begins with a character that is no sign.
abbrev StartsUnsigned : String → Type 0
StartsUnsigned s =
    (c : Char) × (rest : String) × (s ≡ String.◌∷◌ c rest) × (nat_beq (code c) 43 ≡ false)

digit-StartsUnsigned : (d : ℕ) (out : String) → d < 10 → StartsUnsigned (digit d ++ out)
digit-StartsUnsigned d out small =
    let (c, e, f) = digit-cons d out small in (c, out, e, ground (arith, f))

print-StartsUnsigned : (fuel n : ℕ) (out : String) → StartsUnsigned (print_digits (suc fuel) n out)
unfolding print_digits
print-StartsUnsigned zero n out = elim (Bool-cases (ltb n 10)) [
  | inl q ↦ rw (print_digits, q) (digit-StartsUnsigned n out (ground arith))
  | inr q ↦ rw (print_digits, q) (digit-StartsUnsigned (n % 10) out (omega arith))
]
print-StartsUnsigned (suc fuel) n out = elim (Bool-cases (ltb n 10)) [
  | inl q ↦ rw (print_digits, q) (digit-StartsUnsigned n out (ground arith))
  | inr q ↦ rw (print_digits, q) (print-StartsUnsigned fuel (n / 10) (digit (n % 10) ++ out))
]

parse_u64-scan : (s : String) → StartsUnsigned s → parse_u64 s ≡ scan_digits s 0
unfolding parse_u64
parse_u64-scan s (c, String.[], e, h) = rw e refl
parse_u64-scan s (c, String.◌∷◌ d t, e, h) = rw (e, parse_u64, h) refl

pub parse_u64-decimal : (n : ℕ) → n < u64_mod → parse_u64 (decimal n) ≡ some n
unfolding decimal scan_digits
parse_u64-decimal n room =
    parse_u64-scan _ (print-StartsUnsigned 19 n "") ∙ scan-print 20 n "" (omega arith) room

-- ===== src/Prelude/Text.antt =====
-- The texts of `String` and `str` that the source builds and takes apart: the order of texts,
-- prefixes, and the decimal form of a `u64`.
use Prim.Native.Nat.{ℕ, zero, suc, ◌+◌, ◌-◌, ◌*◌, ◌/◌, ◌%◌, Ordering}
use Prim.Native.Char.{code}
use Prim.Native.String.{String, ◌++◌, compare as compare_text}
use mathlib.Core.Bool.{Bool, true, false, ◌||◌}
use mathlib.Core.Option.{Option, none, some}
use mathlib.Core.List.{List, [], ◌∷◌}
use prosthetic_conscience.Prelude.Lists.{get_elem?}
use prosthetic_conscience.Prelude.Tests.{if◌then◌else◌, ltb, leb, nat_beq}
use prosthetic_conscience.Prelude.Words.{u64_mod}

-- `a.cmp(b)` is `Less`.
abbrev pub text_ltb : String → String → Bool
text_ltb a b = elim (compare_text a b) [ Ordering.lt ↦ true | _ ↦ false ]

-- `push_str`.
abbrev pub push_str : String → String → String
push_str a b = a ++ b

-- `format!`: the pieces of a text, one after the other.
abbrev pub concat : List String → String
concat [] = ""
concat (text ∷ texts) = push_str text (concat texts)

-- `texts.join(separator)`.
abbrev pub join : String → List String → String
join separator [] = ""
join separator (text ∷ []) = text
join separator (text ∷ texts) = push_str text (push_str separator (join separator texts))

-- `str::is_empty`.
abbrev pub is_empty_text : String → Bool
is_empty_text String.[] = true
is_empty_text (String.◌∷◌ c s) = false

-- `s.strip_prefix(prefix)`.
unfoldable pub strip_prefix : (s prefix : String) → Option String
strip_prefix s String.[] = some s
strip_prefix String.[] (String.◌∷◌ d t) = none
strip_prefix (String.◌∷◌ c s) (String.◌∷◌ d t) =
    if nat_beq (code c) (code d) then strip_prefix s t else none

-- The digits that `u64::from_str` reads behind the value `n`; an overflow is an error.
unfoldable pub scan_digits : String → ℕ → Option ℕ
scan_digits String.[] n = some n
scan_digits (String.◌∷◌ c s) n =
    let m = n * 10 + (code c - 48) in
    if ltb (code c) 48 || ltb 57 (code c) || leb u64_mod m then none else scan_digits s m

-- `s.parse::<u64>().ok()`: a sign `+` may stand before the digits.
unfoldable pub parse_u64 : String → Option ℕ
unfolding scan_digits
parse_u64 String.[] = none
parse_u64 (String.◌∷◌ c String.[]) = scan_digits (String.◌∷◌ c String.[]) 0
parse_u64 (String.◌∷◌ c (String.◌∷◌ d s)) =
    if nat_beq (code c) 43
    then scan_digits (String.◌∷◌ d s) 0
    else scan_digits (String.◌∷◌ c (String.◌∷◌ d s)) 0

abbrev pub digits : List String
digits = "0" ∷ "1" ∷ "2" ∷ "3" ∷ "4" ∷ "5" ∷ "6" ∷ "7" ∷ "8" ∷ "9" ∷ []

abbrev pub digit : ℕ → String
digit n = elim (get_elem? digits n) [ none ↦ "" | some text ↦ text ]

-- The digits of `n` before `out`. A `u64` has at most twenty.
unfoldable pub print_digits : ℕ → ℕ → String → String
print_digits zero n out = out
print_digits (suc fuel) n out =
    let rest = print_digits fuel (n / 10) (digit (n % 10) ++ out) in
    if ltb n 10 then digit n ++ out else rest

-- `n.to_string()` of a `u64`.
unfoldable pub decimal : ℕ → String
unfolding print_digits
decimal n = print_digits 20 n ""

-- ===== src/Json.antt =====
-- The values of `serde_json` that the source reads and builds. `serde_json` is not part of the
-- repository: `Json` lists the operations that are used of it, and `IsLawful` what its
-- documentation says of them, as far as the theorems rely on it.
use prosthetic_conscience.Prelude.{
  ℕ, ◌<◌, ◌≡◌, String, List, Option, none, some, string_eq, u64_mod,
}
use prosthetic_conscience.Map.{Map, IsUnique}
use prosthetic_conscience.Map

-- The result of `serde_json`'s conversions, with the text of the error.
pub data Parsed (A : Type 0) : Type 0 where
  parsed : A → Parsed A
  failed : (error : String) → Parsed A

pub record Json (Value : Type 0) : Type 0 where
  pub get : Value → String → Option Value
  -- an object, as the look-up of its members
  pub as_object : Value → Option (String → Option Value)
  pub as_str : Value → Option String
  pub as_u64 : Value → Option ℕ
  pub as_array : Value → Option (List Value)
  pub from_str : String → Parsed Value
  pub to_string_pretty : Value → Option String
  -- the forms that `json!` builds
  pub null : Value
  pub text : String → Value
  pub number : ℕ → Value
  pub array : List Value → Value
  pub object : Map String Value → Value

-- What is built is read back.
pub record IsLawful {Value : Type 0} (json : Json Value) : Type 0 where
  pub get_object :
      (members : Map String Value) (key : String)
      → IsUnique members
      → json.get (json.object members) key ≡ Map.get members key
  pub as_object_object :
      (members : Map String Value)
      → IsUnique members
      → json.as_object (json.object members) ≡ some (Map.get members)
  pub as_str_object : (members : Map String Value) → json.as_str (json.object members) ≡ none
  pub as_str_text : (s : String) → json.as_str (json.text s) ≡ some s
  pub as_u64_number : (n : ℕ) → n < u64_mod → json.as_u64 (json.number n) ≡ some n
  pub as_array_array : (values : List Value) → json.as_array (json.array values) ≡ some values

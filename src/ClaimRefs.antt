-- ===== src/ClaimRefs.antt =====
-- References to claims in JSON: `serialize` and `from_json_value` of `ClaimRef` in
-- crates/consensus/src/engine.rs.
pub mod Decimals
pub mod RoundTrip
use Prim.Native.Char.{Char, code}
use Prim.Native.String.append
use prosthetic_conscience.Prelude.{
  ℕ, ◌<◌, ◌≡◌, refl, true, false, String, [], ◌∷◌, Option, none, some, string_eq, u64_mod,
  strip_prefix, parse_u64, push_str, arith, nat_beq,
}
use prosthetic_conscience.Map.{Map, get, contains_key}
use prosthetic_conscience.Json.{Json, IsLawful}
use prosthetic_conscience.Drafts.{ClaimRef, committed, draft}

-- `.ok().map(DraftId).map(ClaimRef::Draft)`.
abbrev pub draft_of : Option ℕ → Option ClaimRef
draft_of none = none
draft_of (some n) = some (draft n)

-- The forms of a text: `draft:<n>`, `#<n>`, `claim:<id>`, and a bare identifier.
unfoldable pub from_text : String → Option ClaimRef
unfolding strip_prefix parse_u64
from_text raw = elim (strip_prefix raw "draft:") [
  | some rest ↦ draft_of (parse_u64 rest)
  | none ↦ elim (strip_prefix raw "#") [
    | some rest ↦ draft_of (parse_u64 rest)
    | none ↦ elim (strip_prefix raw "claim:") [
      | some rest ↦ some (committed rest)
      | none ↦ some (committed raw)
    ]
  ]
]

-- The `match` on the two members of an object.
abbrev pub one_of : Option String → Option ℕ → Option ClaimRef
one_of (some id) none = some (committed id)
one_of none (some id) = some (draft id)
one_of _ _ = none

-- The number of a draft is a machine word.
abbrev pub Fits : ClaimRef → Type 0
Fits (committed claim_id) = Unit
Fits (draft draft_id) = draft_id < u64_mod

-- With JSON values that keep what is put in them, a reference to a claim is read back from the
-- object that it is serialized to; the number of a draft must be a machine word.
module _ {Value : Type 0} (json : Json Value) where
  abbrev as_text : Option Value → Option String
  as_text none = none
  as_text (some v) = json.as_str v

  abbrev as_number : Option Value → Option ℕ
  as_number none = none
  as_number (some v) = json.as_u64 v

  unfoldable pub from_json_value : Value → Option ClaimRef
  unfolding from_text
  from_json_value value = elim (json.as_str value) [
    | some raw ↦ from_text raw
    | none ↦ elim (json.as_object value) [
      | none ↦ none
      | some lookup ↦ one_of (as_text (lookup "claim_id")) (as_number (lookup "draft_id"))
    ]
  ]

  -- An object with one entry.
  unfoldable pub serialize : ClaimRef → Value
  serialize (committed claim_id) = json.object (("claim_id", json.text claim_id) ∷ [])
  serialize (draft draft_id) = json.object (("draft_id", json.number draft_id) ∷ [])

  pub from_json_value-serialize :
      (claim_ref : ClaimRef)
      → IsLawful json
      → Fits claim_ref
      → from_json_value (serialize claim_ref) ≡ some claim_ref
  unfolding from_json_value serialize get contains_key
  from_json_value-serialize (committed claim_id) laws fits =
      let members : Map String Value = ("claim_id", json.text claim_id) ∷ [] in
      rw
        (
          from_json_value,
          serialize,
          laws.as_str_object members,
          laws.as_object_object members (refl, tt),
          laws.as_str_text claim_id,
        )
        refl
  from_json_value-serialize (draft draft_id) laws fits =
      let members : Map String Value = ("draft_id", json.number draft_id) ∷ [] in
      rw
        (
          from_json_value,
          serialize,
          laws.as_str_object members,
          laws.as_object_object members (refl, tt),
          laws.as_u64_number draft_id fits,
        )
        refl

nat_beq_refl : (n : ℕ) → nat_beq n n ≡ true
nat_beq_refl n = ground arith

strip_prefix-push_str : (p s : String) → strip_prefix (push_str p s) p ≡ some s
unfolding strip_prefix
strip_prefix-push_str String.[] s = rw (append.nil s) refl
strip_prefix-push_str (String.◌∷◌ c p) s =
    rw (append.cons c p s, nat_beq_refl (code c)) (strip_prefix-push_str p s)

strip_prefix-other :
    (c d : Char) (p s t : String)
    → nat_beq (code c) (code d) ≡ false
    → strip_prefix (push_str (String.◌∷◌ c p) s) (String.◌∷◌ d t) ≡ none
unfolding strip_prefix
strip_prefix-other c d p s t h = rw (append.cons c p s, h) refl

-- A text `claim:<id>` refers to the committed claim `<id>`, whatever the identifier is, and a text
-- `draft:<n>` or `#<n>` to the draft that `<n>` is parsed to.
pub from_text-forms :
    (s : String)
    → (from_text (push_str "claim:" s) ≡ some (committed s))
      × (from_text (push_str "draft:" s) ≡ draft_of (parse_u64 s))
      × (from_text (push_str "#" s) ≡ draft_of (parse_u64 s))
unfolding from_text strip_prefix
from_text-forms s = (
  rw
      (
        from_text,
        strip_prefix-other "c" "d" "laim:" s "raft:" refl,
        strip_prefix-other "c" "#" "laim:" s "" refl,
        strip_prefix-push_str "claim:" s,
      )
      refl,
  rw (from_text, strip_prefix-push_str "draft:" s) refl,
  rw (from_text, strip_prefix-other "#" "d" "" s "raft:" refl, strip_prefix-push_str "#" s) refl,
)
